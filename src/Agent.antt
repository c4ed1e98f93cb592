-- ===== src/Agent.antt =====
-- visuara-agent/src/input.rs: the calls of the enigo library that input events come to. Which calls
-- succeed is a parameter.
use visuara.Prelude.{zero, suc, Bool, true, false, List, [], ◌∷◌, ◌++◌, String, if◌then◌else◌}
use visuara.Control
use visuara.Control.{ℤ, pos, negsuc, InputEvent, MouseButton, KeyCode}

pub data Direction : Type 0 where
  press release : Direction

pub data Axis : Type 0 where
  vertical horizontal : Axis

-- The buttons and keys of enigo that the code names.
pub data Button : Type 0 where
  left right middle : Button

pub data Key : Type 0 where
  backspace return tab escape space delete up_arrow down_arrow left_arrow right_arrow : Key
  shift control alt meta : Key

pub data Call : Type 0 where
  move_mouse : ℤ → ℤ → Call
  button : Button → Direction → Call
  scroll : ℤ → Axis → Call
  key : Key → Direction → Call
  text : String → Call

unfoldable pub map_button : MouseButton → Button
map_button Control.MouseButton.left = Button.left
map_button Control.MouseButton.right = Button.right
map_button Control.MouseButton.middle = Button.middle

unfoldable pub map_key : KeyCode → Key
map_key Control.KeyCode.backspace = Key.backspace
map_key Control.KeyCode.enter = return
map_key Control.KeyCode.tab = Key.tab
map_key Control.KeyCode.escape = Key.escape
map_key Control.KeyCode.space = Key.space
map_key Control.KeyCode.delete = Key.delete
map_key Control.KeyCode.arrow_up = up_arrow
map_key Control.KeyCode.arrow_down = down_arrow
map_key Control.KeyCode.arrow_left = left_arrow
map_key Control.KeyCode.arrow_right = right_arrow
map_key Control.KeyCode.shift = Key.shift
map_key Control.KeyCode.control = Key.control
map_key Control.KeyCode.alt = Key.alt
map_key Control.KeyCode.meta = Key.meta

abbrev pub direction_of : Bool → Direction
direction_of pressed = if pressed then press else release

-- `if delta != 0`
scroll_call : ℤ → Axis → List Call
scroll_call (pos zero) axis = []
scroll_call (pos (suc n)) axis = scroll (pos (suc n)) axis ∷ []
scroll_call (negsuc n) axis = scroll (negsuc n) axis ∷ []

-- Calls one after the other, up to the first that fails: whether none did, and those that were made.
attempt : (Call → Bool) → List Call → Bool × List Call
attempt works [] = (true, [])
attempt works (c ∷ cs) =
    let (rest, made) = attempt works cs in if works c then (rest, c ∷ made) else (false, c ∷ [])

calls_for : InputEvent → List Call
unfolding scroll_call
calls_for (Control.InputEvent.mouse_move x y) = move_mouse x y ∷ []
calls_for (Control.InputEvent.mouse_button b pressed) =
    button (map_button b) (direction_of pressed) ∷ []
calls_for (Control.InputEvent.mouse_scroll delta_x delta_y) =
    scroll_call delta_y vertical ++ scroll_call delta_x horizontal
calls_for (Control.InputEvent.key_event k pressed) = key (map_key k) (direction_of pressed) ∷ []
calls_for (Control.InputEvent.type_text t) = text t ∷ []

unfoldable pub apply : (Call → Bool) → InputEvent → Bool × List Call
unfolding attempt calls_for
apply works event = attempt works (calls_for event)

-- The calls for a list of events: the error of one is printed, and the next is applied.
unfoldable pub apply_each : (Call → Bool) → List InputEvent → List Call
apply_each works [] = []
apply_each works (e ∷ es) = (apply works e).1 ++ apply_each works es
