-- ===== src/Client/Window.antt =====
-- visuara-client/src/gui.rs: which input events of the window go to the host, while a picture, its size
-- and the data channel are there. What egui computes with floating point numbers is a parameter
-- (`Surface`). Each event is sent by a task of its own; here they arrive in the order of the events.
pub mod Held
pub mod Stuck
mod Tests
use visuara.Prelude.{
  ℕ, Bool, true, false, ◌||◌, List, [], ◌∷◌, ◌++◌, Option, none, some, String, if◌then◌else◌,
}
use visuara.Control
use visuara.Control.{ℤ, InputEvent, MouseButton, KeyCode}

-- The buttons of egui; of its keys, those that the code names, and any other.
pub data PointerButton : Type 0 where
  primary secondary middle extra_1 extra_2 : PointerButton

pub data EguiKey : Type 0 where
  backspace enter tab escape space delete arrow_up arrow_down arrow_left arrow_right : EguiKey
  other_key : String → EguiKey

-- Positions and wheel movements, and what is computed of them: whether the picture contains a position,
-- the remote coordinates of one that it contains (`remote_coords`), and the steps of a wheel movement.
-- The picture is hovered or has the focus, or not.
pub record Surface : Type 1 where
  pub Position : Type 0
  pub Delta : Type 0
  pub contains : Position → Bool
  pub remote_coords : Position → ℤ × ℤ
  pub wheel_steps : Delta → ℤ × ℤ
  pub hovered : Bool
  pub has_focus : Bool

unfoldable pub map_pointer_button : PointerButton → Option MouseButton
map_pointer_button primary = some Control.MouseButton.left
map_pointer_button secondary = some Control.MouseButton.right
map_pointer_button middle = some Control.MouseButton.middle
map_pointer_button extra_1 = none
map_pointer_button extra_2 = none

unfoldable pub map_special_key : EguiKey → Option KeyCode
map_special_key backspace = some Control.KeyCode.backspace
map_special_key enter = some Control.KeyCode.enter
map_special_key tab = some Control.KeyCode.tab
map_special_key escape = some Control.KeyCode.escape
map_special_key space = some Control.KeyCode.space
map_special_key delete = some Control.KeyCode.delete
map_special_key arrow_up = some Control.KeyCode.arrow_up
map_special_key arrow_down = some Control.KeyCode.arrow_down
map_special_key arrow_left = some Control.KeyCode.arrow_left
map_special_key arrow_right = some Control.KeyCode.arrow_right
map_special_key (other_key name) = none

pressed_button : Option MouseButton → Bool → List InputEvent
pressed_button none pressed = []
pressed_button (some b) pressed = Control.InputEvent.mouse_button b pressed ∷ []

pressed_key : Option KeyCode → Bool → List InputEvent
pressed_key none pressed = []
pressed_key (some k) pressed = Control.InputEvent.key_event k pressed ∷ []

module _ (surface : Surface) where
  open surface use {Position, Delta, contains, remote_coords, wheel_steps, hovered, has_focus}

  -- A key event says whether the key is held down and repeats.
  pub data Event : Type 0 where
    pointer_moved : Position → Event
    pointer_button : Position → PointerButton → Bool → Event
    mouse_wheel : Delta → Event
    text : String → Event
    key : EguiKey → Bool → Bool → Event
    other_event : Event

  -- What one event of the window sends to the host.
  unfoldable pub capture : Event → List InputEvent
  unfolding pressed_button pressed_key
  capture (pointer_moved pos) =
      let (x, y) = remote_coords pos in
      if contains pos then Control.InputEvent.mouse_move x y ∷ [] else []
  capture (pointer_button pos b pressed) =
      if contains pos then pressed_button (map_pointer_button b) pressed else []
  capture (mouse_wheel delta) =
      let (delta_x, delta_y) = wheel_steps delta in
      if hovered then Control.InputEvent.mouse_scroll delta_x delta_y ∷ [] else []
  capture (text t) = if hovered || has_focus then Control.InputEvent.type_text t ∷ [] else []
  capture (key k pressed true) = []
  capture (key k pressed false) =
      if hovered || has_focus then pressed_key (map_special_key k) pressed else []
  capture other_event = []

  unfoldable pub capture_each : List Event → List InputEvent
  capture_each [] = []
  capture_each (e ∷ es) = capture e ++ capture_each es
