-- ===== src/Client/Window/Held.antt =====
-- Which buttons are held on the host (gui.rs, input.rs).
use mathlib.Core.List.{append_assoc}
use visuara.Prelude.{
  ◌≡◌, refl, sym, ap, ◌∙◌, Bool, true, false, List, [], ◌∷◌, ◌++◌, Option, none, some, Bool-cases,
  inl, inr, ◌||◌, if◌then◌else◌, zero, suc,
}
use visuara.Control
use visuara.Control.{ℤ, pos, negsuc, InputEvent, KeyCode}
use visuara.Agent
use visuara.Agent.{
  Call, Button, Direction, press, release, apply, apply_each, map_button, direction_of,
}
use visuara.Client.Window.{
  PointerButton, primary, secondary, middle, extra_1, extra_2, Surface, Event, pointer_moved,
  pointer_button, mouse_wheel, text, key, other_event, map_pointer_button, map_special_key,
  pressed_button, pressed_key, capture, capture_each,
}

-- enigo's button for a button of the window.
abbrev pub host_button : PointerButton → Option Button
host_button primary = some Button.left
host_button secondary = some Button.right
host_button middle = some Button.middle
host_button extra_1 = none
host_button extra_2 = none

abbrev same : Button → Button → Bool
same Button.left Button.left = true
same Button.right Button.right = true
same Button.middle Button.middle = true
same _ _ = false

abbrev is_press : Direction → Bool
is_press press = true
is_press release = false

abbrev held_after : Call → Button → Bool → Bool
held_after (Agent.Call.button c d) b held = if same c b then is_press d else held
held_after _ b held = held

-- Whether a button is held after some calls.
abbrev pub holds : List Call → Button → Bool → Bool
holds [] b held = held
holds (c ∷ cs) b held = holds cs b (held_after c b held)

-- Every call of enigo succeeds.
abbrev pub always : Call → Bool
always c = true

abbrev pub on_host : (surface : Surface) → List (Event surface) → List Call
on_host surface es = apply_each always (capture_each surface es)

holds-append :
    (cs ds : List Call) (b : Button) (h : Bool) → holds (cs ++ ds) b h ≡ holds ds b (holds cs b h)
holds-append [] ds b h = refl
holds-append (c ∷ cs) ds b h = holds-append cs ds b (held_after c b h)

apply_each-append :
    (works : Call → Bool) (xs ys : List InputEvent)
    → apply_each works (xs ++ ys) ≡ apply_each works xs ++ apply_each works ys
unfolding apply_each
apply_each-append works [] ys = refl
apply_each-append works (x ∷ xs) ys =
    ap (◌++◌ (apply works x).1) (apply_each-append works xs ys)
    ∙ sym (append_assoc (apply works x).1 (apply_each works xs) (apply_each works ys))

-- Whether a button of the window is the host's button.
abbrev pub is_for : PointerButton → Button → Bool
is_for p b = elim (host_button p) [ none ↦ false | some c ↦ same c b ]

-- Turning the wheel presses nothing.
wheel_holds :
    (x y : ℤ) (b : Button) (h : Bool)
    → holds (apply_each always (Control.InputEvent.mouse_scroll x y ∷ [])) b h ≡ h
unfolding apply_each apply
wheel_holds (pos zero) (pos zero) b h = refl
wheel_holds (pos zero) (pos (suc m)) b h = refl
wheel_holds (pos zero) (negsuc m) b h = refl
wheel_holds (pos (suc n)) (pos zero) b h = refl
wheel_holds (pos (suc n)) (pos (suc m)) b h = refl
wheel_holds (pos (suc n)) (negsuc m) b h = refl
wheel_holds (negsuc n) (pos zero) b h = refl
wheel_holds (negsuc n) (pos (suc m)) b h = refl
wheel_holds (negsuc n) (negsuc m) b h = refl

-- A captured press or release does to the host's button what it did to the window's.
button_holds :
    (p : PointerButton) (pressed : Bool) (b : Button) (h : Bool)
    → holds (apply_each always (pressed_button (map_pointer_button p) pressed)) b h
      ≡ (if is_for p b then pressed else h)
unfolding apply_each apply map_pointer_button map_button pressed_button
button_holds primary true b h = refl
button_holds primary false b h = refl
button_holds secondary true b h = refl
button_holds secondary false b h = refl
button_holds middle true b h = refl
button_holds middle false b h = refl
button_holds extra_1 pressed b h = refl
button_holds extra_2 pressed b h = refl

-- No key presses a button.
key_holds :
    (k : Option KeyCode) (pressed : Bool) (b : Button) (h : Bool)
    → holds (apply_each always (pressed_key k pressed)) b h ≡ h
unfolding apply_each apply pressed_key
key_holds none pressed b h = refl
key_holds (some k) pressed b h = refl

module _ (surface : Surface) (b : Button) where
  -- What an event of the window does to the host's button: only one over the picture does anything.
  abbrev pub over_picture : Event surface → Bool → Bool
  over_picture (pointer_button at p pressed) h =
      if surface.contains at then (if is_for p b then pressed else h) else h
  over_picture _ h = h

  event_holds :
      (e : Event surface) (h : Bool)
      → holds (apply_each always (capture surface e)) b h ≡ over_picture e h
  unfolding capture apply_each apply
  event_holds (pointer_moved at) h = elim (Bool-cases (surface.contains at)) [
    | inl inside ↦ rw (inside)
    | inr outside ↦ rw (outside)
  ]
  event_holds (pointer_button at p pressed) h = elim (Bool-cases (surface.contains at)) [
    | inl inside ↦ rw (inside) (button_holds p pressed b h)
    | inr outside ↦ rw (outside)
  ]
  event_holds (mouse_wheel delta) h = elim (Bool-cases surface.hovered) [
    | inl over ↦
        rw (over) (wheel_holds (surface.wheel_steps delta).0 (surface.wheel_steps delta).1 b h)
    | inr away ↦ rw (away)
  ]
  event_holds (text t) h = elim (Bool-cases (surface.hovered || surface.has_focus)) [
    | inl over ↦ rw (over)
    | inr away ↦ rw (away)
  ]
  event_holds (key k pressed true) h = refl
  event_holds (key k pressed false) h = elim (Bool-cases (surface.hovered || surface.has_focus)) [
    | inl over ↦ rw (over) (key_holds (map_special_key k) pressed b h)
    | inr away ↦ rw (away)
  ]
  event_holds other_event h = refl

  unfoldable pub held : (es : List (Event surface)) (h : Bool) → Bool
  held [] h = h
  held (e ∷ es) h = held es (over_picture e h)

  pub on_host_holds :
      (es : List (Event surface)) (h : Bool) → holds (on_host surface es) b h ≡ held es h
  unfolding capture_each held apply_each
  on_host_holds [] h = refl
  on_host_holds (e ∷ es) h =
      ap (λ cs. holds cs b h)
        (apply_each-append always (capture surface e) (capture_each surface es))
      ∙ holds-append (apply_each always (capture surface e)) (on_host surface es) b h
      ∙ ap (holds (on_host surface es) b) (event_holds e h)
      ∙ on_host_holds es (over_picture e h)
