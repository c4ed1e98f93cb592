-- ===== src/Client/Window/Tests.antt =====
-- A picture that contains the positions below 100.
use visuara.Prelude.{◌≡◌, refl, ltb, true, false, List, [], ◌∷◌, ℕ, inl, inr}
use visuara.Control.{pos}
use visuara.Agent.{Button}
use visuara.Client.Window.{primary, secondary, Surface, Event, pointer_moved, pointer_button}
use visuara.Client.Window.Held.{holds, on_host}
use visuara.Client.Window.Stuck.{on_host-stuck}

abbrev picture : Surface
picture = record {
  Position = ℕ;
  Delta = ℕ;
  contains = λ at. ltb at 100;
  remote_coords = λ at. (pos at, pos at);
  wheel_steps = λ d. (pos 0, pos d);
  hovered = true;
  has_focus = true;
}

-- The pointer leaves the picture, and the button is released there.
abbrev drag_out : List (Event picture)
drag_out =
    pointer_moved 200 ∷ pointer_button 200 primary false ∷ pointer_button 8 secondary false ∷ []

on_host-stuck_example :
    holds (on_host picture (pointer_button 5 primary true ∷ drag_out)) Button.left false ≡ true
on_host-stuck_example =
    on_host-stuck picture Button.left 5 primary drag_out false refl refl
      (tt, (inl refl, (inr refl, tt)))
