-- ===== src/Client/Window/Stuck.antt =====
-- A button that the user holds is held on the host, and stays held when it is released beside the
-- picture (gui.rs, input.rs).
use visuara.Prelude.{
  ◌≡◌, ◌⊎◌, refl, ◌∙◌, Bool, true, false, List, [], ◌∷◌, All, Bool-cases, inl, inr, if◌then◌else◌,
}
use visuara.Agent.{Button}
use visuara.Client.Window.{
  PointerButton, Surface, Event, pointer_moved, pointer_button, mouse_wheel, text, key, other_event,
}
use visuara.Client.Window.Held.{holds, on_host, is_for, held, on_host_holds}

module _ (surface : Surface) (b : Button) where
  -- Whether the button is held in the window, wherever the pointer is.
  abbrev pub window_holds : List (Event surface) → Bool → Bool
  window_holds [] h = h
  window_holds (pointer_button at p pressed ∷ es) h =
      window_holds es (if is_for p b then pressed else h)
  window_holds (_ ∷ es) h = window_holds es h

  -- A press or release is over the picture.
  abbrev pub Over : Event surface → Type 0
  Over (pointer_button at p pressed) = surface.contains at ≡ true
  Over _ = Unit

  -- While presses and releases are over the picture, a button of the host is held, after any events of
  -- the window, exactly when the window's button is, if the picture stays where it is, the events reach
  -- the host in their order and enigo's calls succeed.
  on_host-window_holds :
      (es : List (Event surface)) (h : Bool)
      → All Over es
      → holds (on_host surface es) b h ≡ window_holds es h
  unfolding held
  on_host-window_holds es h over = on_host_holds surface b es h ∙ same_held es h over
    where
      same_held :
          (fs : List (Event surface)) (k : Bool)
          → All Over fs
          → held surface b fs k ≡ window_holds fs k
      same_held [] k o = refl
      same_held (pointer_button at p pressed ∷ fs) k (inside, o) =
          rw (inside) (same_held fs (if is_for p b then pressed else k) o)
      same_held (pointer_moved at ∷ fs) k (u, o) = same_held fs k o
      same_held (mouse_wheel delta ∷ fs) k (u, o) = same_held fs k o
      same_held (text t ∷ fs) k (u, o) = same_held fs k o
      same_held (key q pressed repeats ∷ fs) k (u, o) = same_held fs k o
      same_held (other_event ∷ fs) k (u, o) = same_held fs k o

  -- Not a release of the button over the picture.
  abbrev pub NoRelease : Event surface → Type 0
  NoRelease (pointer_button at p false) = (surface.contains at ≡ false) ⊎ (is_for p b ≡ false)
  NoRelease _ = Unit

  still_held : (es : List (Event surface)) → All NoRelease es → held surface b es true ≡ true
  unfolding held
  still_held [] none_released = refl
  still_held (pointer_button at p true ∷ es) (u, rest) = elim (Bool-cases (surface.contains at)) [
    | inl inside ↦ elim (Bool-cases (is_for p b)) [
      | inl for_b ↦ rw (inside, for_b) (still_held es rest)
      | inr other ↦ rw (inside, other) (still_held es rest)
    ]
    | inr outside ↦ rw (outside) (still_held es rest)
  ]
  still_held (pointer_button at p false ∷ es) (inl outside, rest) =
      rw (outside) (still_held es rest)
  still_held (pointer_button at p false ∷ es) (inr other, rest) =
      elim (Bool-cases (surface.contains at)) [
        | inl inside ↦ rw (inside, other) (still_held es rest)
        | inr outside ↦ rw (outside) (still_held es rest)
      ]
  still_held (pointer_moved at ∷ es) (u, rest) = still_held es rest
  still_held (mouse_wheel delta ∷ es) (u, rest) = still_held es rest
  still_held (text t ∷ es) (u, rest) = still_held es rest
  still_held (key k pressed repeats ∷ es) (u, rest) = still_held es rest
  still_held (other_event ∷ es) (u, rest) = still_held es rest

  -- A button that is pressed over the picture stays held on the host, whatever follows, as long as it is
  -- not released over the picture: a release beside it never reaches the host. The picture stays where
  -- it is, the events reach the host in their order, and the calls of enigo succeed.
  pub on_host-stuck :
      (at : surface.Position) (p : PointerButton) (es : List (Event surface)) (h : Bool)
      → surface.contains at ≡ true
      → is_for p b ≡ true
      → All NoRelease es
      → holds (on_host surface (pointer_button at p true ∷ es)) b h ≡ true
  unfolding held
  on_host-stuck at p es h inside for_b rest =
      on_host_holds surface b (pointer_button at p true ∷ es) h
      ∙ rw (inside, for_b) (still_held es rest)
