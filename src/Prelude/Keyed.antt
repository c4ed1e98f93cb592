-- ===== src/Prelude/Keyed.antt =====
-- Deleting or changing the row of one numeric key, and how a count changes by it.
use mathlib.Core.List.{List, [], ◌∷◌}
use mathlib.Core.Bool.{Bool, true, false, not}
use mathlib.Core.Option.{some}
use mathlib.Core.Path.{◌≡◌, refl}
use mathlib.Core.Logic.{◌≢◌}
use Prim.Native.Nat.{ℕ, ◌+◌, ◌≤◌}
use native.Mathlib.Omega.{arith}
use native.Mathlib.Decide.{ℕ_discrete}
use visuara.Prelude.Tests.{◌==◌}
use visuara.Prelude.Lists.{All}
use visuara.Prelude.Rows.{filter, find?, count, update, Distinct}

module _ {ℓ} {A : Type ℓ} (key : A → ℕ) where
  -- Rows with other keys are left alone.
  filter_absent :
      (k : ℕ) (xs : List A) → All (λ y. key y ≢ k) xs → filter (λ y. not (key y == k)) xs ≡ xs
  unfolding filter
  filter_absent k [] h = refl
  filter_absent k (x ∷ xs) (h, hs) = ground (arith, filter_absent k xs hs)

  update_absent :
      (k : ℕ) (f : A → A) (xs : List A)
      → All (λ y. key y ≢ k) xs
      → update (λ y. key y == k) f xs ≡ xs
  unfolding update
  update_absent k f [] h = refl
  update_absent k f (x ∷ xs) (h, hs) = ground (arith, update_absent k f xs hs)

  absent_of_key :
      (k : ℕ) (x : A) (xs : List A)
      → key x ≡ k
      → All (λ y. key y ≢ key x) xs
      → All (λ y. key y ≢ k) xs
  absent_of_key k x [] e h = tt
  absent_of_key k x (y ∷ xs) e (h, hs) = (λ same. h (omega arith), absent_of_key k x xs e hs)

  -- Deleting one key lowers a count by at most one, and not at all if the row found at that key is
  -- not counted.
  pub count-delete :
      (p : A → Bool) (k : ℕ) (xs : List A)
      → Distinct key xs
      → count p xs ≤ count p (filter (λ y. not (key y == k)) xs) + 1
  unfolding count filter
  count-delete p k [] d = omega arith
  count-delete p k (x ∷ xs) (new, d) = elim (ℕ_discrete (key x) k) [
    | yes same ↦ ground (arith, filter_absent k xs (absent_of_key k x xs same new))
    | no other ↦ ground (arith, count-delete p k xs d)
  ]

  pub count-delete_uncounted :
      (p : A → Bool) (k : ℕ) (xs : List A)
      → Distinct key xs
      → ((a : A) → find? (λ y. key y == k) xs ≡ some a → p a ≡ false)
      → count p (filter (λ y. not (key y == k)) xs) ≡ count p xs
  unfolding count filter find?
  count-delete_uncounted p k [] d h = refl
  count-delete_uncounted p k (x ∷ xs) (new, d) h = elim (ℕ_discrete (key x) k) [
    | yes same ↦ ground (arith, filter_absent k xs (absent_of_key k x xs same new), h x)
    | no other ↦ ground (arith, count-delete_uncounted p k xs d (λ a e. h a (ground arith)))
  ]

  -- So it is for a change of the row with one key.
  pub count-update :
      (p : A → Bool) (f : A → A) (k : ℕ) (xs : List A)
      → Distinct key xs
      → count p xs ≤ count p (update (λ y. key y == k) f xs) + 1
  unfolding count update
  count-update p f k [] d = omega arith
  count-update p f k (x ∷ xs) (new, d) = elim (ℕ_discrete (key x) k) [
    | yes same ↦ ground (arith, update_absent k f xs (absent_of_key k x xs same new))
    | no other ↦ ground (arith, count-update p f k xs d)
  ]

  pub count-update_uncounted :
      (p : A → Bool) (f : A → A) (k : ℕ) (xs : List A)
      → Distinct key xs
      → ((a : A) → find? (λ y. key y == k) xs ≡ some a → p a ≡ false)
      → count p xs ≤ count p (update (λ y. key y == k) f xs)
  unfolding count update find?
  count-update_uncounted p f k [] d h = omega arith
  count-update_uncounted p f k (x ∷ xs) (new, d) h = elim (ℕ_discrete (key x) k) [
    | yes same ↦ ground (arith, update_absent k f xs (absent_of_key k x xs same new), h x)
    | no other ↦ ground (arith, count-update_uncounted p f k xs d (λ a e. h a (ground arith)))
  ]

  -- A change to what is counted lowers no count.
  pub count-update_raise :
      (p : A → Bool) (f : A → A) (k : ℕ) (xs : List A)
      → ((a : A) → p (f a) ≡ true)
      → count p xs ≤ count p (update (λ y. key y == k) f xs)
  unfolding count update
  count-update_raise p f k [] h = omega arith
  count-update_raise p f k (x ∷ xs) h = ground (arith, count-update_raise p f k xs h, h x)
