-- ===== src/Prelude/Rows.antt =====
-- Queries by Boolean tests on a list of rows, as the SQL statements and iterators of the program
-- make them, and rows that are told apart by a key.
use mathlib.Core.List.{List, [], ◌∷◌, ◌++◌}
use mathlib.Core.Bool.{Bool, true, false, ◌||◌}
use mathlib.Core.Option.{Option, none, some}
use mathlib.Core.Path.{◌≡◌, refl, ap, sym, ◌∙◌}
use mathlib.Core.Logic.{◌≢◌, inl, inr}
use Prim.Native.Nat.{ℕ, suc, ◌+◌}
use native.Mathlib.Omega.{arith}
use visuara.Prelude.Tests.{if◌then◌else◌, Bool-cases}
use visuara.Prelude.Lists.{All, All-concat}

module _ {ℓ} {A : Type ℓ} where
  unfoldable pub filter : (A → Bool) → List A → List A
  filter p [] = []
  filter p (x ∷ xs) = if p x then x ∷ filter p xs else filter p xs

  unfoldable pub find? : (A → Bool) → List A → Option A
  find? p [] = none
  find? p (x ∷ xs) = if p x then some x else find? p xs

  unfoldable pub count : (A → Bool) → List A → ℕ
  count p [] = 0
  count p (x ∷ xs) = if p x then suc (count p xs) else count p xs

  unfoldable pub any : (A → Bool) → List A → Bool
  any p [] = false
  any p (x ∷ xs) = p x || any p xs

  -- `UPDATE … SET … WHERE p`
  unfoldable pub update : (A → Bool) → (A → A) → List A → List A
  update p f [] = []
  update p f (x ∷ xs) = (if p x then f x else x) ∷ update p f xs

  pub find?_holds : (p : A → Bool) (xs : List A) (a : A) → find? p xs ≡ some a → p a ≡ true
  unfolding find?
  find?_holds p [] a e = absurd (ground arith)
  find?_holds p (x ∷ xs) a e = ground (arith, find?_holds p xs a)

  pub find?-none-All : (p : A → Bool) (xs : List A) → find? p xs ≡ none → All (λ x. p x ≡ false) xs
  unfolding find?
  find?-none-All p [] e = tt
  find?-none-All p (x ∷ xs) e = ground (arith, find?-none-All p xs)

  pub count-append : (p : A → Bool) (xs ys : List A) → count p (xs ++ ys) ≡ count p xs + count p ys
  unfolding count
  count-append p [] ys = omega arith
  count-append p (x ∷ xs) ys = ground (arith, count-append p xs ys)

  pub filter_none : (p : A → Bool) (xs : List A) → All (λ x. p x ≡ true) xs → filter p xs ≡ xs
  unfolding filter
  filter_none p [] h = refl
  filter_none p (x ∷ xs) (h, hs) = rw h (ap (◌∷◌ x) (filter_none p xs hs))

  pub All-filter {κ} :
      (P : A → Type κ) (p : A → Bool) (xs : List A) → All P xs → All P (filter p xs)
  unfolding filter
  All-filter P p [] h = tt
  All-filter P p (x ∷ xs) (h, hs) = elim (Bool-cases (p x)) [
    | inl e ↦ rw (e, filter) (h, All-filter P p xs hs)
    | inr e ↦ rw (e, filter) (All-filter P p xs hs)
  ]

  pub filter-All : (p : A → Bool) (xs : List A) → All (λ x. p x ≡ true) (filter p xs)
  unfolding filter
  filter-All p [] = tt
  filter-All p (x ∷ xs) = elim (Bool-cases (p x)) [
    | inl e ↦ rw (e, filter) (e, filter-All p xs)
    | inr e ↦ rw (e, filter) (filter-All p xs)
  ]

  pub find?-filter-none :
      (p q : A → Bool) (xs : List A)
      → ((x : A) → p x ≡ true → q x ≡ false)
      → find? p (filter q xs) ≡ none
  unfolding find? filter
  find?-filter-none p q [] h = refl
  find?-filter-none p q (x ∷ xs) h = ground (arith, h x, find?-filter-none p q xs h)

  pub find?-append :
      (p : A → Bool) (xs ys : List A) → find? p xs ≡ none → find? p (xs ++ ys) ≡ find? p ys
  unfolding find?
  find?-append p [] ys e = refl
  find?-append p (x ∷ xs) ys e = ground (arith, find?-append p xs ys)

  pub any-find? : (p : A → Bool) (xs : List A) → any p xs ≡ false → find? p xs ≡ none
  unfolding any find?
  any-find? p [] e = refl
  any-find? p (x ∷ xs) e = ground (arith, any-find? p xs)

  pub All-update {κ} :
      (P : A → Type κ) (p : A → Bool) (f : A → A) (xs : List A)
      → ((x : A) → P x → P (f x))
      → All P xs
      → All P (update p f xs)
  unfolding update
  All-update P p f [] h k = tt
  All-update P p f (x ∷ xs) h (k, ks) = elim (Bool-cases (p x)) [
    | inl e ↦ rw (e, update) (h x k, All-update P p f xs h ks)
    | inr e ↦ rw (e, update) (k, All-update P p f xs h ks)
  ]

module _ {ℓ κ} {A : Type ℓ} {K : Type κ} (key : A → K) where
  -- No two rows have the same key.
  abbrev pub Distinct : List A → Type κ
  Distinct [] = Unit
  Distinct (x ∷ xs) = All (λ y. key y ≢ key x) xs × Distinct xs

  pub Distinct-concat :
      (xs : List A) (a : A) → Distinct xs → All (λ y. key y ≢ key a) xs → Distinct (xs ++ a ∷ [])
  Distinct-concat [] a d h = (tt, tt)
  Distinct-concat (x ∷ xs) a (new, d) (h, hs) =
      (All-concat (λ y. key y ≢ key x) xs a new (λ e. h (sym e)), Distinct-concat xs a d hs)

  pub Distinct-filter : (p : A → Bool) (xs : List A) → Distinct xs → Distinct (filter p xs)
  unfolding filter
  Distinct-filter p [] d = tt
  Distinct-filter p (x ∷ xs) (new, d) = elim (Bool-cases (p x)) [
    | inl e ↦ rw (e, filter) (All-filter (λ y. key y ≢ key x) p xs new, Distinct-filter p xs d)
    | inr e ↦ rw (e, filter) (Distinct-filter p xs d)
  ]

  pub Distinct-update :
      (p : A → Bool) (f : A → A) (xs : List A)
      → ((x : A) → key (f x) ≡ key x)
      → Distinct xs
      → Distinct (update p f xs)
  unfolding update
  Distinct-update p f [] same d = tt
  Distinct-update p f (x ∷ xs) same (new, d) = elim (Bool-cases (p x)) [
    | inl e ↦
        rw (e, update, same x)
          (
            All-update (λ y. key y ≢ key x) p f xs (λ y h k. h (sym (same y) ∙ k)) new,
            Distinct-update p f xs same d,
          )
    | inr e ↦
        rw (e, update)
          (
            All-update (λ y. key y ≢ key x) p f xs (λ y h k. h (sym (same y) ∙ k)) new,
            Distinct-update p f xs same d,
          )
  ]
