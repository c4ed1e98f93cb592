-- ===== src/EmbeddedConfig/Search.antt =====
-- `find_subslice` finds the first occurrence of the needle.
use mathlib.Core.Option
use mathlib.Core.List.{append_assoc}
use visuara.Prelude.{
  ℕ, zero, suc, ◌≤◌, ◌<◌, ◌≡◌, refl, ap, ◌∙◌, true, List, [], ◌∷◌, ◌++◌, some, length, arith, inl,
  inr, Bool-cases, Option-cases, length-append,
}
use visuara.EmbeddedConfig.Bytes.{bytes_eq, first_window, find_subslice}

bytes_eq-eq : (xs ys : List ℕ) → bytes_eq xs ys ≡ true → xs ≡ ys
unfolding bytes_eq
bytes_eq-eq [] [] h = refl
bytes_eq-eq [] (y ∷ ys) h = cc
bytes_eq-eq (x ∷ xs) [] h = cc
bytes_eq-eq (x ∷ xs) (y ∷ ys) h = ground (arith, bytes_eq-eq xs ys)

bytes_eq_refl : (xs : List ℕ) → bytes_eq xs xs ≡ true
unfolding bytes_eq
bytes_eq_refl [] = refl
bytes_eq_refl (x ∷ xs) = ground (arith, bytes_eq_refl xs)

first_window-append : (n : ℕ) (w r : List ℕ) → n ≡ length w → first_window n (w ++ r) ≡ some w
unfolding first_window
first_window-append zero [] r h = refl
first_window-append zero (x ∷ w) r h = absurd (omega arith)
first_window-append (suc n) [] r h = absurd (omega arith)
first_window-append (suc n) (x ∷ w) r h = rw (first_window-append n w r (omega arith))

first_window_eq :
    (n : ℕ) (xs w : List ℕ) → first_window n xs ≡ some w → (r : List ℕ) × (xs ≡ w ++ r)
unfolding first_window
first_window_eq zero xs w h = (xs, ground arith)
first_window_eq (suc n) [] w h = cc
first_window_eq (suc n) (x ∷ xs) w h =
    let (v, e, same) = (Option.map-eq-some_iff _ _).0 h in
    let (r, split) = first_window_eq n xs v e in (r, ap (◌∷◌ x) split ∙ ap (λ u. u ++ r) same)

-- A window that ends inside `ys` does not see what follows `ys`.
first_window-append_le :
    (n : ℕ) (ys r s : List ℕ) → n ≤ length ys → first_window n (ys ++ r) ≡ first_window n (ys ++ s)
unfolding first_window
first_window-append_le zero ys r s h = refl
first_window-append_le (suc n) [] r s h = absurd (omega arith)
first_window-append_le (suc n) (y ∷ ys) r s h = rw (first_window-append_le n ys r s (omega arith))

first_window_stable :
    (n : ℕ) (b needle r s : List ℕ)
    → n ≤ length needle
    → first_window n (b ++ (needle ++ r)) ≡ first_window n (b ++ (needle ++ s))
first_window_stable n b needle r s h =
    rw (← append_assoc b needle r, ← append_assoc b needle s)
      (first_window-append_le n (b ++ needle) r s (omega (arith, length-append b needle)))

first_window_total :
    (n : ℕ) (xs : List ℕ) → n ≤ length xs → (w : List ℕ) × (first_window n xs ≡ some w)
unfolding first_window
first_window_total zero xs h = ([], refl)
first_window_total (suc n) [] h = absurd (omega arith)
first_window_total (suc n) (x ∷ xs) h =
    let (w, e) = first_window_total n xs (omega arith) in (x ∷ w, rw e)

-- Where the needle is found, the haystack splits round it.
pub find_subslice_sound :
    (xs needle : List ℕ) (p : ℕ)
    → find_subslice xs needle ≡ some p
    → (b : List ℕ) × (r : List ℕ) × (length b ≡ p) × (xs ≡ b ++ (needle ++ r))
unfolding find_subslice
find_subslice_sound [] needle p h = cc
find_subslice_sound (x ∷ xs) needle p h =
    elim (Option-cases (first_window (length needle) (x ∷ xs))) [
      | inl e ↦ absurd (ground arith)
      | inr (w, e) ↦ elim (Bool-cases (bytes_eq w needle)) [
        | inl same ↦
            let (r, split) = first_window_eq (length needle) (x ∷ xs) w e in
            ([], r, ground arith, rw (← bytes_eq-eq w needle same) split)
        | inr other ↦
            let later : Option.map suc (find_subslice xs needle) ≡ some p = ground arith in
            let (q, found, next) = (Option.map-eq-some_iff suc (find_subslice xs needle)).0 later in
            let (b, r, size, split) = find_subslice_sound xs needle q found in
            (x ∷ b, r, omega arith, ap (◌∷◌ x) split)
      ]
    ]

find_subslice_here :
    (needle r : List ℕ) → 0 < length needle → find_subslice (needle ++ r) needle ≡ some 0
unfolding find_subslice
find_subslice_here [] r pos = absurd (omega arith)
find_subslice_here (n ∷ needle) r pos = ground (
  arith,
  first_window-append (length (n ∷ needle)) (n ∷ needle) r refl,
  bytes_eq_refl (n ∷ needle),
)

-- The place of the first occurrence does not depend on what follows the occurrence.
pub find_subslice_stable :
    (b needle r s : List ℕ)
    → 0 < length needle
    → find_subslice (b ++ (needle ++ r)) needle ≡ some (length b)
    → find_subslice (b ++ (needle ++ s)) needle ≡ some (length b)
unfolding find_subslice
find_subslice_stable [] [] r s pos h = absurd (omega arith)
find_subslice_stable [] (n ∷ needle) r s pos h = find_subslice_here (n ∷ needle) s pos
find_subslice_stable (x ∷ b) needle r s pos h = ground (
  arith,
  find_subslice_stable b needle r s pos,
  first_window_stable (length needle) (x ∷ b) needle r s (omega arith),
)

-- Of a needle that is not empty, an occurrence behind `b` is found, or one before it.
find_subslice_complete :
    (b needle r : List ℕ)
    → 0 < length needle
    → (p : ℕ) × (find_subslice (b ++ (needle ++ r)) needle ≡ some p) × (p ≤ length b)
unfolding find_subslice
find_subslice_complete [] [] r pos = absurd (omega arith)
find_subslice_complete [] (n ∷ needle) r pos =
    (0, find_subslice_here (n ∷ needle) r pos, omega arith)
find_subslice_complete (x ∷ b) needle r pos =
    let (p, later, bound) = find_subslice_complete b needle r pos in
    let (w, here) =
      first_window_total (length needle) (x ∷ (b ++ (needle ++ r)))
        (omega (arith, length-append b (needle ++ r), length-append needle r)) in
    elim (Bool-cases (bytes_eq w needle)) [
      | inl same ↦ (0, ground arith, omega arith)
      | inr other ↦ (suc p, ground arith, omega arith)
    ]
