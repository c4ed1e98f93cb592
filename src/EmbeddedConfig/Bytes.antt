-- ===== src/EmbeddedConfig/Bytes.antt =====
-- Searching and copying bytes: `find_subslice` and the slice operations that embedded_config.rs
-- uses.
use mathlib.Core.Option
use mathlib.Core.List.{append_assoc}
use visuara.Prelude.{
  ℕ, zero, suc, ◌+◌, ◌≢◌, All, length-take, length-drop, length-replicate, take-append_length,
  drop-append_add, ◌≤◌, ◌≡◌, refl, Bool, true, false, ◌&&◌, List, [], ◌∷◌, ◌++◌, Option, none, some,
  length, take, drop, replicate, ◌==◌, if◌then◌else◌, arith, length-append,
}

unfoldable pub bytes_eq : List ℕ → List ℕ → Bool
bytes_eq [] [] = true
bytes_eq (x ∷ xs) (y ∷ ys) = x == y && bytes_eq xs ys
bytes_eq _ _ = false

-- The window of `n` bytes at the front, where there is one.
unfoldable pub first_window : ℕ → List ℕ → Option (List ℕ)
first_window zero xs = some []
first_window (suc n) [] = none
first_window (suc n) (x ∷ xs) = Option.map (λ w. x ∷ w) (first_window n xs)

-- `haystack.windows(needle.len()).position(|w| w == needle)`, for a needle that is not empty.
unfoldable pub find_subslice : List ℕ → List ℕ → Option ℕ
unfolding bytes_eq first_window
find_subslice [] needle = none
find_subslice (x ∷ xs) needle = elim (first_window (length needle) (x ∷ xs)) [
  | none ↦ none
  | some w ↦ elim (bytes_eq w needle) [
    | true ↦ some 0
    | false ↦ Option.map suc (find_subslice xs needle)
  ]
]

-- `[0u8; n]`
unfoldable pub zeroed : ℕ → List ℕ
zeroed n = replicate n 0

-- `buf[start..start + src.len()].copy_from_slice(src)`, within bounds.
unfoldable pub copy_into : List ℕ → ℕ → List ℕ → List ℕ
copy_into buf start src = take start buf ++ (src ++ drop (start + length src) buf)

-- The bytes before the first NUL: `&bytes[..bytes.iter().position(|&b| b == 0).unwrap_or(len)]`.
unfoldable pub before_nul : List ℕ → List ℕ
before_nul [] = []
before_nul (b ∷ bs) = if b == 0 then [] else b ∷ before_nul bs

-- Padding with NUL bytes after text that has none is undone by `before_nul`.
pub before_nul-append_zeroed :
    (xs : List ℕ) (n : ℕ) → All (λ b. b ≢ 0) xs → before_nul (xs ++ zeroed n) ≡ xs
unfolding before_nul zeroed
before_nul-append_zeroed [] zero h = refl
before_nul-append_zeroed [] (suc n) h = refl
before_nul-append_zeroed (x ∷ xs) n (h, hs) = ground (arith, before_nul-append_zeroed xs n hs)

pub drop-zeroed : (k n m : ℕ) → m + k ≡ n → drop k (zeroed n) ≡ zeroed m
unfolding zeroed
drop-zeroed zero n m h = let e : n ≡ m = omega arith in rw e
drop-zeroed (suc k) zero m h = absurd (omega arith)
drop-zeroed (suc k) (suc n) m h = drop-zeroed k n m (omega arith)

-- Overwriting the front of what follows `b ++ m`.
pub copy_into-append :
    (b m r src : List ℕ)
    → copy_into (b ++ (m ++ r)) (length b + length m) src ≡ b ++ (m ++ (src ++ drop (length src) r))
unfolding copy_into
copy_into-append b m r src = rw (← append_assoc b m r) (
    rw
      (
        take-append_length (length b + length m) (b ++ m) r (omega (arith, length-append b m)),
        drop-append_add (length b + length m) (length src) (b ++ m) r
            (omega (arith, length-append b m)),
      )
      (append_assoc b m _))

pub length-copy_into :
    (buf src : List ℕ) (start : ℕ)
    → start + length src ≤ length buf
    → length (copy_into buf start src) ≡ length buf
unfolding copy_into
length-copy_into buf src start h = omega (
  arith,
  length-append (take start buf) (src ++ drop (start + length src) buf),
  length-append src (drop (start + length src) buf),
  length-take start buf,
  length-drop (start + length src) buf,
)

pub length-zeroed : (n : ℕ) → length (zeroed n) ≡ n
unfolding zeroed
length-zeroed n = length-replicate n 0
