-- ===== src/Downloads/Numbers.antt =====
-- `str::parse::<i64>`, and that it reads back what `to_string` writes.
use Prim.Native.Char.{Char, code}
use Prim.Native.String.{[], ◌∷◌}
use visuara.Prelude.{
  ℕ, zero, suc, ◌+◌, ◌-◌, ◌*◌, ◌/◌, ◌%◌, ◌^◌, ◌<◌, ◌≤◌, ◌≡◌, sym, subst, ap, ◌∙◌, Bool, ◌&&◌,
  Option, none, some, String, ◌+s◌, ◌==◌, leb, ltb, if◌then◌else◌, digit, decimal, decimal_from,
  arith, Bool-cases, inl, inr,
}
use text.Mathlib.TextLemmas.{cons-append, nil-append, append_assoc, append-nil}
use visuara.Control.{ℤ, pos, negsuc}

is_digit : Char → Bool
is_digit c = leb 48 (code c) && leb (code c) 57

read_digits : String → ℕ → Option ℕ
unfolding is_digit
read_digits [] acc = some acc
read_digits (c ∷ s) acc = if is_digit c then read_digits s (acc * 10 + (code c - 48)) else none

unsigned : String → Option ℕ
unsigned [] = none
unsigned (c ∷ s) = read_digits (c ∷ s) 0

positive : Option ℕ → Option ℤ
positive none = none
positive (some n) = if ltb n (2 ^ 63) then some (pos n) else none

minus : ℕ → ℤ
minus zero = pos 0
minus (suc n) = negsuc n

negative : Option ℕ → Option ℤ
negative none = none
negative (some n) = if leb n (2 ^ 63) then some (minus n) else none

-- A sign, if there is one, and at least one digit.
unfoldable pub parse_i64 : String → Option ℤ
unfolding unsigned read_digits positive negative minus
parse_i64 [] = none
parse_i64 (c ∷ s) =
    if code c == 45
    then negative (unsigned s)
    else if code c == 43
    then positive (unsigned s)
    else positive (unsigned (c ∷ s))

single : (c : Char) (t : String) → (c ∷ []) +s t ≡ c ∷ t
single c t = cons-append c [] t ∙ ap (◌∷◌ c) (nil-append t)

read_digit :
    (k acc : ℕ) (t : String)
    → k < 10
    → read_digits (digit k +s t) acc ≡ read_digits t (acc * 10 + k)
unfolding read_digits digit
read_digit zero acc t h = ap (λ s. read_digits s acc) (single "0" t)
read_digit (suc zero) acc t h = ap (λ s. read_digits s acc) (single "1" t)
read_digit (suc (suc zero)) acc t h = ap (λ s. read_digits s acc) (single "2" t)
read_digit (suc (suc (suc zero))) acc t h = ap (λ s. read_digits s acc) (single "3" t)
read_digit (suc (suc (suc (suc zero)))) acc t h = ap (λ s. read_digits s acc) (single "4" t)
read_digit (suc (suc (suc (suc (suc zero))))) acc t h = ap (λ s. read_digits s acc) (single "5" t)
read_digit (suc (suc (suc (suc (suc (suc zero)))))) acc t h =
    ap (λ s. read_digits s acc) (single "6" t)
read_digit (suc (suc (suc (suc (suc (suc (suc zero))))))) acc t h =
    ap (λ s. read_digits s acc) (single "7" t)
read_digit (suc (suc (suc (suc (suc (suc (suc (suc zero)))))))) acc t h =
    ap (λ s. read_digits s acc) (single "8" t)
read_digit (suc (suc (suc (suc (suc (suc (suc (suc (suc zero))))))))) acc t h =
    ap (λ s. read_digits s acc) (single "9" t)
read_digit (suc (suc (suc (suc (suc (suc (suc (suc (suc (suc k)))))))))) acc t h =
    absurd (omega arith)

read-decimal_from :
    (fuel n : ℕ) (t : String)
    → n ≤ fuel
    → read_digits (decimal_from fuel n +s t) 0 ≡ read_digits t n
unfolding decimal_from
read-decimal_from zero n t h = read_digit n 0 t (omega arith) ∙ ap (read_digits t) (omega arith)
read-decimal_from (suc fuel) n t h = elim (Bool-cases (ltb n 10)) [
  | inl small ↦
      rw (small, decimal_from) (read_digit n 0 t (ground arith) ∙ ap (read_digits t) (omega arith))
  | inr large ↦
      rw (large, decimal_from)
        (ap (λ s. read_digits s 0) (append_assoc (decimal_from fuel (n / 10)) (digit (n % 10)) t)
          ∙ read-decimal_from fuel (n / 10) (digit (n % 10) +s t) (ground arith)
          ∙ read_digit (n % 10) (n / 10) t (omega arith)
          ∙ ap (read_digits t) (omega arith))
]

abbrev StartsDigit : String → Type 0
StartsDigit [] = ⊥
StartsDigit (c ∷ s) = 48 ≤ code c

digit-StartsDigit : (k : ℕ) → StartsDigit (digit k)
unfolding digit
digit-StartsDigit zero = omega arith
digit-StartsDigit (suc zero) = omega arith
digit-StartsDigit (suc (suc zero)) = omega arith
digit-StartsDigit (suc (suc (suc zero))) = omega arith
digit-StartsDigit (suc (suc (suc (suc zero)))) = omega arith
digit-StartsDigit (suc (suc (suc (suc (suc zero))))) = omega arith
digit-StartsDigit (suc (suc (suc (suc (suc (suc zero)))))) = omega arith
digit-StartsDigit (suc (suc (suc (suc (suc (suc (suc zero))))))) = omega arith
digit-StartsDigit (suc (suc (suc (suc (suc (suc (suc (suc zero)))))))) = omega arith
digit-StartsDigit (suc (suc (suc (suc (suc (suc (suc (suc (suc k))))))))) = omega arith

append-StartsDigit : (a b : String) → StartsDigit a → StartsDigit (a +s b)
append-StartsDigit [] b h = absurd h
append-StartsDigit (c ∷ a) b h = subst StartsDigit (sym (cons-append c a b)) h

decimal_from-StartsDigit : (fuel n : ℕ) → StartsDigit (decimal_from fuel n)
unfolding decimal_from
decimal_from-StartsDigit zero n = digit-StartsDigit n
decimal_from-StartsDigit (suc fuel) n = elim (Bool-cases (ltb n 10)) [
  | inl small ↦ rw (small, decimal_from) (digit-StartsDigit n)
  | inr large ↦
      rw (large, decimal_from)
        (append-StartsDigit (decimal_from fuel (n / 10)) (digit (n % 10))
          (decimal_from-StartsDigit fuel (n / 10)))
]

parse_unsigned : (s : String) → StartsDigit s → parse_i64 s ≡ positive (read_digits s 0)
unfolding parse_i64 unsigned
parse_unsigned [] h = absurd h
parse_unsigned (c ∷ s) h = ground arith

-- What `to_string` makes of a number of seconds reads back.
pub parse_i64-decimal : (n : ℕ) → n < 2 ^ 63 → parse_i64 (decimal n) ≡ some (pos n)
unfolding decimal positive read_digits
parse_i64-decimal n h =
    parse_unsigned (decimal n) (decimal_from-StartsDigit n n)
    ∙ ap positive (
        ap (λ s. read_digits s 0) (sym (append-nil (decimal n)))
        ∙ read-decimal_from n n [] (omega arith))
    ∙ ground arith
