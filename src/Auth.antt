-- ===== src/Auth.antt =====
-- visuara-signaling/src/auth.rs: password hashes and generated identifiers. Argon2 is a parameter;
-- what the random generator draws is an argument.
use visuara.Prelude.{
  ℕ, ◌≡◌, Bool, true, false, Option, some, String, if◌then◌else◌, decimal_padded, ◌+s◌,
}

-- The Argon2 crate: a hash text for a salt and a password, or an error; which texts are hashes; and
-- the check of a password against a hash text. The code relies on a hash accepting its password.
pub record Argon : Type 0 where
  pub hash : String → String → Option String
  pub is_hash : String → Bool
  pub verify : String → String → Bool
  pub hash_parses : (salt pw h : String) → hash salt pw ≡ some h → is_hash h ≡ true
  pub hash_verifies : (salt pw h : String) → hash salt pw ≡ some h → verify pw h ≡ true

unfoldable pub hash_password : Argon → String → String → Option String
hash_password argon salt pw = argon.hash salt pw

unfoldable pub verify_password : Argon → String → String → Bool
verify_password argon pw hash = if argon.is_hash hash then argon.verify pw hash else false

-- Two draws below 10000.
unfoldable pub generate_one_time_password : ℕ → ℕ → String
generate_one_time_password a b = decimal_padded 4 a +s (" " +s decimal_padded 4 b)

-- Three draws below 1000.
unfoldable pub generate_device_id : ℕ → ℕ → ℕ → String
generate_device_id a b c =
    decimal_padded 3 a +s (" " +s (decimal_padded 3 b +s (" " +s decimal_padded 3 c)))
