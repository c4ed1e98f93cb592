-- ===== src/Ws/Credentials.antt =====
-- What the password checks of auth.rs and ws.rs come to, in terms of Argon2 and the tables.
use visuara.Prelude.{
  ◌≡◌, refl, ap, ◌∙◌, true, List, [], ◌∷◌, map, some, String, str_eq, eq_iff, Bool-cases,
  Option-cases, inl, inr, if◌then◌else◌, arith, update,
}
use visuara.Protocol.{DeviceId, ConnectCredential, one_time_password, unattended_password}
use visuara.Auth.{Argon, verify_password}
use visuara.Db.{DeviceRow, Tables, map_device_row, set_password_rows}
use visuara.State.{Map}
use visuara.Ws.{credential_ok}

-- Argon2 verifies a password against a text, which is one of its hashes.
abbrev pub Verifies : Argon → String → String → Type 0
Verifies argon pw hash = (argon.is_hash hash ≡ true) × (argon.verify pw hash ≡ true)

pub verify_password-Verifies :
    (argon : Argon) (pw hash : String)
    → verify_password argon pw hash ≡ true
    → Verifies argon pw hash
unfolding verify_password
verify_password-Verifies argon pw hash e = elim (Bool-cases (argon.is_hash hash)) [
  | inl parses ↦ (parses, ground arith)
  | inr malformed ↦ absurd (ground arith)
]

-- A credential is the current one-time password of the device, or Argon2 verifies it against the hash of
-- the device's own password; a device without the one or the other is opened by none of its kind.
abbrev pub Unlocks : Argon → Map String → DeviceId → DeviceRow → ConnectCredential → Type 0
Unlocks argon otp target row (one_time_password given) = otp target ≡ some given
Unlocks argon otp target row (unattended_password pw) =
    (hash : String) × (row.unattended_password_hash ≡ some hash) × Verifies argon pw hash

pub credential_ok-Unlocks :
    (argon : Argon) (otp : Map String) (target : DeviceId) (row : DeviceRow)
    (credential : ConnectCredential)
    → credential_ok argon otp target (map_device_row row) credential ≡ true
    → Unlocks argon otp target row credential
unfolding credential_ok map_device_row
credential_ok-Unlocks argon otp target row (one_time_password given) e =
    elim (Option-cases (otp target)) [
      | inl nothing ↦ absurd (ground arith)
      | inr (current, known) ↦ known ∙ ap some ((eq_iff current given).0 (ground arith))
    ]
credential_ok-Unlocks argon otp target row (unattended_password pw) e =
    elim (Option-cases row.unattended_password_hash) [
      | inl nothing ↦ absurd (ground arith)
      | inr (hash, known) ↦ (hash, known, verify_password-Verifies argon pw hash (ground arith))
    ]

-- The rows with a new password for one device.
abbrev pub with_password : DeviceId → String → Tables → Tables
with_password target hash t = record t {
  devices =
      map (λ d. if str_eq d.id target then record d { unattended_password_hash = some hash } else d)
        t.devices;
}

pub set_password_rows-with_password :
    (target : DeviceId) (hash : String) (t : Tables)
    → set_password_rows target hash t ≡ with_password target hash t
unfolding set_password_rows update
set_password_rows-with_password target hash t =
    ap (λ ds. record t { devices = ds }) (rows t.devices)
  where
    rows :
        (ds : List DeviceRow)
        → update
            (λ d. str_eq d.id target)
            (λ d. record d { unattended_password_hash = some hash })
            ds
          ≡ map
              (λ d.
                if str_eq d.id target then record d { unattended_password_hash = some hash } else d)
              ds
    rows [] = refl
    rows (d ∷ ds) = ground (arith, rows ds)
