-- ===== src/Db/Calls.antt =====
-- The operations of db.rs that write, as one type of calls, and what a call can do to the tables.
use visuara.Prelude.{
  ℕ, ◌≡◌, ◌≢◌, inl, inr, Bool, false, List, [], ◌∷◌, String, str_eq, eq_iff, All, any, Bool-cases,
  arith,
}
use visuara.Db.{
  AccountRole, Tables, Db, M, ok, locked, set_setting, set_registration_enabled, create_account,
  set_account_role, delete_account, create_session, delete_session, create_device,
  set_unattended_password_hash, delete_device, ◌>>=◌, pure, Result, fails, writes,
}

-- The operations that write.
pub data Call : Type 0 where
  setting : String → String → Call
  registration : Bool → Call
  new_user : String → String → AccountRole → Call
  role : ℕ → AccountRole → Call
  drop_account : ℕ → Call
  login : String → ℕ → Call
  logout : String → Call
  device : String → ℕ → String → Call
  password : String → String → Call
  drop_device : String → Call

unfoldable pub perform : Call → M (Unit {0})
perform (setting key value) = set_setting key value
perform (registration enabled) = set_registration_enabled enabled
perform (new_user email hash r) = create_account email hash r >>= λ id. pure tt
perform (role account_id r) = set_account_role account_id r
perform (drop_account account_id) = delete_account account_id
perform (login token account_id) = create_session token account_id
perform (logout token) = delete_session token
perform (device device_id account_id name) = create_device device_id account_id name
perform (password device_id hash) = set_unattended_password_hash device_id hash
perform (drop_device device_id) = delete_device device_id

-- No row has the key that a failed test looked for.
pub any-false-All {ℓ} :
    {A : Type ℓ} (key : A → String) (k : String) (xs : List A)
    → any (λ x. str_eq (key x) k) xs ≡ false
    → All (λ x. key x ≢ k) xs
unfolding any
any-false-All key k [] h = tt
any-false-All key k (x ∷ xs) h = elim (Bool-cases (str_eq (key x) k)) [
  | inl same ↦ absurd (ground arith)
  | inr other ↦ (λ e. ground (arith, eq_iff (key x) k), any-false-All key k xs (ground arith))
]

-- A call leaves the tables alone or makes them what its statements make them.
pub locked_keeps {ℓ κ} :
    {A : Type ℓ} (P : Tables → Type κ) (run : Db → Result A × Tables) (db : Db)
    → P db.tables
    → P (run db).1
    → P (locked run db).1.tables
unfolding locked
locked_keeps P run db before after = elim (Bool-cases (fails db.faults)) [
  | inl failed ↦ rw (failed, locked) before
  | inr fine ↦ rw (fine, locked) after
]

pub writes_keeps {κ} :
    (P : Tables → Type κ) (f : Tables → Tables) (db : Db)
    → P db.tables
    → P (f db.tables)
    → P (writes f db).1.tables
unfolding writes
writes_keeps P f db before after = locked_keeps P (λ d. (ok tt, f d.tables)) db before after

-- A result that is dropped changes no table.
pub tables-dropped {ℓ} :
    {A : Type ℓ} (m : M A) (db : Db)
    → ((m >>= λ a. pure {A = Unit {0}} tt) db).1.tables ≡ (m db).1.tables
tables-dropped m db = ground arith
