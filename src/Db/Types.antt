-- ===== src/Db/Types.antt =====
-- visuara-signaling/src/db.rs: roles, rows, tables, and how a statement runs.
-- A connection is the four tables with the environment's choices: the time that `strftime('%s',
-- 'now')` reads, whether the SQLite build enforces foreign keys (the source leaves its default), and
-- for each coming call whether it fails for a reason outside the model (disk, lock, a panicked
-- task). An empty schedule means that no call fails so. Row ids stay below 2 ^ 63.
use visuara.Prelude.{
  ℕ, ◌≡◌, ◌⊎◌, inl, inr, refl, Bool, false, List, [], ◌∷◌, Option, String, str_eq, if◌then◌else◌,
}

pub data AccountRole : Type 0 where
  user admin : AccountRole

unfoldable pub as_str : AccountRole → String
as_str user = "user"
as_str admin = "admin"

unfoldable pub from_column : String → AccountRole
from_column s = if str_eq s "admin" then admin else user

-- The column `role` is a text; the code reads it by `from_column`.
pub record AccountRow : Type 0 where
  pub id : ℕ
  pub email : String
  pub password_hash : String
  pub created_at : ℕ
  pub role : String

pub record DeviceRow : Type 0 where
  pub id : String
  pub account_id : ℕ
  pub name : String
  pub unattended_password_hash : Option String

pub record SessionRow : Type 0 where
  pub token : String
  pub account_id : ℕ

-- What the code returns for a row.
pub record Account : Type 0 where
  pub id : ℕ
  pub email : String
  pub password_hash : String
  pub role : AccountRole

pub record Device : Type 0 where
  pub id : String
  pub account_id : ℕ
  pub name : String
  pub unattended_password_hash : Option String

pub record AccountSummary : Type 0 where
  pub id : ℕ
  pub email : String
  pub created_at : ℕ
  pub role : AccountRole

unfoldable pub map_account_row : AccountRow → Account
map_account_row row = record {
  id = row.id;
  email = row.email;
  password_hash = row.password_hash;
  role = from_column row.role;
}

unfoldable pub map_device_row : DeviceRow → Device
map_device_row row = record {
  id = row.id;
  account_id = row.account_id;
  name = row.name;
  unattended_password_hash = row.unattended_password_hash;
}

-- `last_id` is the largest row id that `accounts` ever had (AUTOINCREMENT).
pub record Tables : Type 0 where
  pub accounts : List AccountRow
  pub devices : List DeviceRow
  pub settings : String → Option String
  pub sessions : List SessionRow
  pub last_id : ℕ

pub data DbError : Type 0 where
  unique_violation foreign_key_violation fault : DbError

pub data Result {ℓ} (A : Type ℓ) : Type ℓ where
  ok : A → Result A
  err : DbError → Result A

pub record Db : Type 0 where
  pub tables : Tables
  pub now : ℕ
  pub foreign_keys : Bool
  pub faults : List Bool

abbrev pub M {ℓ} : Type ℓ → Type ℓ
M A = Db → Result A × Db

abbrev pub pure {ℓ} : {A : Type ℓ} → A → M A
pure a db = (ok a, db)

pub Result-cases {ℓ} :
    {A : Type ℓ} (r : Result A) → ((a : A) × (r ≡ ok a)) ⊎ ((e : DbError) × (r ≡ err e))
Result-cases (ok a) = inl (a, refl)
Result-cases (err e) = inr (e, refl)

infixl 5 ◌>>=◌ ◌>>◌
abbrev pub ◌>>=◌ {ℓ κ} : {A : Type ℓ} {B : Type κ} → M A → (A → M B) → M B
◌>>=◌ m f db = let (r, db') = m db in elim r [ ok a ↦ f a db' | err e ↦ (err e, db') ]

abbrev pub ◌>>◌ {ℓ} : {B : Type ℓ} → M (Unit {0}) → M B → M B
m >> k = m >>= λ _. k

-- The rest of the schedule after one call, and whether that call fails.
abbrev pub next_faults : List Bool → List Bool
next_faults [] = []
next_faults (f ∷ fs) = fs

abbrev pub fails : List Bool → Bool
fails [] = false
fails (f ∷ fs) = f

-- One call: it takes the lock and runs its statements in one go, or fails and changes nothing.
unfoldable pub locked {ℓ} : {A : Type ℓ} → (Db → Result A × Tables) → M A
locked run db =
    if fails db.faults
    then (err fault, record db { faults = next_faults db.faults })
    else let (r, t) = run db in (r, record db { tables = t; faults = next_faults db.faults })

-- A call that only reads.
unfoldable pub reads {ℓ} : {A : Type ℓ} → (Tables → A) → M A
reads f = locked (λ db. (ok (f db.tables), db.tables))

-- A call that writes, and returns nothing.
unfoldable pub writes : (Tables → Tables) → M (Unit {0})
writes f = locked (λ db. (ok tt, f db.tables))
