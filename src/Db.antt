-- ===== src/Db.antt =====
-- visuara-signaling/src/db.rs: the operations on the four tables. `*_rows` are the statements, as
-- functions on the tables; an operation runs one of them under the lock.
mod Types
pub mod Calls
pub mod Keys
pub mod References
pub mod Sessions
pub mod Listing
pub mod Admins
mod Tests
unfoldable pub use Types.*
use visuara.Prelude.{
  ℕ, suc, ◌+◌, ◌≡◌, Bool, true, false, not, ◌&&◌, List, [], ◌∷◌, ◌++◌, map, Option, none, some,
  String, str_eq, if◌then◌else◌, ◌==◌, leb, length, filter, find?, count, any, update, unwrap_or,
}
use mathlib.Core.Option

unfoldable pub get_setting : String → M (Option String)
get_setting key = reads (λ t. t.settings key)

-- INSERT … ON CONFLICT(key) DO UPDATE
unfoldable pub set_setting_rows : String → String → Tables → Tables
set_setting_rows key value t = record t {
  settings = λ k. if str_eq key k then some value else t.settings k;
}

unfoldable pub set_setting : String → String → M (Unit {0})
set_setting key value = writes (set_setting_rows key value)

unfoldable pub registration_enabled : M Bool
registration_enabled = do
  v ← get_setting "registration_enabled"
  pure (unwrap_or (Option.map (λ s. str_eq s "true") v) true)

unfoldable pub set_registration_enabled : Bool → M (Unit {0})
set_registration_enabled enabled =
    set_setting "registration_enabled" (if enabled then "true" else "false")

-- WHERE role = 'admin'
abbrev pub is_admin_row : AccountRow → Bool
is_admin_row row = str_eq row.role "admin"

unfoldable pub count_admins : M ℕ
count_admins = reads (λ t. count is_admin_row t.accounts)

unfoldable pub count_accounts : M ℕ
count_accounts = reads (λ t. length t.accounts)

abbrev pub new_account : Db → String → String → AccountRole → AccountRow
new_account db email password_hash role = record {
  id = suc db.tables.last_id;
  email = email;
  password_hash = password_hash;
  created_at = db.now;
  role = as_str role;
}

-- `email` is UNIQUE; the new row's id is the next of the AUTOINCREMENT sequence.
unfoldable pub insert_account : String → String → AccountRole → Db → Result ℕ × Tables
insert_account email password_hash role db =
    let t = db.tables in
    if any (λ r. str_eq r.email email) t.accounts then (err unique_violation, t) else (
      ok (suc t.last_id),
      record t {
        accounts = t.accounts ++ new_account db email password_hash role ∷ [];
        last_id = suc t.last_id;
      },
    )

unfoldable pub create_account : String → String → AccountRole → M ℕ
create_account email password_hash role = locked (insert_account email password_hash role)

unfoldable pub find_account_by_email : String → M (Option Account)
find_account_by_email email =
    reads (λ t. Option.map map_account_row (find? (λ r. str_eq r.email email) t.accounts))

unfoldable pub find_account_by_id : ℕ → M (Option Account)
find_account_by_id account_id =
    reads (λ t. Option.map map_account_row (find? (λ r. r.id == account_id) t.accounts))

unfoldable pub set_role_rows : ℕ → AccountRole → Tables → Tables
set_role_rows account_id role t = record t {
  accounts = update (λ r. r.id == account_id) (λ r. record r { role = as_str role }) t.accounts;
}

unfoldable pub set_account_role : ℕ → AccountRole → M (Unit {0})
set_account_role account_id role = writes (set_role_rows account_id role)

-- The three DELETE statements of one transaction, committed together.
unfoldable pub delete_account_rows : ℕ → Tables → Tables
delete_account_rows account_id t = record t {
  sessions = filter (λ s. not (s.account_id == account_id)) t.sessions;
  devices = filter (λ d. not (d.account_id == account_id)) t.devices;
  accounts = filter (λ r. not (r.id == account_id)) t.accounts;
}

unfoldable pub delete_account : ℕ → M (Unit {0})
delete_account account_id = writes (delete_account_rows account_id)

-- `account_id REFERENCES accounts(id)`
abbrev pub refers : Db → ℕ → Bool
refers db account_id =
    if db.foreign_keys then any (λ r. r.id == account_id) db.tables.accounts else true

-- `token` is the primary key.
unfoldable pub insert_session : String → ℕ → Db → Result (Unit {0}) × Tables
insert_session token account_id db =
    let t = db.tables in
    if any (λ s. str_eq s.token token) t.sessions
    then (err unique_violation, t)
    else if refers db account_id
    then (
      ok tt,
      record t { sessions = t.sessions ++ record { token = token; account_id = account_id } ∷ [] },
    )
    else (err foreign_key_violation, t)

unfoldable pub create_session : String → ℕ → M (Unit {0})
create_session token account_id = locked (insert_session token account_id)

-- sessions JOIN accounts ON a.id = s.account_id WHERE s.token = ?; both keys are unique.
unfoldable pub session_account : String → Tables → Option Account
session_account token t = elim (find? (λ s. str_eq s.token token) t.sessions) [
  | none ↦ none
  | some s ↦ Option.map map_account_row (find? (λ r. r.id == s.account_id) t.accounts)
]

unfoldable pub find_session : String → M (Option Account)
find_session token = reads (session_account token)

unfoldable pub delete_session_rows : String → Tables → Tables
delete_session_rows token t = record t {
  sessions = filter (λ s. not (str_eq s.token token)) t.sessions;
}

unfoldable pub delete_session : String → M (Unit {0})
delete_session token = writes (delete_session_rows token)

abbrev pub new_device : String → ℕ → String → DeviceRow
new_device device_id account_id name = record {
  id = device_id;
  account_id = account_id;
  name = name;
  unattended_password_hash = none;
}

-- `id` is the primary key.
unfoldable pub insert_device : String → ℕ → String → Db → Result (Unit {0}) × Tables
insert_device device_id account_id name db =
    let t = db.tables in
    if any (λ d. str_eq d.id device_id) t.devices
    then (err unique_violation, t)
    else if refers db account_id
    then (ok tt, record t { devices = t.devices ++ new_device device_id account_id name ∷ [] })
    else (err foreign_key_violation, t)

unfoldable pub create_device : String → ℕ → String → M (Unit {0})
create_device device_id account_id name = locked (insert_device device_id account_id name)

unfoldable pub find_device : String → M (Option Device)
find_device device_id =
    reads (λ t. Option.map map_device_row (find? (λ d. str_eq d.id device_id) t.devices))

unfoldable pub list_devices_for_account : ℕ → M (List Device)
list_devices_for_account account_id =
    reads (λ t. map map_device_row (filter (λ d. d.account_id == account_id) t.devices))

unfoldable pub set_password_rows : String → String → Tables → Tables
set_password_rows device_id hash t = record t {
  devices =
      update (λ d. str_eq d.id device_id) (λ d. record d { unattended_password_hash = some hash })
        t.devices;
}

unfoldable pub set_unattended_password_hash : String → String → M (Unit {0})
set_unattended_password_hash device_id hash = writes (set_password_rows device_id hash)

-- ORDER BY created_at, rows of one second in the order of their ids.
unfoldable pub insert_by_created_at : AccountSummary → List AccountSummary → List AccountSummary
insert_by_created_at a [] = a ∷ []
insert_by_created_at a (b ∷ bs) =
    if leb a.created_at b.created_at then a ∷ (b ∷ bs) else b ∷ insert_by_created_at a bs

unfoldable pub order_by_created_at : List AccountRow → List AccountSummary
order_by_created_at [] = []
order_by_created_at (r ∷ rs) =
    insert_by_created_at
      (record { id = r.id; email = r.email; created_at = r.created_at; role = from_column r.role })
      (order_by_created_at rs)

unfoldable pub list_all_accounts : M (List AccountSummary)
list_all_accounts = reads (λ t. order_by_created_at t.accounts)

unfoldable pub delete_device_rows : String → Tables → Tables
delete_device_rows device_id t = record t {
  devices = filter (λ d. not (str_eq d.id device_id)) t.devices;
}

unfoldable pub delete_device : String → M (Unit {0})
delete_device device_id = writes (delete_device_rows device_id)
