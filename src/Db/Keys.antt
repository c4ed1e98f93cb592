-- ===== src/Db/Keys.antt =====
-- What every operation of db.rs that writes keeps true of the tables' keys.
use visuara.Prelude.{
  ℕ, suc, ◌≤◌, ◌≢◌, refl, sym, subst, inl, inr, List, [], ◌∷◌, String, str_eq, if◌then◌else◌, All,
  All-concat, Distinct, Distinct-concat, Distinct-filter, Distinct-update, All-filter, All-update,
  any, Bool-cases, arith,
}
use visuara.Db.Calls.{
  Call, setting, registration, new_user, role, drop_account, login, logout, device, password,
  drop_device, perform, any-false-All, locked_keeps, writes_keeps, tables-dropped,
}
use visuara.Db.{
  AccountRole, AccountRow, Tables, Db, set_setting, set_registration_enabled, create_account,
  insert_account, set_account_role, set_role_rows, delete_account, delete_account_rows,
  create_session, insert_session, delete_session, delete_session_rows, create_device, insert_device,
  set_unattended_password_hash, set_password_rows, delete_device, delete_device_rows, refers,
  set_setting_rows,
}

-- The primary keys and the UNIQUE column, and the AUTOINCREMENT sequence.
pub record IsKeyed (t : Tables) : Type 0 where
  pub ids : Distinct (λ r. r.id) t.accounts
  pub emails : Distinct (λ r. r.email) t.accounts
  pub below : All (λ r. r.id ≤ t.last_id) t.accounts
  pub devices : Distinct (λ d. d.id) t.devices
  pub tokens : Distinct (λ s. s.token) t.sessions

fresh_id : (xs : List AccountRow) (n : ℕ) → All (λ r. r.id ≤ n) xs → All (λ r. r.id ≢ suc n) xs
fresh_id [] n h = tt
fresh_id (x ∷ xs) n (h, hs) = (λ e. omega arith, fresh_id xs n hs)

raise_bound : (xs : List AccountRow) (n : ℕ) → All (λ r. r.id ≤ n) xs → All (λ r. r.id ≤ suc n) xs
raise_bound [] n h = tt
raise_bound (x ∷ xs) n (h, hs) = (omega arith, raise_bound xs n hs)

pub insert_account-IsKeyed :
    (email hash : String) (r : AccountRole) (db : Db)
    → IsKeyed db.tables
    → IsKeyed (insert_account email hash r db).1
unfolding insert_account
insert_account-IsKeyed email hash r db v =
    elim (Bool-cases (any (λ a. str_eq a.email email) db.tables.accounts)) [
      | inl taken ↦ rw (taken, insert_account) v
      | inr free ↦
          rw (free, insert_account)
            (record {
              ids = Distinct-concat (λ a. a.id) _ _ v.ids (fresh_id _ _ v.below);
              emails =
                  Distinct-concat (λ a. a.email) _ _ v.emails
                    (any-false-All (λ a. a.email) email _ free);
              below =
                  All-concat (λ a. a.id ≤ suc db.tables.last_id) _ _ (raise_bound _ _ v.below)
                    (omega arith);
              devices = v.devices;
              tokens = v.tokens;
            })
    ]

pub insert_session-IsKeyed :
    (token : String) (account_id : ℕ) (db : Db)
    → IsKeyed db.tables
    → IsKeyed (insert_session token account_id db).1
unfolding insert_session
insert_session-IsKeyed token account_id db v =
    elim (Bool-cases (any (λ s. str_eq s.token token) db.tables.sessions)) [
      | inl taken ↦ rw (taken, insert_session) v
      | inr free ↦ elim (Bool-cases (refers db account_id)) [
        | inl known ↦
            rw (free, known, insert_session)
              (record {
                ids = v.ids;
                emails = v.emails;
                below = v.below;
                devices = v.devices;
                tokens =
                    Distinct-concat (λ s. s.token) _ _ v.tokens
                      (any-false-All (λ s. s.token) token _ free);
              })
        | inr unknown ↦ rw (free, unknown, insert_session) v
      ]
    ]

insert_device-IsKeyed :
    (device_id : String) (account_id : ℕ) (name : String) (db : Db)
    → IsKeyed db.tables
    → IsKeyed (insert_device device_id account_id name db).1
unfolding insert_device
insert_device-IsKeyed device_id account_id name db v =
    elim (Bool-cases (any (λ d. str_eq d.id device_id) db.tables.devices)) [
      | inl taken ↦ rw (taken, insert_device) v
      | inr free ↦ elim (Bool-cases (refers db account_id)) [
        | inl known ↦
            rw (free, known, insert_device)
              (record {
                ids = v.ids;
                emails = v.emails;
                below = v.below;
                devices =
                    Distinct-concat (λ d. d.id) _ _ v.devices
                      (any-false-All (λ d. d.id) device_id _ free);
                tokens = v.tokens;
              })
        | inr unknown ↦ rw (free, unknown, insert_device) v
      ]
    ]

pub set_role_rows-IsKeyed :
    (account_id : ℕ) (r : AccountRole) (t : Tables)
    → IsKeyed t
    → IsKeyed (set_role_rows account_id r t)
unfolding set_role_rows
set_role_rows-IsKeyed account_id r t v = record {
  ids = Distinct-update (λ a. a.id) _ _ t.accounts (λ a. refl) v.ids;
  emails = Distinct-update (λ a. a.email) _ _ t.accounts (λ a. refl) v.emails;
  below = All-update (λ a. a.id ≤ t.last_id) _ _ t.accounts (λ a h. h) v.below;
  devices = v.devices;
  tokens = v.tokens;
}

pub delete_account_rows-IsKeyed :
    (account_id : ℕ) (t : Tables) → IsKeyed t → IsKeyed (delete_account_rows account_id t)
unfolding delete_account_rows
delete_account_rows-IsKeyed account_id t v = record {
  ids = Distinct-filter (λ a. a.id) _ t.accounts v.ids;
  emails = Distinct-filter (λ a. a.email) _ t.accounts v.emails;
  below = All-filter (λ a. a.id ≤ t.last_id) _ t.accounts v.below;
  devices = Distinct-filter (λ d. d.id) _ t.devices v.devices;
  tokens = Distinct-filter (λ s. s.token) _ t.sessions v.tokens;
}

pub set_setting-IsKeyed :
    (key value : String) (db : Db) → IsKeyed db.tables → IsKeyed (set_setting key value db).1.tables
unfolding set_setting set_setting_rows
set_setting-IsKeyed key value db v =
    writes_keeps IsKeyed (set_setting_rows key value) db v (record {
      ids = v.ids;
      emails = v.emails;
      below = v.below;
      devices = v.devices;
      tokens = v.tokens;
    })

pub delete_session_rows-IsKeyed :
    (token : String) (t : Tables) → IsKeyed t → IsKeyed (delete_session_rows token t)
unfolding delete_session_rows
delete_session_rows-IsKeyed token t v = record {
  ids = v.ids;
  emails = v.emails;
  below = v.below;
  devices = v.devices;
  tokens = Distinct-filter (λ s. s.token) _ t.sessions v.tokens;
}

set_password_rows-IsKeyed :
    (device_id hash : String) (t : Tables)
    → IsKeyed t
    → IsKeyed (set_password_rows device_id hash t)
unfolding set_password_rows
set_password_rows-IsKeyed device_id hash t v = record {
  ids = v.ids;
  emails = v.emails;
  below = v.below;
  devices = Distinct-update (λ d. d.id) _ _ t.devices (λ d. refl) v.devices;
  tokens = v.tokens;
}

pub delete_device_rows-IsKeyed :
    (device_id : String) (t : Tables) → IsKeyed t → IsKeyed (delete_device_rows device_id t)
unfolding delete_device_rows
delete_device_rows-IsKeyed device_id t v = record {
  ids = v.ids;
  emails = v.emails;
  below = v.below;
  devices = Distinct-filter (λ d. d.id) _ t.devices v.devices;
  tokens = v.tokens;
}

-- Every operation that writes, failing or not, keeps all keys distinct: the row ids and emails of
-- accounts, the ids of devices, the tokens of sessions; and keeps row ids within the sequence.
pub perform-IsKeyed : (c : Call) (db : Db) → IsKeyed db.tables → IsKeyed (perform c db).1.tables
unfolding perform set_registration_enabled create_account set_account_role delete_account
    create_session delete_session create_device set_unattended_password_hash delete_device
perform-IsKeyed (setting key value) db v = set_setting-IsKeyed key value db v
perform-IsKeyed (registration enabled) db v =
    set_setting-IsKeyed "registration_enabled" (if enabled then "true" else "false") db v
perform-IsKeyed (new_user email hash r) db v =
    subst IsKeyed (sym (tables-dropped (create_account email hash r) db)) (
      locked_keeps IsKeyed (insert_account email hash r) db v
        (insert_account-IsKeyed email hash r db v))
perform-IsKeyed (role account_id r) db v =
    writes_keeps IsKeyed (set_role_rows account_id r) db v
      (set_role_rows-IsKeyed account_id r db.tables v)
perform-IsKeyed (drop_account account_id) db v =
    writes_keeps IsKeyed (delete_account_rows account_id) db v
      (delete_account_rows-IsKeyed account_id db.tables v)
perform-IsKeyed (login token account_id) db v =
    locked_keeps IsKeyed (insert_session token account_id) db v
      (insert_session-IsKeyed token account_id db v)
perform-IsKeyed (logout token) db v =
    writes_keeps IsKeyed (delete_session_rows token) db v
      (delete_session_rows-IsKeyed token db.tables v)
perform-IsKeyed (device device_id account_id name) db v =
    locked_keeps IsKeyed (insert_device device_id account_id name) db v
      (insert_device-IsKeyed device_id account_id name db v)
perform-IsKeyed (password device_id hash) db v =
    writes_keeps IsKeyed (set_password_rows device_id hash) db v
      (set_password_rows-IsKeyed device_id hash db.tables v)
perform-IsKeyed (drop_device device_id) db v =
    writes_keeps IsKeyed (delete_device_rows device_id) db v
      (delete_device_rows-IsKeyed device_id db.tables v)
