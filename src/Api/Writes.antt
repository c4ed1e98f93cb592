-- ===== src/Api/Writes.antt =====
-- The database calls that the handlers make, and what each leaves of the database.
use visuara.Prelude.{
  ℕ, ap, ◌⊎◌, ◌≡◌, ◌≢◌, subst, inl, inr, Bool, [], String, length, any, ◌==◌, str_eq, if◌then◌else◌,
  Bool-cases, arith,
}
use visuara.Db.{
  AccountRole, admin, Tables, Db, set_setting, set_setting_rows, set_registration_enabled,
  registration_enabled, get_setting, create_account, insert_account, create_session, insert_session,
  delete_session, delete_session_rows, delete_device, delete_device_rows,
}
use visuara.Db.Keys.{
  IsKeyed, insert_account-IsKeyed, insert_session-IsKeyed, delete_session_rows-IsKeyed,
  delete_device_rows-IsKeyed,
}
use visuara.Db.Admins.{HasAdmin, insert_account-HasAdmin}
use visuara.Session.{create_account_and_maybe_bootstrap_admin}
use visuara.Session.Bootstrap.{next_role, registered, closed_after_first, bootstrap_lem}
use visuara.Api.Keeps.{Kept}
use visuara.Api.Steady.{Steady, reads-Steady, writes-Steady, locked-Steady}

pub set_setting-Steady : (key value : String) → Kept Steady (set_setting key value)
unfolding set_setting set_setting_rows
set_setting-Steady key value db q =
    writes-Steady (set_setting_rows key value) db q
      (record {
        ids = q.keyed.ids;
        emails = q.keyed.emails;
        below = q.keyed.below;
        devices = q.keyed.devices;
        tokens = q.keyed.tokens;
      })
      q.has_admin

pub set_registration_enabled-Steady : (b : Bool) → Kept Steady (set_registration_enabled b)
unfolding set_registration_enabled
set_registration_enabled-Steady b =
    set_setting-Steady "registration_enabled" (if b then "true" else "false")

pub registration_enabled-Steady : Kept Steady registration_enabled
unfolding registration_enabled get_setting
registration_enabled-Steady db q =
    let same : (registration_enabled db).1 ≡ (get_setting "registration_enabled" db).1 =
      ground arith in
    rw same (reads-Steady (λ t. t.settings "registration_enabled") db q)

insert_session-accounts :
    (token : String) (k : ℕ) (db : Db) → (insert_session token k db).1.accounts ≡ db.tables.accounts
unfolding insert_session
insert_session-accounts token k db = ground arith

pub create_session-Steady : (token : String) (k : ℕ) → Kept Steady (create_session token k)
unfolding create_session
create_session-Steady token k db q =
    locked-Steady (insert_session token k) db q (insert_session-IsKeyed token k db q.keyed)
      (rw (insert_session-accounts token k db) q.has_admin)

pub delete_session-Steady : (token : String) → Kept Steady (delete_session token)
unfolding delete_session delete_session_rows
delete_session-Steady token db q =
    writes-Steady (delete_session_rows token) db q
      (delete_session_rows-IsKeyed token db.tables q.keyed) q.has_admin

pub delete_device-Steady : (device_id : String) → Kept Steady (delete_device device_id)
unfolding delete_device delete_device_rows
delete_device-Steady device_id db q =
    writes-Steady (delete_device_rows device_id) db q
      (delete_device_rows-IsKeyed device_id db.tables q.keyed) q.has_admin

pub create_account-Steady :
    (email hash : String) (r : AccountRole) (db : Db)
    → db.tables.accounts ≢ []
    → Steady db
    → Steady (create_account email hash r db).1
unfolding create_account
create_account-Steady email hash r db some_account q =
    locked-Steady (insert_account email hash r) db q
      (insert_account-IsKeyed email hash r db q.keyed)
      (insert_account-HasAdmin email hash r db q.has_admin (inr some_account))

-- The insertion for the next account, whose role the number of accounts decides.
next_role-why : (t : Tables) → (next_role t ≡ admin) ⊎ (t.accounts ≢ [])
next_role-why t = elim (Bool-cases (length t.accounts == 0)) [
  | inl first ↦ inl (rw (first, next_role))
  | inr later ↦ inr (λ e. absurd (ground (arith, ap (λ xs. length xs) e)))
]

-- Closing registration touches only the settings.
closed-Steady :
    (before t : Tables) (db : Db)
    → db.faults ≡ []
    → IsKeyed t
    → HasAdmin t
    → Steady (record db { tables = closed_after_first before t })
unfolding set_setting_rows
closed-Steady before t db fine keyed has = elim (Bool-cases (length before.accounts == 0)) [
  | inl first ↦
      rw (first, closed_after_first)
        (record {
          no_faults = fine;
          keyed = record {
            ids = keyed.ids;
            emails = keyed.emails;
            below = keyed.below;
            devices = keyed.devices;
            tokens = keyed.tokens;
          };
          has_admin = has;
        })
  | inr later ↦
      rw (later, closed_after_first) (record { no_faults = fine; keyed = keyed; has_admin = has })
]

pub bootstrap-Steady :
    (email hash : String) → Kept Steady (create_account_and_maybe_bootstrap_admin email hash)
unfolding insert_account
bootstrap-Steady email hash db q =
    elim (Bool-cases (any (λ r. str_eq r.email email) db.tables.accounts)) [
      | inl taken ↦ rw (bootstrap_lem email hash db q.no_faults, taken) q
      | inr free ↦
          let row : (insert_account email hash (next_role db.tables) db).1
              ≡ registered db email hash =
            rw (free, insert_account) in
          rw (bootstrap_lem email hash db q.no_faults, free)
            (closed-Steady db.tables (registered db email hash) db q.no_faults
              (subst IsKeyed row (insert_account-IsKeyed email hash _ db q.keyed))
              (subst HasAdmin row
                (insert_account-HasAdmin email hash _ db q.has_admin (next_role-why db.tables))))
    ]
