-- ===== src/Session/Bootstrap.antt =====
-- The first account becomes the administrator and closes registration (session.rs).
use visuara.Prelude.{
  ℕ, suc, ◌≡◌, sym, subst, Bool, [], ◌∷◌, ◌++◌, String, str_eq, if◌then◌else◌, ◌==◌, length, any,
  arith, Bool-cases, inl, inr,
}
use visuara.Db.{
  AccountRole, user, admin, Tables, Db, ok, err, unique_violation, locked, reads, writes,
  count_accounts, create_account, insert_account, set_registration_enabled, set_setting,
  set_setting_rows, new_account,
}
use visuara.Session.{create_account_and_maybe_bootstrap_admin}

-- The role that the next account gets, and the tables with it.
abbrev pub next_role : Tables → AccountRole
next_role t = if length t.accounts == 0 then admin else user

abbrev pub registered : Db → String → String → Tables
registered db email hash =
    let t = db.tables in
    record t {
      accounts = t.accounts ++ new_account db email hash (next_role t) ∷ [];
      last_id = suc t.last_id;
    }

abbrev pub closed_after_first : Tables → Tables → Tables
closed_after_first before t =
    if length before.accounts == 0 then set_setting_rows "registration_enabled" "false" t else t

-- What `bootstrap_lem` says of a connection.
abbrev Bootstraps : String → String → Db → Type 0
Bootstraps email hash db = create_account_and_maybe_bootstrap_admin email hash db ≡ (
    if any (λ r. str_eq r.email email) db.tables.accounts then (err unique_violation, db) else (
      ok (suc db.tables.last_id, next_role db.tables),
      record db { tables = closed_after_first db.tables (registered db email hash) },
    ))

bootstrap_fine :
    (email hash : String) (t : Tables) (now : ℕ) (fk : Bool)
    → Bootstraps email hash (record { tables = t; now = now; foreign_keys = fk; faults = [] })
unfolding create_account_and_maybe_bootstrap_admin count_accounts create_account insert_account
    set_registration_enabled set_setting reads writes locked
bootstrap_fine email hash t now fk =
    elim (Bool-cases (any (λ r. str_eq r.email email) t.accounts)) [
      | inl taken ↦ elim (Bool-cases (length t.accounts == 0)) [
        | inl first ↦ ground arith
        | inr later ↦ ground arith
      ]
      | inr free ↦ elim (Bool-cases (length t.accounts == 0)) [
        | inl first ↦ ground arith
        | inr later ↦ ground arith
      ]
    ]

-- While no call fails for an outside reason, registration refuses an email that has an account and
-- changes nothing. Otherwise it adds one account with the next id, an administrator if it is the first
-- and a user if not, and closes registration if it is the first.
pub bootstrap_lem :
    (email hash : String) (db : Db)
    → db.faults ≡ []
    → create_account_and_maybe_bootstrap_admin email hash db ≡ (
        if any (λ r. str_eq r.email email) db.tables.accounts then (err unique_violation, db) else (
          ok (suc db.tables.last_id, next_role db.tables),
          record db { tables = closed_after_first db.tables (registered db email hash) },
        ))
bootstrap_lem email hash db fine =
    subst
      (λ f.
        Bootstraps email hash
          (record { tables = db.tables; now = db.now; foreign_keys = db.foreign_keys; faults = f }))
      (sym fine) (bootstrap_fine email hash db.tables db.now db.foreign_keys)
