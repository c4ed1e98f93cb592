-- ===== src/Ws/Login.antt =====
-- Who a connection can come to be logged in as.
use visuara.Prelude.{
  ◌≡◌, ◌⊎◌, refl, ap, ◌∙◌, inl, inr, none, some, String, str_eq, find?, Option-cases, Bool-cases,
  if◌then◌else◌, arith,
}
use visuara.Protocol.{login, auth_ok, auth_error}
use visuara.Auth.{verify_password}
use visuara.Db.{
  Account, AccountRow, map_account_row, find_account_by_email, reads, locked, ok, Result-cases,
}
use visuara.State.{ConnectionId}
use visuara.Ws.{set_state, on_login, handle_message}
use visuara.Ws.Types.{authenticated, Task, Local, External, Draws, ◌>>=◌, ◌>>◌, ask, on_db, send}
use visuara.Ws.Credentials.{Verifies, verify_password-Verifies}
use visuara.Ws.Keeps
use visuara.Ws.Keeps.{Keeps, send-Keeps, then-Keeps}

-- The task is `t`.
abbrev Is : Task → Local → Type 0
Is t l = l.task ≡ t

heard : (t : Task) → Keeps.Heard (Is t)
heard t l c tx msg is q = q

-- The row of the account that a log in proved to have the password of.
pub record LoggedIn (ext : External) (email password : String) (before after : Local) : Type 0 where
  pub row : AccountRow
  pub exists : find? (λ r. str_eq r.email email) before.app.db.tables.accounts ≡ some row
  pub proved : Verifies ext.argon password row.password_hash
  pub task : after.task ≡ record before.task { conn_state = authenticated row.id }

module _ (ext : External) (conn_id : ConnectionId) (draws : Draws) (email password : String)
    (l : Local) where
  -- The state after the lookup of the account.
  abbrev looked_up : Local
  looked_up = record l { app = record l.app { db = (find_account_by_email email l.app.db).1 } }

  login-found :
      (account : Account)
      → (find_account_by_email email l.app.db).0 ≡ ok (some account)
      → on_login ext conn_id draws email password l
        ≡ (if verify_password ext.argon password account.password_hash
              then (set_state (authenticated account.id)
                  >> send conn_id (auth_ok draws.session_token))
              else send conn_id (auth_error "invalid email or password"))
            looked_up
  unfolding on_login ask on_db ◌>>=◌
  login-found account found = ground arith

  find_account-row :
      (account : Account)
      → (find_account_by_email email l.app.db).0 ≡ ok (some account)
      → (row : AccountRow) × ((find? (λ r. str_eq r.email email) l.app.db.tables.accounts
            ≡ some row)
          × (account ≡ map_account_row row))
  unfolding find_account_by_email reads locked
  find_account-row account found =
      elim (Option-cases (find? (λ r. str_eq r.email email) l.app.db.tables.accounts)) [
        | inl missing ↦ absurd (ground arith)
        | inr (row, there) ↦ (row, (there, ground arith))
      ]

  abbrev Outcome : Local → Type 0
  Outcome after = (after.task ≡ l.task) ⊎ LoggedIn ext email password l after

  found-Outcome :
      (row : AccountRow)
      → find? (λ r. str_eq r.email email) l.app.db.tables.accounts ≡ some row
      → (find_account_by_email email l.app.db).0 ≡ ok (some (map_account_row row))
      → Outcome (on_login ext conn_id draws email password l).1
  unfolding map_account_row set_state ◌>>◌ ◌>>=◌
  found-Outcome row exists found =
      elim (Bool-cases (verify_password ext.argon password row.password_hash)) [
        | inr wrong ↦ inl (
            rw (login-found (map_account_row row) found, wrong)
              (send-Keeps (Is l.task) (heard l.task) conn_id
                (auth_error "invalid email or password") looked_up refl))
        | inl right ↦ inr (record {
          row = row;
          exists = exists;
          proved = verify_password-Verifies ext.argon password row.password_hash right;
          task =
              rw (login-found (map_account_row row) found, right)
                (send-Keeps (Is (record l.task { conn_state = authenticated row.id })) (heard _)
                  conn_id (auth_ok draws.session_token)
                  (record looked_up { task = record l.task { conn_state = authenticated row.id } })
                  refl);
        })
      ]

-- A log in leaves the connection as it was, or logs it in as the account that has the email, and only
-- if Argon2 verifies the password against that account's hash, which is a hash of Argon2.
pub handle_message-LoggedIn :
    (ext : External) (conn_id : ConnectionId) (draws : Draws) (email password : String) (l : Local)
    → let after = (handle_message ext conn_id draws (login email password) l).1 in
      (after.task ≡ l.task) ⊎ LoggedIn ext email password l after
unfolding handle_message on_login ask on_db ◌>>=◌
handle_message-LoggedIn ext conn_id draws email password l =
    elim (Result-cases (find_account_by_email email l.app.db).0) [
      | inr (e, failed) ↦ inl (ground arith)
      | inl (none, missing) ↦ inl (
          rw (missing, on_login)
            (send-Keeps (Is l.task) (heard l.task) conn_id (auth_error "invalid email or password")
              (looked_up ext conn_id draws email password l) refl))
      | inl (some account, found) ↦
          let (row, (exists, same)) =
            find_account-row ext conn_id draws email password l account found in
          found-Outcome ext conn_id draws email password l row exists
            (found ∙ ap (λ a. ok (some a)) same)
    ]
