-- ===== src/Client/Signaling/Login.antt =====
-- Logging in to an account that exists (`authenticate` of signaling_client.rs, and ws.rs).
use visuara.Prelude.{
  ◌≡◌, refl, sym, ap, ◌∙◌, true, List, [], ◌∷◌, none, some, String, str_eq, eq_refl, inr, inl,
  find?, any, any-find?, ℕ, ◌+◌, ◌≢◌, Bool-cases, arith,
}
use visuara.Protocol.{ClientMessage, register, login, ServerMessage, auth_ok, auth_error}
use visuara.Auth.{hash_password, verify_password}
use visuara.Db.{AccountRow}
use visuara.State.{ConnectionId, Channel}
use visuara.Ws.{handle_message}
use visuara.Ws.Types.{Local, External, Draws, authenticated}
use visuara.Ws.Hub.{after_message}
use visuara.Client.Signaling.{Script, receiving, registered, expect_login, authenticate}
use visuara.Client.Signaling.Talk.{talk, unread, unread_of}
use visuara.Client.Signaling.Granted.{told, register_refused, login_granted}

pub after_ok :
    (ext : External) (conn_id : ConnectionId) (d : Draws) (msg : ClientMessage) (l l' : Local)
    → handle_message ext conn_id d msg l ≡ (inr tt, l')
    → after_message ext conn_id d msg l ≡ l'
unfolding after_message
after_ok ext conn_id d msg l l' e = rw (after_message, e) (ap (λ r. r.1) e)

talk_read :
    {A : Type 0} (ext : External) (conn_id : ConnectionId) (draws : List Draws)
    (s : ServerMessage → Script A) (read : ℕ) (m : ServerMessage) (l : Local)
    → unread conn_id read l ≡ some m
    → talk ext conn_id draws (receiving s) read l ≡ talk ext conn_id draws (s m) (read + 1) l
unfolding talk
talk_read ext conn_id draws s read m l e = rw (talk, e)

pub heard :
    (conn_id : ConnectionId) (tx : Channel) (msg : ServerMessage) (l : Local)
    → (told conn_id tx msg l).app.connections conn_id ≡ some (record tx { sent = msg ∷ tx.sent })
heard conn_id tx msg l = rw (eq_refl conn_id)

known_email :
    (email : String) (row : AccountRow) (rows : List AccountRow)
    → find? (λ r. str_eq r.email email) rows ≡ some row
    → any (λ r. str_eq r.email email) rows ≡ true
known_email email row rows found = elim (Bool-cases (any (λ r. str_eq r.email email) rows)) [
  | inl there ↦ there
  | inr missing ↦ absurd (differ (sym (any-find? (λ r. str_eq r.email email) rows missing) ∙ found))
]
  where
    differ : {A : Type 0} {a : A} → none ≢ some a
    differ e = ground arith

-- The log in of a client is granted by the server: run on a fresh connection, for an account that
-- exists and its password, `authenticate` gets to its end, and the connection is logged in as that
-- account. No call of the database fails, and the hash that registering makes first can be made.
pub talk-authenticate :
    (ext : External) (conn_id : ConnectionId) (d₁ d₂ : Draws) (email password h : String)
    (row : AccountRow) (l : Local)
    → l.app.db.faults ≡ []
    → find? (λ r. str_eq r.email email) l.app.db.tables.accounts ≡ some row
    → verify_password ext.argon password row.password_hash ≡ true
    → hash_password ext.argon d₁.salt password ≡ some h
    → l.app.connections conn_id ≡ some (record { receiving = true; sent = [] })
    → ((talk ext conn_id (d₁ ∷ d₂ ∷ []) (authenticate email password) 0 l).0 ≡ some tt)
      × ((talk ext conn_id (d₁ ∷ d₂ ∷ []) (authenticate email password) 0 l).1.task.conn_state
          ≡ authenticated row.id)
unfolding talk authenticate registered expect_login
talk-authenticate ext conn_id d₁ d₂ email password h row l fine found right hashes present =
    let tx : Channel = record { receiving = true; sent = [] } in
    let (why, refused) =
      register_refused ext conn_id tx d₁ email password h l fine
        (known_email email row l.app.db.tables.accounts found) hashes present refl in
    let l₁ : Local = told conn_id tx (auth_error why) l in
    let tx₁ : Channel = record { receiving = true; sent = auth_error why ∷ [] } in
    let granted =
      login_granted ext conn_id tx₁ d₂ email password row l₁ fine found right
        (heard conn_id tx (auth_error why) l) refl in
    let l₂ : Local =
      told conn_id tx₁ (auth_ok d₂.session_token)
        (record l₁ { task = record l₁.task { conn_state = authenticated row.id } }) in
    let whole : talk ext conn_id (d₁ ∷ d₂ ∷ []) (authenticate email password) 0 l ≡ (some tt, l₂) =
      ap (λ k. talk ext conn_id (d₂ ∷ []) (receiving (registered email password)) 0 k)
        (after_ok ext conn_id d₁ (register email password) l l₁ refused)
      ∙ talk_read ext conn_id (d₂ ∷ []) (registered email password) 0 (auth_error why) l₁
          (ap (unread_of 0) (heard conn_id tx (auth_error why) l))
      ∙ ap (λ k. talk ext conn_id [] (receiving expect_login) 1 k)
          (after_ok ext conn_id d₂ (login email password) l₁ l₂ granted)
      ∙ talk_read ext conn_id [] expect_login 1 (auth_ok d₂.session_token) l₂ (
          ap (unread_of 1) (
            heard conn_id tx₁ (auth_ok d₂.session_token)
              (record l₁ { task = record l₁.task { conn_state = authenticated row.id } }))) in
    (ap (λ r. r.0) whole, ap (λ r. r.1.task.conn_state) whole)
