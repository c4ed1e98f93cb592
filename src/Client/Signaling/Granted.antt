-- ===== src/Client/Signaling/Granted.antt =====
-- What the server answers to a registration and a log in (visuara-signaling/src/ws.rs).
use mathlib.Core.Option
use visuara.Prelude.{
  ℕ, ◌⊎◌, ◌≡◌, refl, sym, ap, subst, ◌∙◌, ◌+s◌, Bool, true, [], ◌∷◌, some, String, str_eq,
  unwrap_or, inr, inl, find?, any, if◌then◌else◌, Bool-cases,
}
use visuara.Protocol.{register, login, ServerMessage, auth_ok, auth_error}
use visuara.Auth.{hash_password, verify_password}
use visuara.Db.Listing.{reads_fine}
use visuara.Db.{
  Db, AccountRow, map_account_row, M, ok, err, reads, locked, registration_enabled, get_setting,
  find_account_by_email, unique_violation,
}
use visuara.Session.{create_account_and_maybe_bootstrap_admin}
use visuara.Session.Bootstrap.{bootstrap_lem}
use visuara.State.{ConnectionId, Channel, insert}
use visuara.Ws.{handle_message, on_register, on_login, hashed, set_state}
use visuara.Ws.Types.{
  ConnState, unauthenticated, WsError, said, require_auth, Local, External, Draws, W, authenticated,
  ◌>>=◌, ◌>>◌, proceed, on_db, ask, raise, send, send_to,
}

on_db_same :
    {A : Type 0} (call : Db → A × Db) (l : Local) (a : A)
    → call l.app.db ≡ (a, l.app.db)
    → on_db call l ≡ (inr a, l)
unfolding on_db
on_db_same call l a e = ap (λ r. (inr r.0, record l { app = record l.app { db = r.1 } })) e

pub then_step :
    {A B : Type 0} (m : W A) (f : A → W B) (l l' : Local) (a : A)
    → m l ≡ (inr a, l')
    → (m >>= f) l ≡ f a l'
unfolding ◌>>=◌
then_step m f l l' a e = ap (λ r. proceed f r.0 r.1) e

pub ask_same :
    {A : Type 0} (call : M A) (l : Local) (a : A)
    → call l.app.db ≡ (ok a, l.app.db)
    → ask call l ≡ (inr a, l)
unfolding ask
ask_same call l a e = then_step (on_db call) raise l l (ok a) (on_db_same call l (ok a) e)

if_true : {A : Type 0} {b : Bool} (x y : A) → b ≡ true → (if b then x else y) ≡ x
if_true x y e = rw (e)

pub auth_known :
    (l : Local) (account_id : ℕ)
    → l.task.conn_state ≡ authenticated account_id
    → require_auth l ≡ (inr account_id, l)
unfolding require_auth
auth_known l account_id e = ap outcome e
  where
    outcome : ConnState → (WsError ⊎ ℕ) × Local
    outcome unauthenticated = (inl (said "not authenticated"), l)
    outcome (authenticated a) = (inr a, l)

-- The local state with one more message on the connection's channel.
abbrev pub told : ConnectionId → Channel → ServerMessage → Local → Local
told conn_id tx msg l = record l {
  app = record l.app {
    connections = insert conn_id (record tx { sent = msg ∷ tx.sent }) l.app.connections;
  };
}

pub send-told :
    (conn_id : ConnectionId) (tx : Channel) (msg : ServerMessage) (l : Local)
    → l.app.connections conn_id ≡ some tx
    → tx.receiving ≡ true
    → send conn_id msg l ≡ (inr tt, told conn_id tx msg l)
unfolding send send_to
send-told conn_id tx msg l present alive = rw (send, present, send_to, alive)

module _ (ext : External) (conn_id : ConnectionId) (tx : Channel) (d : Draws) where
  enabled_known : (db : Db) → db.faults ≡ [] → (b : Bool) × (registration_enabled db ≡ (ok b, db))
  unfolding registration_enabled get_setting reads locked
  enabled_known db fine = (
    unwrap_or (Option.map (λ s. str_eq s "true") (db.tables.settings "registration_enabled")) true,
    subst
        (λ fs.
          registration_enabled (record {
            tables = db.tables;
            now = db.now;
            foreign_keys = db.foreign_keys;
            faults = fs;
          })
          ≡ (
            ok (
                unwrap_or
                  (Option.map (λ s. str_eq s "true") (db.tables.settings "registration_enabled"))
                  true),
            record {
              tables = db.tables;
              now = db.now;
              foreign_keys = db.foreign_keys;
              faults = fs;
            },
          ))
        (sym fine) refl,
  )

  made_none :
      (email h : String) (db : Db)
      → db.faults ≡ []
      → any (λ r. str_eq r.email email) db.tables.accounts ≡ true
      → create_account_and_maybe_bootstrap_admin email h db ≡ (err unique_violation, db)
  made_none email h db fine taken = bootstrap_lem email h db fine ∙ if_true _ _ taken

  -- Registering an email that has an account is refused.
  pub register_refused :
      (email password h : String) (l : Local)
      → l.app.db.faults ≡ []
      → any (λ r. str_eq r.email email) l.app.db.tables.accounts ≡ true
      → hash_password ext.argon d.salt password ≡ some h
      → l.app.connections conn_id ≡ some tx
      → tx.receiving ≡ true
      → (why : String) × (handle_message ext conn_id d (register email password) l
          ≡ (inr tt, told conn_id tx (auth_error why) l))
  unfolding handle_message on_register
  register_refused email password h l fine taken hashes present alive =
      let (enabled, known) = enabled_known l.app.db fine in
      elim (Bool-cases enabled) [
        | inl is ↦ (
          "registration failed: " +s ext.database_text unique_violation,
          then_step (on_db registration_enabled) _ l l (ok enabled)
                (on_db_same registration_enabled l (ok enabled) known)
              ∙ rw (is, hashes)
                  (then_step (hashed (some h)) _ l l h refl
                    ∙ then_step (on_db (create_account_and_maybe_bootstrap_admin email h)) _ l l
                        (err unique_violation)
                        (on_db_same _ l (err unique_violation)
                          (made_none email h l.app.db fine taken))
                    ∙ send-told conn_id tx _ l present alive),
        )
        | inr is ↦ (
          "registration is currently disabled",
          then_step (on_db registration_enabled) _ l l (ok enabled)
                (on_db_same registration_enabled l (ok enabled) known)
              ∙ rw (is) (send-told conn_id tx _ l present alive),
        )
      ]

  -- Logging in with the right password is granted.
  pub login_granted :
      (email password : String) (row : AccountRow) (l : Local)
      → l.app.db.faults ≡ []
      → find? (λ r. str_eq r.email email) l.app.db.tables.accounts ≡ some row
      → verify_password ext.argon password row.password_hash ≡ true
      → l.app.connections conn_id ≡ some tx
      → tx.receiving ≡ true
      → handle_message ext conn_id d (login email password) l ≡ (
        inr tt,
        told conn_id tx
            (auth_ok d.session_token)
            (record l { task = record l.task { conn_state = authenticated row.id } }),
      )
  unfolding handle_message on_login find_account_by_email map_account_row set_state ◌>>◌
  login_granted email password row l fine found right present alive =
      then_step (ask (find_account_by_email email)) _ l l (some (map_account_row row)) (
        ask_same (find_account_by_email email) l (some (map_account_row row)) (
          reads_fine _ l.app.db fine
          ∙ ap (λ o. (ok (Option.map map_account_row o), l.app.db)) found))
      ∙ rw (right) (
          then_step (set_state (authenticated row.id)) _ l _ tt refl
          ∙ send-told conn_id tx (auth_ok d.session_token)
              (record l { task = record l.task { conn_state = authenticated row.id } }) present
              alive)
