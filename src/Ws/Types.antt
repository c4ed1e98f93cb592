-- ===== src/Ws/Types.antt =====
-- visuara-signaling/src/ws.rs: a connection's own state, errors, and how a message is handled.
use visuara.Prelude.{ℕ, ◌∷◌, Option, none, some, String, ◌⊎◌, inl, inr, if◌then◌else◌}
use visuara.Protocol.{DeviceId, ServerMessage}
use visuara.Auth.{Argon}
use visuara.Turn.{Hmac}
use visuara.Db.{DbError, Db, Result, ok, err}
use visuara.State.{AppState, ConnectionId, Channel, insert}

pub data ConnState : Type 0 where
  unauthenticated : ConnState
  authenticated : ℕ → ConnState

-- What `handle_socket` keeps for its connection.
pub record Task : Type 0 where
  pub conn_state : ConnState
  pub my_device_id : Option DeviceId

-- What a handler sees: the shared state and its own.
pub record Local : Type 0 where
  pub app : AppState
  pub task : Task

-- The errors that `handle_message` returns by `?` and `bail!`.
pub data WsError : Type 0 where
  said : String → WsError
  database : DbError → WsError
  hashing : WsError
  closed : WsError

-- Code of other packages: Argon2, HMAC, and the texts of their errors and serde_json's.
pub record External : Type 0 where
  pub argon : Argon
  pub hmac : Hmac
  pub database_text : DbError → String
  pub hashing_text : String
  pub closed_text : String
  pub malformed_text : String → String

-- What handling one message draws from the random generator and reads from the clock.
pub record Draws : Type 0 where
  pub salt : String
  pub session_token : String
  pub session_id : String
  pub device_1 : ℕ
  pub device_2 : ℕ
  pub device_3 : ℕ
  pub otp_1 : ℕ
  pub otp_2 : ℕ
  pub now_secs : ℕ

abbrev pub W : Type 0 → Type 0
W A = Local → (WsError ⊎ A) × Local

-- What comes after a step, from its outcome.
abbrev pub proceed : {A B : Type 0} → (A → W B) → WsError ⊎ A → W B
proceed f (inl e) l = (inl e, l)
proceed f (inr a) l = f a l

infixl 5 ◌>>=◌ ◌>>◌
unfoldable pub ◌>>=◌ : {A B : Type 0} → W A → (A → W B) → W B
◌>>=◌ m f l = proceed f (m l).0 (m l).1

unfoldable pub ◌>>◌ : {B : Type 0} → W (Unit {0}) → W B → W B
m >> k = m >>= λ _. k

abbrev pub done : {A : Type 0} → A → W A
done a l = (inr a, l)

abbrev pub bail : {A : Type 0} → WsError → W A
bail e l = (inl e, l)

-- A call of the database, whose result the handler looks at.
unfoldable pub on_db : {A : Type 0} → (Db → A × Db) → W A
on_db call l = let (a, db') = call l.app.db in (inr a, record l { app = record l.app { db = db' } })

-- The same followed by `?`.
abbrev pub raise : {A : Type 0} → Result A → W A
raise (ok a) = done a
raise (err e) = bail (database e)

unfoldable pub ask : {A : Type 0} → (Db → Result A × Db) → W A
ask call = on_db call >>= raise

-- `.ok_or_else(|| anyhow!(…))?`
abbrev pub or_bail : {A : Type 0} → Option A → String → W A
or_bail none why = bail (said why)
or_bail (some a) why = done a

-- A send fails when the channel's receiver is gone.
unfoldable pub send_to : ConnectionId → Channel → ServerMessage → W (Unit {0})
send_to conn_id tx msg l =
    if tx.receiving
    then (
      inr tt,
      record l {
        app = record l.app {
          connections = insert conn_id (record tx { sent = msg ∷ tx.sent }) l.app.connections;
        };
      },
    )
    else (inl closed, l)

-- `state.connections.get(&id)`, and a message on it if it is there.
unfoldable pub send_if_open : ConnectionId → ServerMessage → W (Unit {0})
send_if_open conn_id msg l = elim (l.app.connections conn_id) [
  | none ↦ (inr tt, l)
  | some tx ↦ send_to conn_id tx msg l
]

-- `tx.send(…)?` on the connection's own channel, which is in `connections` while its task runs.
unfoldable pub send : ConnectionId → ServerMessage → W (Unit {0})
send conn_id msg l = elim (l.app.connections conn_id) [
  | none ↦ (inl closed, l)
  | some tx ↦ send_to conn_id tx msg l
]

unfoldable pub require_auth : W ℕ
require_auth l = elim l.task.conn_state [
  | unauthenticated ↦ (inl (said "not authenticated"), l)
  | authenticated account_id ↦ (inr account_id, l)
]
