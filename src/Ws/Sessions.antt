-- ===== src/Ws/Sessions.antt =====
-- Who can open a session with a device.
use visuara.Prelude.{
  ℕ, ◌≡◌, ◌⊎◌, refl, ap, ◌∙◌, inl, inr, none, some, String, str_eq, find?, Option-cases, Bool-cases,
  if◌then◌else◌, arith,
}
use visuara.Protocol.{
  DeviceId, SessionId, ClientMessage, register, login, register_device, list_devices,
  request_connection, request_turn_credentials, set_unattended_password, ConnectCredential,
  ServerMessage,
}
use visuara.Protocol
use visuara.Db.{DeviceRow, map_device_row, find_device, ok, Result-cases}
use visuara.State.{ConnectionId, Map, SessionPeers, insert}
use visuara.Ws.Credentials.{Unlocks, credential_ok-Unlocks}
use visuara.Ws.{
  modify, credential_ok, own_device, on_register_device, establish, on_request_connection,
  on_request_turn_credentials, handle_message, set_device,
}
use visuara.Ws.Types.{
  ConnState, unauthenticated, authenticated, Local, External, Draws, ◌>>=◌, ◌>>◌, on_db, ask, send,
  send_if_open, require_auth,
}
use visuara.Ws.Lookups.{find_device-row}
use visuara.Ws.Keeps
use visuara.Ws.Keeps.{
  Keeps, bind-Keeps, then-Keeps, require_auth-Keeps, ask-Keeps, send-Keeps, send_if_open-Keeps,
}
use visuara.Ws.Arms.{
  Stated, relay-Keeps, on_set_unattended_password-Keeps, on_list_devices-Keeps, on_register-Keeps,
  on_login-Keeps,
}

-- The new session of a connection with the device `target`, and the credential that opened it.
pub record Established (ext : External) (conn_id : ConnectionId) (draws : Draws) (target : DeviceId)
    (credential : ConnectCredential) (before after : Local) : Type 0 where
  pub account_id : ℕ
  pub logged_in : before.task.conn_state ≡ authenticated account_id
  pub row : DeviceRow
  pub exists : find? (λ d. str_eq d.id target) before.app.db.tables.devices ≡ some row
  pub opens : Unlocks ext.argon before.app.otp target row credential
  pub host : ConnectionId
  pub online : before.app.device_online target ≡ some host
  pub session :
      after.app.sessions
      ≡ insert draws.session_id (record { a = conn_id; b = host }) before.app.sessions

-- The sessions stay as they were.
abbrev Same : Map SessionPeers → Local → Type 0
Same sessions l = l.app.sessions ≡ sessions

module _ (sessions : Map SessionPeers) where
  free : Keeps.Free (Same sessions)
  free l db q = q

  heard : Keeps.Heard (Same sessions)
  heard l c tx msg is q = q

  stated : Stated (Same sessions)
  stated l c q = q

module _ (ext : External) (conn_id : ConnectionId) (draws : Draws) (l : Local) where
  own_device-sessions :
      (sessions : Map SessionPeers) (account_id : ℕ) (name : String)
      → Keeps (Same sessions) (own_device ext conn_id draws account_id name)
  unfolding own_device set_device
  own_device-sessions sessions account_id name k q = elim (Option-cases k.task.my_device_id) [
    | inl fresh ↦
        rw (fresh, own_device)
          (then-Keeps (Same sessions) _ _ (ask-Keeps (Same sessions) (free sessions) _)
            (then-Keeps (Same sessions) _ _ (λ k' q'. q') (λ k' q'. q')) k q)
    | inr (id, mine) ↦ rw (mine, own_device) q
  ]

  on_register_device-sessions :
      (name : String) → Keeps (Same l.app.sessions) (on_register_device ext conn_id draws name)
  unfolding on_register_device modify
  on_register_device-sessions name =
      bind-Keeps (Same l.app.sessions) _ _ (require_auth-Keeps (Same l.app.sessions)) λ account_id.
        bind-Keeps (Same l.app.sessions) _ _ (own_device-sessions l.app.sessions account_id name)
          λ id.
            then-Keeps (Same l.app.sessions) _ _ (λ k q. q)
              (send-Keeps (Same l.app.sessions) (heard l.app.sessions) conn_id _)

  -- The sessions stay as they were, or the message is a request that opens one.
  abbrev pub Opens : ClientMessage → Type 0
  Opens msg =
      ((handle_message ext conn_id draws msg l).1.app.sessions ≡ l.app.sessions)
      ⊎ ((target : DeviceId) × ((credential : ConnectCredential) × ((msg
                ≡ request_connection target credential)
              × Established ext conn_id draws target credential l
                  (handle_message ext conn_id draws msg l).1)))

  -- The state after the lookup of the device.
  abbrev looked_up : DeviceId → Local
  looked_up target = record l { app = record l.app { db = (find_device target l.app.db).1 } }

  -- A request of a connection that is logged in, once the device is found.
  request-found :
      (target : DeviceId) (credential : ConnectCredential) (account_id : ℕ) (row : DeviceRow)
      → l.task.conn_state ≡ authenticated account_id
      → (find_device target l.app.db).0 ≡ ok (some (map_device_row row))
      → on_request_connection ext conn_id draws target credential l
        ≡ (if credential_ok ext.argon l.app.otp target (map_device_row row) credential
              then establish ext conn_id draws target
              else send conn_id (Protocol.error "invalid credential"))
            (looked_up target)
  unfolding on_request_connection require_auth ask on_db ◌>>=◌
  request-found target credential account_id row logged_in found = ground arith

  told-sessions :
      (S : Map SessionPeers) (host : ConnectionId) (m n : ServerMessage)
      → Keeps (Same S) (send_if_open host m >> send conn_id n)
  told-sessions S host m n =
      then-Keeps (Same S) _ _ (send_if_open-Keeps (Same S) (heard S) host m)
        (send-Keeps (Same S) (heard S) conn_id n)

  establish-sessions :
      (target : DeviceId) (host : ConnectionId) (k : Local)
      → k.app.device_online target ≡ some host
      → (establish ext conn_id draws target k).1.app.sessions
        ≡ insert draws.session_id (record { a = conn_id; b = host }) k.app.sessions
  unfolding establish modify ◌>>◌ ◌>>=◌
  establish-sessions target host k online =
      let S : Map SessionPeers =
        insert draws.session_id (record { a = conn_id; b = host }) k.app.sessions in
      rw (online, establish)
        (told-sessions S host (Protocol.incoming_connection draws.session_id none)
          (Protocol.connection_established draws.session_id target)
          (record k { app = record k.app { sessions = S } }) refl)

  offline-sessions :
      (target : DeviceId) (k : Local)
      → k.app.device_online target ≡ none
      → (establish ext conn_id draws target k).1.app.sessions ≡ k.app.sessions
  unfolding establish
  offline-sessions target k offline = rw (offline, establish)

  abbrev After : DeviceId → ConnectCredential → Local → Type 0
  After target credential after =
      (Same l.app.sessions after) ⊎ Established ext conn_id draws target credential l after

  found-After :
      (target : DeviceId) (credential : ConnectCredential) (account_id : ℕ) (row : DeviceRow)
      → l.task.conn_state ≡ authenticated account_id
      → find? (λ d. str_eq d.id target) l.app.db.tables.devices ≡ some row
      → (find_device target l.app.db).0 ≡ ok (some (map_device_row row))
      → After target credential (on_request_connection ext conn_id draws target credential l).1
  found-After target credential account_id row logged_in exists found =
      elim (Bool-cases (credential_ok ext.argon l.app.otp target (map_device_row row) credential)) [
        | inr wrong ↦ inl (
            rw (request-found target credential account_id row logged_in found, wrong)
              (send-Keeps (Same l.app.sessions) (heard l.app.sessions) conn_id
                (Protocol.error "invalid credential") (looked_up target) refl))
        | inl right ↦ elim (Option-cases (l.app.device_online target)) [
          | inl offline ↦ inl (
              rw (request-found target credential account_id row logged_in found, right)
                (offline-sessions target (looked_up target) offline))
          | inr (host, online) ↦ inr (record {
            account_id = account_id;
            logged_in = logged_in;
            row = row;
            exists = exists;
            opens = credential_ok-Unlocks ext.argon l.app.otp target row credential right;
            host = host;
            online = online;
            session =
                rw (request-found target credential account_id row logged_in found, right)
                  (establish-sessions target host (looked_up target) online);
          })
        ]
      ]

  request-After :
      (target : DeviceId) (credential : ConnectCredential)
      → After target credential (on_request_connection ext conn_id draws target credential l).1
  unfolding on_request_connection require_auth ask on_db ◌>>=◌
  request-After target credential = go l.task.conn_state refl
    where
      go :
          (c : ConnState)
          → l.task.conn_state ≡ c
          → After target credential (on_request_connection ext conn_id draws target credential l).1
      go unauthenticated out = inl (ground arith)
      go (authenticated id) logged_in = elim (Result-cases (find_device target l.app.db).0) [
        | inr (e, failed) ↦ inl (ground arith)
        | inl (none, missing) ↦ inl (ground arith)
        | inl (some device, found) ↦
            let (row, (exists, same)) = find_device-row target device l.app.db found in
            found-After target credential id row logged_in exists
              (found ∙ ap (λ d. ok (some d)) same)
      ]

-- The only message that opens a session is a request for a connection, and it opens one, between the
-- sender and the connection that the device is online on, only if the sender is logged in, the device
-- exists and is online, and the credential is its current one-time password, or Argon2 verifies it
-- against the hash of the device's own password, which has one. After any other message, and any refused
-- request, the sessions are as they were.
pub handle_message-Established :
    (ext : External) (conn_id : ConnectionId) (draws : Draws) (msg : ClientMessage) (l : Local)
    → Opens ext conn_id draws l msg
unfolding handle_message on_request_turn_credentials
handle_message-Established ext conn_id draws msg l =
    elim msg as (λ m. Opens ext conn_id draws l m) [
      | register email password ↦ inl (
          on_register-Keeps _ (free l.app.sessions) (heard l.app.sessions) conn_id ext draws
            (stated l.app.sessions) email password l refl)
      | login email password ↦ inl (
          on_login-Keeps _ (free l.app.sessions) (heard l.app.sessions) conn_id ext draws
            (stated l.app.sessions) email password l refl)
      | register_device name ↦ inl (on_register_device-sessions ext conn_id draws l name l refl)
      | list_devices ↦ inl (
          on_list_devices-Keeps _ (free l.app.sessions) (heard l.app.sessions) conn_id ext draws l
            refl)
      | request_connection target credential ↦
          elim (request-After ext conn_id draws l target credential) [
            | inl same ↦ inl same
            | inr opened ↦ inr (target, (credential, (refl, opened)))
          ]
      | Protocol.ClientMessage.sdp_offer session_id sdp ↦
          inl
            (relay-Keeps _ (free l.app.sessions) (heard l.app.sessions) conn_id session_id _ l refl)
      | Protocol.ClientMessage.sdp_answer session_id sdp ↦
          inl
            (relay-Keeps _ (free l.app.sessions) (heard l.app.sessions) conn_id session_id _ l refl)
      | Protocol.ClientMessage.ice_candidate session_id candidate ↦
          inl
            (relay-Keeps _ (free l.app.sessions) (heard l.app.sessions) conn_id session_id _ l refl)
      | request_turn_credentials ↦ inl (send-Keeps _ (heard l.app.sessions) conn_id _ l refl)
      | set_unattended_password target password ↦ inl (
          on_set_unattended_password-Keeps _ (free l.app.sessions) (heard l.app.sessions) conn_id
            ext draws target password l refl)
    ]
