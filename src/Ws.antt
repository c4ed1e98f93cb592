-- ===== src/Ws.antt =====
-- visuara-signaling/src/ws.rs: one message on a connection, from its first guard to its last send.
-- A message is handled in one go: the handlers of two connections do not interleave.
pub mod Types
pub mod Hub
pub mod Arms
pub mod Keeps
pub mod Login
pub mod Owners
pub mod Presence
pub mod Passwords
pub mod Steps
pub mod Reach
pub mod Guards
pub mod Lookups
pub mod Credentials
pub mod Relay
pub mod Sessions
mod Tests
pub mod Running
pub mod Requests
pub mod Served
use mathlib.Core.Option
use visuara.Prelude.{
  ℕ, Bool, true, false, not, List, map, Option, none, some, String, str_eq, ◌+s◌, if◌then◌else◌,
  ◌==◌, is_some, unwrap_or, inl, inr,
}
use visuara.Protocol.{
  DeviceId, SessionId, ClientMessage, register, login, register_device, list_devices,
  request_connection, request_turn_credentials, set_unattended_password, ConnectCredential,
  one_time_password, unattended_password, ServerMessage, auth_ok, auth_error, device_registered,
  device_list, incoming_connection, connection_established, turn_credentials,
  unattended_password_updated,
}
use visuara.Protocol
use visuara.Auth.{
  Argon, hash_password, verify_password, generate_one_time_password, generate_device_id,
}
use visuara.Turn.{mint_credentials}
use visuara.Db.{
  Db, Device, Result, ok, err, registration_enabled, find_account_by_email, create_device,
  list_devices_for_account, find_device, set_unattended_password_hash,
}
use visuara.Session.{create_account_and_maybe_bootstrap_admin}
use visuara.State.{AppState, ConnectionId, Map, insert, other}
use visuara.Api.Auth.{enabled_or_true}
use visuara.Api.Devices.{summary}
use Types.{
  ConnState, authenticated, Task, Local, WsError, said, database, hashing, External, Draws, W,
  ◌>>=◌, ◌>>◌, done, bail, on_db, ask, or_bail, send, send_to, send_if_open, require_auth,
}

unfoldable pub set_state : ConnState → W (Unit {0})
set_state c l = (inr tt, record l { task = record l.task { conn_state = c } })

unfoldable pub set_device : DeviceId → W (Unit {0})
set_device id l = (inr tt, record l { task = record l.task { my_device_id = some id } })

unfoldable pub modify : (AppState → AppState) → W (Unit {0})
modify f l = (inr tt, record l { app = f l.app })

abbrev pub hashed : Option String → W String
hashed none = bail hashing
hashed (some h) = done h

-- A message to the other peer of a session.
unfoldable pub relay : ConnectionId → SessionId → ServerMessage → W (Unit {0})
relay conn_id session_id msg l = elim (l.app.sessions session_id) [
  | none ↦ (inl (said "unknown session"), l)
  | some peers ↦ elim (other peers conn_id) [
    | none ↦ (inl (said "not part of session"), l)
    | some peer ↦ elim (l.app.connections peer) [
      | none ↦ (inl (said "peer disconnected"), l)
      | some tx ↦ send_to peer tx msg l
    ]
  ]
]

-- Whether a credential opens a device now.
unfoldable pub credential_ok : Argon → Map String → DeviceId → Device → ConnectCredential → Bool
credential_ok argon otp target device (one_time_password given) =
    unwrap_or (Option.map (λ current. str_eq current given) (otp target)) false
credential_ok argon otp target device (unattended_password pw) =
    unwrap_or (Option.map (λ h. verify_password argon pw h) device.unattended_password_hash) false

module _ (ext : External) (conn_id : ConnectionId) where
  unfoldable pub on_register : Draws → String → String → W (Unit {0})
  on_register draws email password = do
    enabled ← on_db registration_enabled
    (if enabled_or_true enabled
        then (do
          hash ← hashed (hash_password ext.argon draws.salt password)
          made ← on_db (create_account_and_maybe_bootstrap_admin email hash)
          elim made [
            | ok (account_id, role) ↦
                (set_state (authenticated account_id) >> send conn_id (auth_ok draws.session_token))
            | err e ↦ send conn_id (auth_error ("registration failed: " +s ext.database_text e))
          ])
        else send conn_id (auth_error "registration is currently disabled"))

  unfoldable pub on_login : Draws → String → String → W (Unit {0})
  on_login draws email password = do
    found ← ask (find_account_by_email email)
    elim found [
      | some account ↦
          if verify_password ext.argon password account.password_hash
          then (set_state (authenticated account.id) >> send conn_id (auth_ok draws.session_token))
          else send conn_id (auth_error "invalid email or password")
      | none ↦ send conn_id (auth_error "invalid email or password")
    ]

  -- A connection keeps the device id of its first registration.
  unfoldable pub own_device : Draws → ℕ → String → W DeviceId
  own_device draws account_id name l = elim l.task.my_device_id [
    | some id ↦ (inr id, l)
    | none ↦
        let id = generate_device_id draws.device_1 draws.device_2 draws.device_3 in
        (do ask (create_device id account_id name); set_device id; done id) l
  ]

  unfoldable pub on_register_device : Draws → String → W (Unit {0})
  on_register_device draws name = do
    account_id ← require_auth
    device_id ← own_device draws account_id name
    let otp = generate_one_time_password draws.otp_1 draws.otp_2
    modify λ s. record s {
      device_online = insert device_id conn_id s.device_online;
      otp = insert device_id otp s.otp;
    }
    send conn_id (device_registered device_id otp)

  unfoldable pub on_list_devices : W (Unit {0})
  on_list_devices = do
    account_id ← require_auth
    devices ← ask (list_devices_for_account account_id)
    λ l. send conn_id (device_list (map (summary l.app.device_online) devices)) l

  unfoldable pub establish : Draws → DeviceId → W (Unit {0})
  establish draws target l = elim (l.app.device_online target) [
    | none ↦ (inl (said "device is offline"), l)
    | some host ↦
        (do
          modify λ s. record s {
            sessions = insert draws.session_id (record { a = conn_id; b = host }) s.sessions;
          }
          send_if_open host (incoming_connection draws.session_id none)
          send conn_id (connection_established draws.session_id target))
          l
  ]

  unfoldable pub on_request_connection : Draws → DeviceId → ConnectCredential → W (Unit {0})
  on_request_connection draws target credential = do
    account_id ← require_auth
    found ← ask (find_device target)
    device ← or_bail found "unknown device"
    λ l.
        (if credential_ok ext.argon l.app.otp target device credential
            then establish draws target
            else send conn_id (Protocol.error "invalid credential"))
          l

  unfoldable pub on_request_turn_credentials : Draws → W (Unit {0})
  on_request_turn_credentials draws l =
      let (username, password) = mint_credentials ext.hmac draws.now_secs l.app.turn conn_id 300 in
      send conn_id (turn_credentials l.app.turn.urls username password 300) l

  unfoldable pub tell_host : DeviceId → String → W (Unit {0})
  tell_host target password l = elim (l.app.device_online target) [
    | none ↦ (inr tt, l)
    | some host ↦ send_if_open host (unattended_password_updated password) l
  ]

  unfoldable pub on_set_unattended_password : Draws → DeviceId → String → W (Unit {0})
  on_set_unattended_password draws target password = do
    account_id ← require_auth
    found ← ask (find_device target)
    device ← or_bail found "unknown device"
    (if device.account_id == account_id then done tt else bail (said "not your device"))
    hash ← hashed (hash_password ext.argon draws.salt password)
    ask (set_unattended_password_hash target hash)
    tell_host target password

  unfoldable pub handle_message : Draws → ClientMessage → W (Unit {0})
  handle_message draws (register email password) = on_register draws email password
  handle_message draws (login email password) = on_login draws email password
  handle_message draws (register_device name) = on_register_device draws name
  handle_message draws list_devices = on_list_devices
  handle_message draws (request_connection target credential) =
      on_request_connection draws target credential
  handle_message draws (Protocol.ClientMessage.sdp_offer session_id sdp) =
      relay conn_id session_id (Protocol.ServerMessage.sdp_offer session_id sdp)
  handle_message draws (Protocol.ClientMessage.sdp_answer session_id sdp) =
      relay conn_id session_id (Protocol.ServerMessage.sdp_answer session_id sdp)
  handle_message draws (Protocol.ClientMessage.ice_candidate session_id candidate) =
      relay conn_id session_id (Protocol.ServerMessage.ice_candidate session_id candidate)
  handle_message draws request_turn_credentials = on_request_turn_credentials draws
  handle_message draws (set_unattended_password target password) =
      on_set_unattended_password draws target password
