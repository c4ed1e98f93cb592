-- ===== src/Ws/Running.antt =====
-- A message leaves the presence tables in order.
use visuara.Prelude.{
  ℕ, ◌≡◌, subst, ap, ◌⊎◌, ◌∙◌, inl, inr, none, some, String, str_eq, eq_iff, Option-cases,
  Bool-cases, arith,
}
use visuara.Protocol.{
  DeviceId, SessionId, ClientMessage, register, login, register_device, list_devices,
  request_connection, request_turn_credentials, set_unattended_password, ConnectCredential,
  ServerMessage,
}
use visuara.Protocol
use visuara.Auth.{generate_device_id}
use visuara.Db.{Result-cases, Db, ok, err, create_device}
use visuara.State.{ConnectionId, Map, insert, other}
use visuara.Ws.{
  set_device, modify, own_device, on_register_device, establish, on_request_turn_credentials,
  handle_message,
}
use visuara.Ws.Types.{
  Task, Local, WsError, database, on_db, External, Draws, ◌>>=◌, ◌>>◌, done, ask,
}
use visuara.Ws.Keeps
use visuara.Ws.Keeps.{
  Keeps, bind_at, bind-Keeps, then-Keeps, if-Keeps, or_bail-Keeps, require_auth-Keeps, on_db-Keeps,
  ask-Keeps, send_to-Keeps, send-Keeps, send_if_open-Keeps,
}
use visuara.Ws.Arms.{
  Stated, relay-Keeps, on_set_unattended_password-Keeps, on_list_devices-Keeps,
  on_request_connection-Keeps, on_register-Keeps, on_login-Keeps,
}
use visuara.Ws.Presence.{Running, Running-Free, Running-Heard, device_of, insert-same}

module _ (conn_id : ConnectionId) (tasks : Map Task) where
  abbrev R : Local → Type 0
  R = Running conn_id tasks

  -- Another state of the same task, whose device is the same if it had one.
  retask :
      (l : Local) (task : Task)
      → ((d : DeviceId) → l.task.my_device_id ≡ some d → task.my_device_id ≡ some d)
      → R l
      → R (record l { task = task })
  retask l task keeps q = record {
    channels = λ c. elim (Bool-cases (str_eq conn_id c)) [
      | inl same ↦ rw same (ground (arith, q.channels c))
      | inr apart ↦ rw apart (ground (arith, q.channels c))
    ];
    passwords = q.passwords;
    owner = λ d c online. elim (Bool-cases (str_eq conn_id c)) [
      | inl same ↦ rw same (keeps d (ground (arith, q.owner d c online)))
      | inr apart ↦ rw apart (ground (arith, q.owner d c online))
    ];
  }

  -- The device of the connection goes online, with a new password.
  announce :
      (l : Local) (id otp : String)
      → l.task.my_device_id ≡ some id
      → R l
      → R (record l {
        app = record l.app {
          device_online = insert id conn_id l.app.device_online;
          otp = insert id otp l.app.otp;
        };
      })
  announce l id otp mine q = record {
    channels = q.channels;
    passwords = λ d. elim (Bool-cases (str_eq id d)) [
      | inl same ↦ rw same
      | inr apart ↦ rw apart (q.passwords d)
    ];
    owner = λ d c online. elim (Bool-cases (str_eq id d)) [
      | inl same ↦
          let there : conn_id ≡ c = ground arith in
          let named : id ≡ d = ground (arith, eq_iff id d) in
          subst (λ j. device_of (insert conn_id l.task tasks j) ≡ some d) there
            (ap device_of (insert-same conn_id l.task tasks) ∙ mine ∙ ap (λ i. some i) named)
      | inr apart ↦ q.owner d c (ground arith)
    ];
  }

  free : Keeps.Free R
  free = Running-Free conn_id tasks

  heard : Keeps.Heard R
  heard = Running-Heard conn_id tasks

  stated : Stated R
  stated l c q = retask l _ (λ d e. e) q

  module _ (ext : External) (draws : Draws) where
    establish-Running : (target : DeviceId) → Keeps R (establish ext conn_id draws target)
    unfolding establish modify
    establish-Running target l q = elim (Option-cases (l.app.device_online target)) [
      | inl offline ↦ rw (offline, establish) q
      | inr (host, online) ↦
          rw (online, establish)
            (then-Keeps R _ _
              (λ k p. record { channels = p.channels; passwords = p.passwords; owner = p.owner })
              (then-Keeps R _ _ (send_if_open-Keeps R heard host _) (send-Keeps R heard conn_id _))
              l q)
    ]

    abbrev drawn_id : DeviceId
    drawn_id = generate_device_id draws.device_1 draws.device_2 draws.device_3

    -- The device row of the connection is there, or its insertion failed.
    own_device-fresh :
        (account_id : ℕ) (name : String) (l : Local)
        → l.task.my_device_id ≡ none
        → let (r, db') = create_device drawn_id account_id name l.app.db in
          own_device ext conn_id draws account_id name l
          ≡ elim r as (λ _. (WsError ⊎ DeviceId) × Local) [
            | ok done ↦ (
              inr drawn_id,
              record l {
                app = record l.app { db = db' };
                task = record l.task { my_device_id = some drawn_id };
              },
            )
            | err e ↦ (inl (database e), record l { app = record l.app { db = db' } })
          ]
    unfolding own_device set_device ask on_db ◌>>=◌ ◌>>◌
    own_device-fresh account_id name l fresh =
        elim (Result-cases (create_device drawn_id account_id name l.app.db).0) [
          | inl (u, made) ↦ rw (fresh, made, own_device)
          | inr (e, failed) ↦ rw (fresh, failed, own_device)
        ]

    -- After `own_device`, the connection has the device.
    pub own_device-mine :
        (account_id : ℕ) (name id : String) (l : Local)
        → (own_device ext conn_id draws account_id name l).0 ≡ inr id
        → (own_device ext conn_id draws account_id name l).1.task.my_device_id ≡ some id
    unfolding own_device
    own_device-mine account_id name id l e = elim (Option-cases l.task.my_device_id) [
      | inl fresh ↦ elim (Result-cases (create_device drawn_id account_id name l.app.db).0) [
        | inl (u, made) ↦ ground (arith, own_device-fresh account_id name l fresh)
        | inr (r, failed) ↦ ground (arith, own_device-fresh account_id name l fresh)
      ]
      | inr (other, mine) ↦ ground arith
    ]

    own_device-Running :
        (account_id : ℕ) (name : String) → Keeps R (own_device ext conn_id draws account_id name)
    unfolding own_device
    own_device-Running account_id name l q = elim (Option-cases l.task.my_device_id) [
      | inl fresh ↦
          let stored : Db = (create_device drawn_id account_id name l.app.db).1 in
          elim (Result-cases (create_device drawn_id account_id name l.app.db).0) [
            | inl (u, made) ↦
                rw (own_device-fresh account_id name l fresh, made)
                  (retask (record l { app = record l.app { db = stored } }) _
                    (λ d has. absurd (ground arith)) (free l stored q))
            | inr (e, failed) ↦
                rw (own_device-fresh account_id name l fresh, failed) (free l stored q)
          ]
      | inr (id, mine) ↦ rw (mine, own_device) q
    ]

    on_register_device-Running :
        (name : String) → Keeps R (on_register_device ext conn_id draws name)
    unfolding on_register_device modify ◌>>◌
    on_register_device-Running name = bind-Keeps R _ _ (require_auth-Keeps R) λ account_id l q.
        bind_at R (own_device ext conn_id draws account_id name) _ l
          (own_device-Running account_id name l q)
          λ id done p.
            bind_at R _ _ (own_device ext conn_id draws account_id name l).1
              (announce _ id _ (own_device-mine account_id name id l done) p)
              λ a e. send-Keeps R heard conn_id _ _

    pub handle_message-Running :
        (msg : ClientMessage) → Keeps R (handle_message ext conn_id draws msg)
    unfolding handle_message on_request_turn_credentials
    handle_message-Running (register email password) =
        on_register-Keeps R free heard conn_id ext draws stated email password
    handle_message-Running (login email password) =
        on_login-Keeps R free heard conn_id ext draws stated email password
    handle_message-Running (register_device name) = on_register_device-Running name
    handle_message-Running list_devices = on_list_devices-Keeps R free heard conn_id ext draws
    handle_message-Running (request_connection target credential) =
        on_request_connection-Keeps R free heard conn_id ext draws target credential
          (establish-Running target)
    handle_message-Running (Protocol.ClientMessage.sdp_offer session_id sdp) =
        relay-Keeps R free heard conn_id session_id _
    handle_message-Running (Protocol.ClientMessage.sdp_answer session_id sdp) =
        relay-Keeps R free heard conn_id session_id _
    handle_message-Running (Protocol.ClientMessage.ice_candidate session_id candidate) =
        relay-Keeps R free heard conn_id session_id _
    handle_message-Running request_turn_credentials = λ l. send-Keeps R heard conn_id _ l
    handle_message-Running (set_unattended_password target password) =
        on_set_unattended_password-Keeps R free heard conn_id ext draws target password
