-- ===== src/Ws/Arms.antt =====
-- What each message keeps, for a property of which it changes nothing but what its steps change.
use visuara.Prelude.{inl, inr, Option, none, some, String, ◌==◌, Option-cases}
use visuara.Protocol.{DeviceId, SessionId, ConnectCredential, ServerMessage}
use visuara.Auth.{hash_password, verify_password}
use visuara.Db.{
  ok, err, registration_enabled, find_account_by_email, list_devices_for_account, find_device,
  set_unattended_password_hash,
}
use visuara.Session.{create_account_and_maybe_bootstrap_admin}
use visuara.State.{ConnectionId, other}
use visuara.Api.Auth.{enabled_or_true}
use visuara.Ws.{
  set_state, hashed, relay, credential_ok, on_register, on_login, on_list_devices, establish,
  on_request_connection, tell_host, on_set_unattended_password,
}
use visuara.Ws.Types.{ConnState, authenticated, Local, External, Draws, send}
use visuara.Ws.Keeps
use visuara.Ws.Keeps.{
  Keeps, bind_at, bind-Keeps, then-Keeps, if-Keeps, or_bail-Keeps, require_auth-Keeps, on_db-Keeps,
  ask-Keeps, send_to-Keeps, send-Keeps, send_if_open-Keeps,
}

-- Who the connection is logged in as makes no difference to `Q`.
abbrev pub Stated : (Local → Type 0) → Type 0
Stated Q =
    (l : Local) (c : ConnState) → Q l → Q (record l { task = record l.task { conn_state = c } })

module _ (Q : Local → Type 0) (free : Keeps.Free Q) (heard : Keeps.Heard Q)
    (conn_id : ConnectionId) where
  pub send_here : (c : ConnectionId) (msg : ServerMessage) → Keeps Q (send c msg)
  send_here c msg = send-Keeps Q heard c msg

  pub hashed-Keeps : (o : Option String) → Keeps Q (hashed o)
  hashed-Keeps none l q = q
  hashed-Keeps (some h) l q = q

  pub relay-Keeps :
      (session_id : SessionId) (msg : ServerMessage) → Keeps Q (relay conn_id session_id msg)
  unfolding relay
  relay-Keeps session_id msg l q = elim (Option-cases (l.app.sessions session_id)) [
    | inl gone ↦ rw (gone, relay) q
    | inr (peers, known) ↦ elim (Option-cases (other peers conn_id)) [
      | inl outside ↦ rw (known, outside, relay) q
      | inr (peer, inside) ↦ elim (Option-cases (l.app.connections peer)) [
        | inl left ↦ rw (known, inside, left, relay) q
        | inr (tx, there) ↦
            rw (known, inside, there, relay) (send_to-Keeps Q heard peer tx msg l there q)
      ]
    ]
  ]

  module _ (ext : External) (draws : Draws) where
    pub tell_host-Keeps :
        (target : DeviceId) (password : String) → Keeps Q (tell_host ext conn_id target password)
    unfolding tell_host
    tell_host-Keeps target password l q = elim (Option-cases (l.app.device_online target)) [
      | inl offline ↦ rw (offline, tell_host) q
      | inr (host, online) ↦ rw (online, tell_host) (send_if_open-Keeps Q heard host _ l q)
    ]

    pub on_set_unattended_password-Keeps :
        (target : DeviceId) (password : String)
        → Keeps Q (on_set_unattended_password ext conn_id draws target password)
    unfolding on_set_unattended_password
    on_set_unattended_password-Keeps target password =
        bind-Keeps Q _ _ (require_auth-Keeps Q) λ account_id.
          bind-Keeps Q _ _ (ask-Keeps Q free (find_device target)) λ found.
            bind-Keeps Q _ _ (or_bail-Keeps Q found "unknown device") λ device.
              then-Keeps Q _ _
                (if-Keeps Q (device.account_id == account_id) _ _ (λ l q. q) (λ l q. q))
                (bind-Keeps Q _ _ (hashed-Keeps (hash_password ext.argon draws.salt password))
                  λ hash.
                    then-Keeps Q _ _ (ask-Keeps Q free (set_unattended_password_hash target hash))
                      (tell_host-Keeps target password))

    pub on_list_devices-Keeps : Keeps Q (on_list_devices ext conn_id)
    unfolding on_list_devices
    on_list_devices-Keeps = bind-Keeps Q _ _ (require_auth-Keeps Q) λ account_id.
        bind-Keeps Q _ _ (ask-Keeps Q free (list_devices_for_account account_id))
          λ devices l. send_here conn_id _ l

    pub on_request_connection-Keeps :
        (target : DeviceId) (credential : ConnectCredential)
        → Keeps Q (establish ext conn_id draws target)
        → Keeps Q (on_request_connection ext conn_id draws target credential)
    unfolding on_request_connection
    on_request_connection-Keeps target credential h =
        bind-Keeps Q _ _ (require_auth-Keeps Q) λ account_id.
          bind-Keeps Q _ _ (ask-Keeps Q free (find_device target)) λ found.
            bind-Keeps Q _ _ (or_bail-Keeps Q found "unknown device") λ device l.
              if-Keeps Q (credential_ok ext.argon l.app.otp target device credential) _ _ h
                (send_here conn_id _) l

    module _ (stated : Stated Q) where
      pub set_state-Keeps : (c : ConnState) → Keeps Q (set_state c)
      unfolding set_state
      set_state-Keeps c l q = stated l c q

      pub on_register-Keeps :
          (email password : String) → Keeps Q (on_register ext conn_id draws email password)
      unfolding on_register
      on_register-Keeps email password =
          bind-Keeps Q _ _ (on_db-Keeps Q free registration_enabled) λ enabled.
            if-Keeps Q (enabled_or_true enabled) _ _
              (bind-Keeps Q _ _ (hashed-Keeps (hash_password ext.argon draws.salt password)) λ hash.
                bind-Keeps Q _ _
                  (on_db-Keeps Q free (create_account_and_maybe_bootstrap_admin email hash))
                  (elim [
                    | ok made ↦
                        then-Keeps Q _ _ (set_state-Keeps (authenticated made.0))
                          (send_here conn_id _)
                    | err e ↦ send_here conn_id _
                  ]))
              (send_here conn_id _)

      pub on_login-Keeps :
          (email password : String) → Keeps Q (on_login ext conn_id draws email password)
      unfolding on_login
      on_login-Keeps email password =
          bind-Keeps Q _ _ (ask-Keeps Q free (find_account_by_email email)) (elim [
            | some account ↦
                if-Keeps Q (verify_password ext.argon password account.password_hash) _ _
                  (then-Keeps Q _ _ (set_state-Keeps (authenticated account.id))
                    (send_here conn_id _))
                  (send_here conn_id _)
            | none ↦ send_here conn_id _
          ])
