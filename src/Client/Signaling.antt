-- ===== src/Client/Signaling.antt =====
-- visuara-client/src/signaling_client.rs, and what host.rs, controller.rs and dashboard.rs say to the
-- signaling server before a session: scripts of messages to send and to wait for. A connection that
-- breaks ends a script, as does `bail!`.
pub mod Talk
pub mod Granted
pub mod Login
mod Tests
use visuara.Prelude.{List, [], ◌∷◌, String}
use visuara.Protocol.{
  DeviceId, SessionId, ConnectCredential, ClientMessage, register, login, register_device,
  request_turn_credentials, request_connection, set_unattended_password, ServerMessage, auth_ok,
  auth_error, device_registered, connection_established,
}
use visuara.Client.Host.{IceServer, ice_servers_of}

pub data Script (A : Type 0) : Type 0 where
  finished : A → Script A
  failed : Script A
  sending : ClientMessage → Script A → Script A
  receiving : (ServerMessage → Script A) → Script A

unfoldable pub then : {A B : Type 0} → Script A → (A → Script B) → Script B
then (finished a) f = f a
then failed f = failed
then (sending m s) f = sending m (then s f)
then (receiving s) f = receiving (λ m. then (s m) f)

expect_login : ServerMessage → Script (Unit {0})
expect_login (auth_ok token) = finished tt
expect_login _ = failed

registered : String → String → ServerMessage → Script (Unit {0})
registered email password (auth_ok token) = finished tt
registered email password (auth_error why) = sending (login email password) (receiving expect_login)
registered email password _ = failed

-- An account is registered, and if that is refused, logged in to.
unfoldable pub authenticate : String → String → Script (Unit {0})
unfolding registered expect_login
authenticate email password =
    sending (register email password) (receiving (registered email password))

pub record HostHandle : Type 0 where
  pub device_id : DeviceId
  pub one_time_password : String

expect_device : ServerMessage → Script HostHandle
expect_device (device_registered id otp) =
    finished (record { device_id = id; one_time_password = otp })
expect_device _ = failed

-- `register_and_serve` up to its handle.
unfoldable pub enroll : String → String → String → Script HostHandle
unfolding expect_device
enroll email password device_name =
    then (authenticate email password)
      (λ _. sending (register_device device_name) (receiving expect_device))

expect_session : List IceServer → ServerMessage → Script (SessionId × List IceServer)
expect_session servers (connection_established session_id target) = finished (session_id, servers)
expect_session servers _ = failed

-- `controller::connect` up to the session and the ICE servers for it.
unfoldable pub connect :
    String → String → DeviceId → ConnectCredential → Script (SessionId × List IceServer)
unfolding expect_session
connect email password target_device_id credential = then (authenticate email password) (λ _.
    sending request_turn_credentials (
      receiving (λ turn.
        sending (request_connection target_device_id credential)
          (receiving (expect_session (ice_servers_of turn))))))

logged_in : DeviceId → String → ServerMessage → Script (Unit {0})
logged_in target_device_id password (auth_ok token) =
    sending (set_unattended_password target_device_id password) (finished tt)
logged_in target_device_id password _ = failed

-- `set_unattended_password`: it does not wait for the answer.
unfoldable pub change_password : String → String → DeviceId → String → Script (Unit {0})
unfolding logged_in
change_password email password target_device_id unattended =
    sending (login email password) (receiving (logged_in target_device_id unattended))
