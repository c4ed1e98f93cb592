-- ===== src/Ws/Tests.antt =====
-- Two connections on a new server.
use visuara.Prelude.{◌≡◌, ◌≢◌, ◌⊎◌, ◌↔◌, refl, inl, inr, true, [], none, some, String}
use visuara.Protocol.{
  login, set_unattended_password, DeviceId, register_device, list_devices, one_time_password,
  request_connection,
}
use visuara.Protocol
use visuara.Auth.{generate_one_time_password}
use visuara.Db.{Device}
use visuara.State.{AppState, Channel, insert}
use visuara.Ws.{credential_ok, own_device, on_register_device, handle_message, modify}
use visuara.Ws.Types.{
  unauthenticated, authenticated, Local, WsError, said, ◌>>=◌, ◌>>◌, send, send_to, require_auth,
}
use visuara.Ws.Hub.{World, opened, step, end_socket, Reachable, start, next}
use visuara.Ws.Presence.{Present, device_of}
use visuara.Ws.Reach.{Reachable-Present, end_socket-offline}
use visuara.Ws.Login.{LoggedIn, handle_message-LoggedIn}
use visuara.Ws.Owners.{SetByOwner, handle_message-SetByOwner}
use visuara.Ws.Relay.{Reaches, handed, handle_message-Relays}
use visuara.Ws.Guards.{handle_message-unauthenticated}
use visuara.Ws.Sessions.{Opens, handle_message-Established}
use visuara.Ws.Passwords.{on_register_device-credential_ok}
use visuara.Session.{Headers}
use visuara.Api.Router.{delete_own_device, serve}
use visuara.Ws.Served.{serve-Present}
use visuara.Fixtures.{plain, idle, ext, draws}

abbrev silent : Channel
silent = record { receiving = true; sent = [] }

-- Two open connections that share a session.
abbrev two_peers : AppState
two_peers = record idle {
  connections = insert "c1" silent (insert "c2" silent idle.connections);
  sessions = insert "s1" (record { a = "c1"; b = "c2" }) idle.sessions;
}

abbrev guest : Local
guest = record {
  app = two_peers;
  task = record { conn_state = unauthenticated; my_device_id = none };
}

abbrev member : Local
member = record {
  app = two_peers;
  task = record { conn_state = authenticated 1; my_device_id = none };
}

abbrev owner : Local
owner = record {
  app = two_peers;
  task = record { conn_state = authenticated 1; my_device_id = some "d1" };
}

abbrev anonymous : Headers
anonymous = record { cookie = none; user_agent = none }

abbrev one_open : World
one_open = step ext (opened "c1") (record { app = idle; tasks = λ c. none })

one_open-Reachable : Reachable ext one_open
one_open-Reachable = next (opened "c1") _ (start idle (λ c. refl) (λ d. refl) (λ d. refl)) refl

Reachable-Present_example : Present one_open.app one_open.tasks
Reachable-Present_example = Reachable-Present ext one_open one_open-Reachable

serve-Present_example :
    Present (serve ext.argon anonymous (delete_own_device "d1") one_open.app).1 one_open.tasks
serve-Present_example =
    serve-Present ext anonymous (delete_own_device "d1") one_open one_open-Reachable

end_socket-offline_example :
    ((d : DeviceId) → (end_socket "c1" one_open).app.device_online d ≢ some "c1")
    × ((d : DeviceId)
        → device_of (one_open.tasks "c1") ≡ some d
        → ((end_socket "c1" one_open).app.device_online d ≡ none)
          × ((end_socket "c1" one_open).app.otp d ≡ none))
end_socket-offline_example = end_socket-offline ext "c1" one_open one_open-Reachable

handle_message-Relays_example :
    ((Reaches "c1" "s1" guest → ⊥)
      × ((e : WsError) × (handle_message ext "c1" draws
              (Protocol.ClientMessage.sdp_offer "s1" "sdp")
              guest
            ≡ (inl e, guest))))
    ⊎ ((to : Reaches "c1" "s1" guest) × (handle_message ext "c1" draws
            (Protocol.ClientMessage.sdp_offer "s1" "sdp")
            guest
          ≡ (inr tt, handed to.peer to.tx (Protocol.ServerMessage.sdp_offer "s1" "sdp") guest)))
handle_message-Relays_example =
    handle_message-Relays ext "c1" draws (Protocol.ClientMessage.sdp_offer "s1" "sdp") guest "s1"
      (Protocol.ServerMessage.sdp_offer "s1" "sdp") refl

handle_message-unauthenticated_example :
    handle_message ext "c1" draws list_devices guest ≡ (inl (said "not authenticated"), guest)
handle_message-unauthenticated_example =
    handle_message-unauthenticated ext "c1" draws list_devices guest refl refl

handle_message-Established_example :
    Opens ext "c1" draws member (request_connection "d1" (one_time_password "1234 5678"))
handle_message-Established_example =
    handle_message-Established ext "c1" draws
      (request_connection "d1" (one_time_password "1234 5678")) member

owner-registers : (on_register_device ext "c1" draws "laptop" owner).0 ≡ inr tt
unfolding on_register_device own_device require_auth send send_to modify ◌>>=◌ ◌>>◌
owner-registers = refl

on_register_device-credential_ok_example :
    let after = (on_register_device ext "c1" draws "laptop" owner).1 in
    (id : DeviceId) × ((after.task.my_device_id ≡ some id)
      × ((after.app.device_online id ≡ some "c1")
          × ((device : Device) (given : String)
              → (credential_ok plain after.app.otp id device (one_time_password given) ≡ true)
                ↔ (given ≡ generate_one_time_password 1234 5678))))
on_register_device-credential_ok_example =
    on_register_device-credential_ok ext "c1" draws "laptop" owner owner-registers

handle_message-LoggedIn_example :
    let after = (handle_message ext "c1" draws (login "ann@example.org" "pw") guest).1 in
    (after.task ≡ guest.task) ⊎ LoggedIn ext "ann@example.org" "pw" guest after
handle_message-LoggedIn_example =
    handle_message-LoggedIn ext "c1" draws "ann@example.org" "pw" guest

handle_message-SetByOwner_example :
    let after = (handle_message ext "c1" draws (set_unattended_password "d1" "pw") member).1 in
    (after.app.db.tables ≡ member.app.db.tables) ⊎ SetByOwner ext draws "d1" "pw" member after
handle_message-SetByOwner_example = handle_message-SetByOwner ext "c1" draws "d1" "pw" member
