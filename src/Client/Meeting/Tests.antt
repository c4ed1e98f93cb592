-- ===== src/Client/Meeting/Tests.antt =====
-- A controller and a host that meet on a server with one device.
use visuara.Prelude.{◌≡◌, refl, true, none, some, [], ◌∷◌, str_eq, find?, if◌then◌else◌}
use visuara.Protocol.{
  one_time_password, request_connection, ServerMessage, connection_established, auth_ok,
}
use visuara.Protocol
use visuara.Db.{DeviceRow, map_device_row}
use visuara.Ws.{credential_ok}
use visuara.Ws.Types.{authenticated}
use visuara.Ws.Hub.{World, deliver}
use visuara.Client.Host.{waiting, streaming}
use visuara.Client.Controller.{wants_session, connected}
use visuara.Client.Meeting.{Peers, host_turn, controller_turn, take_turns}
use visuara.Client.Meeting.Relayed.{open_with}
use visuara.Client.Meeting.Requested.{Ready}
use visuara.Client.Meeting.Session.{take_turns-connected}
use visuara.Fixtures.{idle, ext, draws, new_db, no_tables}

abbrev desk : DeviceRow
desk = record { id = "d1"; account_id = 7; name = "desk"; unattended_password_hash = none }

abbrev pair : Peers
pair = record {
  host = "h";
  controller = "c";
  host_peer = record {
    builds = λ servers. true;
    answer_to = λ sdp. some "answer";
    decodes = λ candidate. true;
    accepts = λ remote candidate. remote;
    accepts_needs_remote = λ candidate. refl;
  };
  controller_peer = record {
    builds = λ servers. true;
    offer = some "offer";
    decodes = λ candidate. true;
    accepts = λ remote candidate. remote;
    accepts_needs_remote = λ candidate. refl;
    takes = λ sdp. true;
  };
}

abbrev met : World
met = record {
  app = record idle {
    db = record new_db { tables = record no_tables { devices = desk ∷ [] } };
    connections = λ c.
        if str_eq "c" c
        then some (open_with (auth_ok "t" ∷ []))
        else if str_eq "h" c
        then some (open_with [])
        else none;
    device_online = λ d. if str_eq "d1" d then some "h" else none;
    otp = λ d. if str_eq "d1" d then some "pw" else none;
  };
  tasks = λ c.
      if str_eq "c" c
      then some (record { conn_state = authenticated 7; my_device_id = none })
      else if str_eq "h" c
      then some (record { conn_state = authenticated 7; my_device_id = some "d1" })
      else none;
}

found : find? (λ d. str_eq d.id "d1") met.app.db.tables.devices ≡ some desk
unfolding find?
found = refl

opens :
    credential_ok ext.argon met.app.otp "d1" (map_device_row desk) (one_time_password "pw") ≡ true
unfolding credential_ok
opens = refl

abbrev ready : Ready ext "c" "h" "d1" (one_time_password "pw") (auth_ok "t" ∷ []) [] met
ready = record {
  account_id = 7;
  controller_task = record { conn_state = authenticated 7; my_device_id = none };
  host_task = record { conn_state = authenticated 7; my_device_id = some "d1" };
  row = desk;
  controller_runs = refl;
  host_runs = refl;
  logged_in = refl;
  controller_hears = refl;
  host_hears = refl;
  fine = refl;
  known = found;
  online = refl;
  opens = opens;
}

take_turns-connected_example :
    let m =
      take_turns ext pair
        (host_turn draws
          ∷ host_turn draws
          ∷ controller_turn draws
          ∷ host_turn draws
          ∷ controller_turn draws
          ∷ [])
        (record {
          world = deliver ext "c" draws (request_connection "d1" (one_time_password "pw")) met;
          phase = waiting;
          host_read = 0;
          negotiation = record { stage = wants_session []; candidates = [] };
          controller_read = 1;
        }) in
    (m.phase ≡ streaming "s1")
    × (m.negotiation.stage ≡ connected "s1")
    × (m.world.app.connections "c"
        ≡ some (
            open_with (
              Protocol.ServerMessage.sdp_answer "s1" "answer"
              ∷ connection_established "s1" "d1"
              ∷ auth_ok "t"
              ∷ [])))
take_turns-connected_example =
    take_turns-connected ext pair "d1" (one_time_password "pw") (auth_ok "t" ∷ []) [] met draws
      draws draws draws draws draws [] "offer" "answer" refl refl ready (λ l. refl) refl refl refl
      refl
