-- ===== src/Client/Meeting/Relayed.antt =====
-- The messages that the two peers of a session send (visuara-signaling/src/ws.rs).
use visuara.Prelude.{◌≡◌, refl, ap, true, false, List, ◌∷◌, some, String, str_eq, eq_refl, inr}
use visuara.Protocol.{
  DeviceId, SessionId, ConnectCredential, ClientMessage, request_connection,
  request_turn_credentials, ServerMessage, incoming_connection, connection_established,
  turn_credentials,
}
use visuara.Protocol
use visuara.Turn.{mint_credentials}
use visuara.State.{ConnectionId, Channel, SessionPeers, other}
use visuara.Ws.{handle_message, relay, on_request_turn_credentials}
use visuara.Ws.Types.{Local, External, Draws, Task, send_to}
use visuara.Ws.Hub.{World, deliver, store, local}
use visuara.Client.Signaling.Granted.{told, send-told}
use visuara.Client.Signaling.Login.{after_ok}

abbrev pub open_with : List ServerMessage → Channel
open_with sent = record { receiving = true; sent = sent }

-- Two connections in a session, the controller's first, and what was sent to each.
pub record InSession (controller host : ConnectionId) (s : SessionId) (cs hs : List ServerMessage)
    (w : World) : Type 0 where
  pub controller_task : Task
  pub host_task : Task
  pub controller_runs : w.tasks controller ≡ some controller_task
  pub host_runs : w.tasks host ≡ some host_task
  pub controller_hears : w.app.connections controller ≡ some (open_with cs)
  pub host_hears : w.app.connections host ≡ some (open_with hs)
  pub session : w.app.sessions s ≡ some (record { a = controller; b = host })

-- The world after a task has sent one message, to itself or another.
abbrev pub posted :
    ConnectionId → ConnectionId → Task → ServerMessage → List ServerMessage → World → World
posted from to task m sent w = store from w (told to (open_with sent) m (local w task))

module _ {c h : ConnectionId} {s : SessionId} {cs hs : List ServerMessage} {w : World}
    (apart : str_eq c h ≡ false) (apart' : str_eq h c ≡ false) (i : InSession c h s cs hs w)
    (m : ServerMessage) where
  pub controller_to_host : InSession c h s cs (m ∷ hs) (posted c h i.controller_task m hs w)
  controller_to_host = record {
    controller_task = i.controller_task;
    host_task = i.host_task;
    controller_runs = rw (eq_refl c);
    host_runs = rw (apart) i.host_runs;
    controller_hears = rw (apart') i.controller_hears;
    host_hears = rw (eq_refl h);
    session = i.session;
  }

  pub host_to_controller : InSession c h s (m ∷ cs) hs (posted h c i.host_task m cs w)
  host_to_controller = record {
    controller_task = i.controller_task;
    host_task = i.host_task;
    controller_runs = rw (apart') i.controller_runs;
    host_runs = rw (eq_refl h);
    controller_hears = rw (eq_refl c);
    host_hears = rw (apart) i.host_hears;
    session = i.session;
  }

  pub host_to_host : InSession c h s cs (m ∷ hs) (posted h h i.host_task m hs w)
  host_to_host = record {
    controller_task = i.controller_task;
    host_task = i.host_task;
    controller_runs = rw (apart') i.controller_runs;
    host_runs = rw (eq_refl h);
    controller_hears = rw (apart') i.controller_hears;
    host_hears = rw (eq_refl h);
    session = i.session;
  }

pub deliver_ok :
    (ext : External) (conn_id : ConnectionId) (d : Draws) (msg : ClientMessage) (w : World)
    (task : Task) (l : Local)
    → w.tasks conn_id ≡ some task
    → handle_message ext conn_id d msg (local w task) ≡ (inr tt, l)
    → deliver ext conn_id d msg w ≡ store conn_id w l
unfolding deliver
deliver_ok ext conn_id d msg w task l runs e =
    rw (runs, deliver) (ap (store conn_id w) (after_ok ext conn_id d msg (local w task) l e))

relay-told :
    (from to : ConnectionId) (s : SessionId) (out : ServerMessage) (l : Local)
    (peers : SessionPeers) (sent : List ServerMessage)
    → l.app.sessions s ≡ some peers
    → other peers from ≡ some to
    → l.app.connections to ≡ some (open_with sent)
    → relay from s out l ≡ (inr tt, told to (open_with sent) out l)
unfolding relay send_to
relay-told from to s out l peers sent known inside hears = rw (known, inside, hears, relay)

other_of_controller : (c h : ConnectionId) → other (record { a = c; b = h }) c ≡ some h
unfolding other
other_of_controller c h = rw (eq_refl c)

other_of_host :
    (c h : ConnectionId) → str_eq c h ≡ false → other (record { a = c; b = h }) h ≡ some c
unfolding other
other_of_host c h apart = rw (apart, eq_refl h)

module _ (ext : External) {c h : ConnectionId} {s : SessionId} {cs hs : List ServerMessage}
    {w : World} (apart : str_eq c h ≡ false) (i : InSession c h s cs hs w) (d : Draws) where
  -- The offer of the controller goes to the host.
  pub deliver-offer :
      (sdp : String)
      → deliver ext c d (Protocol.ClientMessage.sdp_offer s sdp) w
        ≡ posted c h i.controller_task (Protocol.ServerMessage.sdp_offer s sdp) hs w
  unfolding handle_message
  deliver-offer sdp =
      deliver_ok ext c d (Protocol.ClientMessage.sdp_offer s sdp) w i.controller_task _
        i.controller_runs
        (relay-told c h s (Protocol.ServerMessage.sdp_offer s sdp) (local w i.controller_task) _ hs
          i.session (other_of_controller c h) i.host_hears)

  -- The answer of the host goes to the controller.
  pub deliver-answer :
      (sdp : String)
      → deliver ext h d (Protocol.ClientMessage.sdp_answer s sdp) w
        ≡ posted h c i.host_task (Protocol.ServerMessage.sdp_answer s sdp) cs w
  unfolding handle_message
  deliver-answer sdp =
      deliver_ok ext h d (Protocol.ClientMessage.sdp_answer s sdp) w i.host_task _ i.host_runs (
        relay-told h c s (Protocol.ServerMessage.sdp_answer s sdp) (local w i.host_task) _ cs
          i.session (other_of_host c h apart) i.controller_hears)

  -- The host gets TURN credentials for itself.
  pub deliver-turn :
      let minted = mint_credentials ext.hmac d.now_secs w.app.turn h 300 in
      deliver ext h d request_turn_credentials w
      ≡ posted h h i.host_task (turn_credentials w.app.turn.urls minted.0 minted.1 300) hs w
  unfolding handle_message on_request_turn_credentials
  deliver-turn =
      deliver_ok ext h d request_turn_credentials w i.host_task _ i.host_runs
        (send-told h (open_with hs) _ (local w i.host_task) i.host_hears refl)
