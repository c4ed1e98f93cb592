-- ===== src/Client/Meeting.antt =====
-- A controller, a host and the signaling server together: controller.rs, host.rs and ws.rs. Each peer
-- reads the messages of its connection in their order, and the server handles what it sends.
pub mod Relayed
pub mod Requested
pub mod Turns
pub mod Session
mod Tests
use visuara.Prelude.{ℕ, suc, List, [], ◌∷◌, Option, none, some}
use visuara.Protocol.{ClientMessage, ServerMessage}
use visuara.State.{ConnectionId}
use visuara.Ws.Types.{External, Draws}
use visuara.Ws.Hub.{World, deliver}
use visuara.Client.Host
use visuara.Client.Host.{Phase}
use visuara.Client.Controller
use visuara.Client.Controller.{Negotiation}
use visuara.Client.Signaling.Talk.{unread_of}

-- The connections of the two peers, and the WebRTC library of each.
pub record Peers : Type 0 where
  pub host : ConnectionId
  pub controller : ConnectionId
  pub host_peer : Host.Peer
  pub controller_peer : Controller.Peer

-- The server, where each peer is, and how many messages it has read.
pub record Meeting : Type 0 where
  pub world : World
  pub phase : Phase
  pub host_read : ℕ
  pub negotiation : Negotiation
  pub controller_read : ℕ

pub deliver_each : External → ConnectionId → Draws → List ClientMessage → World → World
deliver_each ext conn_id d [] w = w
deliver_each ext conn_id d (m ∷ ms) w = deliver_each ext conn_id d ms (deliver ext conn_id d m w)

-- A peer with no message to read stays as it is.
host_reads : External → Peers → Draws → Option ServerMessage → Meeting → Meeting
unfolding deliver_each
host_reads ext peers d none m = m
host_reads ext peers d (some msg) m =
    let (phase, sent) = Host.receive_message peers.host_peer m.phase msg in
    record m {
      world = deliver_each ext peers.host d sent m.world;
      phase = phase;
      host_read = suc m.host_read;
    }

controller_reads : External → Peers → Draws → Option ServerMessage → Meeting → Meeting
unfolding deliver_each
controller_reads ext peers d none m = m
controller_reads ext peers d (some msg) m =
    let (negotiation, sent) = Controller.receive_message peers.controller_peer msg m.negotiation in
    record m {
      world = deliver_each ext peers.controller d sent m.world;
      negotiation = negotiation;
      controller_read = suc m.controller_read;
    }

-- A turn of a peer: it reads the oldest message that it has not read, with the draws that the server
-- makes for what it sends.
pub data Turn : Type 0 where
  host_turn controller_turn : Draws → Turn

pub take_turn : External → Peers → Turn → Meeting → Meeting
unfolding host_reads controller_reads
take_turn ext peers (host_turn d) m =
    host_reads ext peers d (unread_of m.host_read (m.world.app.connections peers.host)) m
take_turn ext peers (controller_turn d) m =
    controller_reads ext peers d
      (unread_of m.controller_read (m.world.app.connections peers.controller)) m

unfoldable pub take_turns : External → Peers → List Turn → Meeting → Meeting
unfolding take_turn
take_turns ext peers [] m = m
take_turns ext peers (t ∷ ts) m = take_turns ext peers ts (take_turn ext peers t m)
