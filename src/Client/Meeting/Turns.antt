-- ===== src/Client/Meeting/Turns.antt =====
-- A turn of a peer whose messages are read but for the latest, and what host and controller make of
-- the messages that bring a session about (host.rs, controller.rs).
use visuara.Prelude.{
  ℕ, zero, suc, ◌≡◌, refl, ap, ◌∙◌, true, List, [], ◌∷◌, ◌++◌, Option, some, none, String, eq_refl,
  length, length-append, arith,
}
use visuara.Protocol.{
  DeviceId, SessionId, ConnectCredential, ClientMessage, request_connection,
  request_turn_credentials, ServerMessage, incoming_connection, connection_established,
  turn_credentials,
}
use visuara.Protocol
use visuara.State.{Channel}
use visuara.Ws.Types.{External, Draws}
use visuara.Client.Host
use visuara.Client.Host.{IceServer, Phase, waiting, asked_turn, wants_offer, streaming}
use visuara.Client.Controller
use visuara.Client.Controller.{Negotiation, wants_session, wants_answer, connected}
use visuara.Client.Signaling.Talk.{unread_of, nth, oldest_first}
use visuara.Client.Meeting.{
  Peers, Meeting, host_turn, controller_turn, deliver_each, take_turn, host_reads, controller_reads,
}
use visuara.Client.Meeting.Relayed.{open_with}

nth-last :
    (l : List ServerMessage) (m : ServerMessage) (n : ℕ)
    → n ≡ length l
    → nth n (l ++ m ∷ []) ≡ some m
nth-last [] m zero e = refl
nth-last [] m (suc n) e = absurd (omega arith)
nth-last (x ∷ l) m zero e = absurd (omega arith)
nth-last (x ∷ l) m (suc n) e = nth-last l m n (omega arith)

length-oldest_first : (l : List ServerMessage) → length (oldest_first l) ≡ length l
length-oldest_first [] = refl
length-oldest_first (x ∷ l) =
    omega (arith, length-append (oldest_first l) (x ∷ []), length-oldest_first l)

-- The oldest unread message is the latest, where all before it are read.
unread_latest :
    (sent : List ServerMessage) (m : ServerMessage) (channel : Option Channel) (read : ℕ)
    → channel ≡ some (open_with (m ∷ sent))
    → read ≡ length sent
    → unread_of read channel ≡ some m
unread_latest sent m channel read hears all =
    ap (unread_of read) hears
    ∙ nth-last (oldest_first sent) m read (omega (arith, length-oldest_first sent))

module _ (ext : External) (peers : Peers) (d : Draws) (m : Meeting) (msg : ServerMessage)
    (sent : List ServerMessage) where
  pub host_turn_lem :
      m.world.app.connections peers.host ≡ some (open_with (msg ∷ sent))
      → m.host_read ≡ length sent
      → (phase : Phase) (out : List ClientMessage)
      → Host.receive_message peers.host_peer m.phase msg ≡ (phase, out)
      → take_turn ext peers (host_turn d) m ≡ record m {
        world = deliver_each ext peers.host d out m.world;
        phase = phase;
        host_read = suc m.host_read;
      }
  unfolding take_turn host_reads
  host_turn_lem hears all phase out e =
      ap (λ o. host_reads ext peers d o m)
        (unread_latest sent msg (m.world.app.connections peers.host) m.host_read hears all)
      ∙ ap
          (λ r. record m {
            world = deliver_each ext peers.host d r.1 m.world;
            phase = r.0;
            host_read = suc m.host_read;
          })
          e

  pub controller_turn_lem :
      m.world.app.connections peers.controller ≡ some (open_with (msg ∷ sent))
      → m.controller_read ≡ length sent
      → (negotiation : Negotiation) (out : List ClientMessage)
      → Controller.receive_message peers.controller_peer msg m.negotiation ≡ (negotiation, out)
      → take_turn ext peers (controller_turn d) m ≡ record m {
        world = deliver_each ext peers.controller d out m.world;
        negotiation = negotiation;
        controller_read = suc m.controller_read;
      }
  unfolding take_turn controller_reads
  controller_turn_lem hears all negotiation out e =
      ap (λ o. controller_reads ext peers d o m)
        (unread_latest sent msg (m.world.app.connections peers.controller) m.controller_read hears
          all)
      ∙ ap
          (λ r. record m {
            world = deliver_each ext peers.controller d r.1 m.world;
            negotiation = r.0;
            controller_read = suc m.controller_read;
          })
          e

-- The host at its three messages, and the controller at its two.
pub host_asks :
    (peer : Host.Peer) (s : SessionId)
    → Host.receive_message peer waiting (incoming_connection s none)
      ≡ (asked_turn s, request_turn_credentials ∷ [])
unfolding Host.receive_message Host.on_waiting
host_asks peer s = refl

pub host_builds :
    (peer : Host.Peer) (s : SessionId) (turn : ServerMessage)
    → ((l : List IceServer) → peer.builds l ≡ true)
    → Host.receive_message peer (asked_turn s) turn ≡ (wants_offer s, [])
unfolding Host.receive_message
host_builds peer s turn builds = rw (builds (Host.ice_servers_of turn), Host.receive_message)

pub host_replies :
    (peer : Host.Peer) (s : SessionId) (sdp answer : String)
    → peer.answer_to sdp ≡ some answer
    → Host.receive_message peer (wants_offer s) (Protocol.ServerMessage.sdp_offer s sdp)
      ≡ (streaming s, Protocol.ClientMessage.sdp_answer s answer ∷ [])
unfolding Host.receive_message Host.on_wants_offer
host_replies peer s sdp answer answers = rw (eq_refl s, answers)

pub controller_offers :
    (peer : Controller.Peer) (s : SessionId) (target : DeviceId) (servers : List IceServer)
    (sdp : String)
    → peer.builds servers ≡ true
    → peer.offer ≡ some sdp
    → Controller.receive_message peer
        (connection_established s target)
        (record { stage = wants_session servers; candidates = [] })
      ≡ (
        record { stage = wants_answer s; candidates = [] },
        Protocol.ClientMessage.sdp_offer s sdp ∷ [],
      )
unfolding Controller.receive_message Controller.on_wants_session
controller_offers peer s target servers sdp builds offers = rw (builds, offers)

pub controller_takes :
    (peer : Controller.Peer) (s : SessionId) (answer : String)
    → peer.takes answer ≡ true
    → Controller.receive_message peer
        (Protocol.ServerMessage.sdp_answer s answer)
        (record { stage = wants_answer s; candidates = [] })
      ≡ (record { stage = connected s; candidates = [] }, [])
unfolding Controller.receive_message Controller.on_wants_answer
controller_takes peer s answer takes = rw (eq_refl s, takes)
