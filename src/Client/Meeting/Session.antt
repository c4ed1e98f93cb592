-- ===== src/Client/Meeting/Session.antt =====
-- A session from the request for it to the answer: controller.rs, host.rs and ws.rs.
use visuara.Prelude.{
  ℕ, suc, ◌≡◌, refl, ap, ◌∙◌, true, false, List, [], ◌∷◌, some, none, String, str_eq, length,
}
use visuara.Protocol.{
  DeviceId, SessionId, ConnectCredential, request_connection, request_turn_credentials,
  ServerMessage, incoming_connection, connection_established, turn_credentials,
}
use visuara.Protocol
use visuara.Turn.{mint_credentials}
use visuara.Ws.Types.{External, Draws}
use visuara.Ws.Hub.{World, deliver}
use visuara.Client.Host.{IceServer, Phase, waiting, asked_turn, wants_offer, streaming}
use visuara.Client.Controller.{Negotiation, wants_session, wants_answer, connected}
use visuara.Client.Meeting.{
  Peers, Meeting, host_turn, controller_turn, deliver_each, take_turn, take_turns,
}
use visuara.Client.Meeting.Relayed.{
  InSession, open_with, posted, controller_to_host, host_to_controller, host_to_host, deliver-offer,
  deliver-answer, deliver-turn,
}
use visuara.Client.Meeting.Requested.{Ready, requested-InSession}
use visuara.Client.Meeting.Turns.{
  host_turn_lem, controller_turn_lem, host_asks, host_builds, host_replies, controller_offers,
  controller_takes,
}

abbrev at : World → Phase → ℕ → Negotiation → ℕ → Meeting
at w phase host_read negotiation controller_read = record {
  world = w;
  phase = phase;
  host_read = host_read;
  negotiation = negotiation;
  controller_read = controller_read;
}

-- The turns from the announcement of a session on.
module _ (ext : External) (peers : Peers) (s : SessionId) (target : DeviceId)
    (cs hs : List ServerMessage) (w₀ : World) (d₁ d₂ d₃ d₄ d₅ : Draws) (servers : List IceServer)
    (sdp answer : String) (apart : str_eq peers.controller peers.host ≡ false)
    (apart' : str_eq peers.host peers.controller ≡ false)
    (i₀ : InSession peers.controller peers.host s
      (connection_established s target ∷ cs)
      (incoming_connection s none ∷ hs)
      w₀)
    (host_built : (l : List IceServer) → peers.host_peer.builds l ≡ true)
    (built : peers.controller_peer.builds servers ≡ true)
    (offers : peers.controller_peer.offer ≡ some sdp)
    (answers : peers.host_peer.answer_to sdp ≡ some answer)
    (takes : peers.controller_peer.takes answer ≡ true) where
  abbrev minted : String × String
  minted = mint_credentials ext.hmac d₁.now_secs w₀.app.turn peers.host 300

  abbrev turn : ServerMessage
  turn = turn_credentials w₀.app.turn.urls minted.0 minted.1 300

  abbrev heard : List ServerMessage
  heard = turn ∷ incoming_connection s none ∷ hs

  abbrev w₁ : World
  w₁ = posted peers.host peers.host i₀.host_task turn (incoming_connection s none ∷ hs) w₀

  i₁ : InSession peers.controller peers.host s (connection_established s target ∷ cs) heard w₁
  i₁ = host_to_host apart apart' i₀ turn

  abbrev offer : ServerMessage
  offer = Protocol.ServerMessage.sdp_offer s sdp

  abbrev w₃ : World
  w₃ = posted peers.controller peers.host i₁.controller_task offer heard w₁

  i₃ :
      InSession peers.controller peers.host s
        (connection_established s target ∷ cs)
        (offer ∷ heard)
        w₃
  i₃ = controller_to_host apart apart' i₁ offer

  abbrev reply : ServerMessage
  reply = Protocol.ServerMessage.sdp_answer s answer

  abbrev w₄ : World
  w₄ =
      posted peers.host peers.controller i₃.host_task reply (connection_established s target ∷ cs)
        w₃

  i₄ :
      InSession peers.controller peers.host s
        (reply ∷ connection_established s target ∷ cs)
        (offer ∷ heard)
        w₄
  i₄ = host_to_controller apart apart' i₃ reply

  abbrev before : Negotiation
  before = record { stage = wants_session servers; candidates = [] }

  abbrev during : Negotiation
  during = record { stage = wants_answer s; candidates = [] }

  abbrev after : Negotiation
  after = record { stage = connected s; candidates = [] }

  abbrev read : ℕ
  read = length hs

  announced_turn :
      take_turn ext peers (host_turn d₁) (at w₀ waiting read before (length cs))
      ≡ at w₁ (asked_turn s) (suc read) before (length cs)
  unfolding deliver_each
  announced_turn =
      host_turn_lem ext peers d₁ (at w₀ waiting read before (length cs))
        (incoming_connection s none) hs i₀.host_hears refl (asked_turn s)
        (request_turn_credentials ∷ []) (host_asks peers.host_peer s)
      ∙ ap (λ w. at w (asked_turn s) (suc read) before (length cs)) (deliver-turn ext apart i₀ d₁)

  credentials_turn :
      take_turn ext peers (host_turn d₂) (at w₁ (asked_turn s) (suc read) before (length cs))
      ≡ at w₁ (wants_offer s) (suc (suc read)) before (length cs)
  unfolding deliver_each
  credentials_turn =
      host_turn_lem ext peers d₂ (at w₁ (asked_turn s) (suc read) before (length cs)) turn
        (incoming_connection s none ∷ hs) i₁.host_hears refl (wants_offer s) []
        (host_builds peers.host_peer s turn host_built)

  offer_turn :
      take_turn ext peers
        (controller_turn d₃)
        (at w₁ (wants_offer s) (suc (suc read)) before (length cs))
      ≡ at w₃ (wants_offer s) (suc (suc read)) during (suc (length cs))
  unfolding deliver_each
  offer_turn =
      controller_turn_lem ext peers d₃ (at w₁ (wants_offer s) (suc (suc read)) before (length cs))
        (connection_established s target) cs i₁.controller_hears refl during
        (Protocol.ClientMessage.sdp_offer s sdp ∷ [])
        (controller_offers peers.controller_peer s target servers sdp built offers)
      ∙ ap (λ w. at w (wants_offer s) (suc (suc read)) during (suc (length cs)))
          (deliver-offer ext apart i₁ d₃ sdp)

  answer_turn :
      take_turn ext peers
        (host_turn d₄)
        (at w₃ (wants_offer s) (suc (suc read)) during (suc (length cs)))
      ≡ at w₄ (streaming s) (suc (suc (suc read))) during (suc (length cs))
  unfolding deliver_each
  answer_turn =
      host_turn_lem ext peers d₄ (at w₃ (wants_offer s) (suc (suc read)) during (suc (length cs)))
        offer heard i₃.host_hears refl (streaming s)
        (Protocol.ClientMessage.sdp_answer s answer ∷ [])
        (host_replies peers.host_peer s sdp answer answers)
      ∙ ap (λ w. at w (streaming s) (suc (suc (suc read))) during (suc (length cs)))
          (deliver-answer ext apart i₃ d₄ answer)

  connected_turn :
      take_turn ext peers
        (controller_turn d₅)
        (at w₄ (streaming s) (suc (suc (suc read))) during (suc (length cs)))
      ≡ at w₄ (streaming s) (suc (suc (suc read))) after (suc (suc (length cs)))
  unfolding deliver_each
  connected_turn =
      controller_turn_lem ext peers d₅
        (at w₄ (streaming s) (suc (suc (suc read))) during (suc (length cs))) reply
        (connection_established s target ∷ cs) i₄.controller_hears refl after []
        (controller_takes peers.controller_peer s answer takes)

  five_turns :
      take_turns ext peers
        (host_turn d₁ ∷ host_turn d₂ ∷ controller_turn d₃ ∷ host_turn d₄ ∷ controller_turn d₅ ∷ [])
        (at w₀ waiting read before (length cs))
      ≡ at w₄ (streaming s) (suc (suc (suc read))) after (suc (suc (length cs)))
  unfolding take_turns
  five_turns =
      ap
        (take_turns ext peers
          (host_turn d₂ ∷ controller_turn d₃ ∷ host_turn d₄ ∷ controller_turn d₅ ∷ []))
        announced_turn
      ∙ ap (take_turns ext peers (controller_turn d₃ ∷ host_turn d₄ ∷ controller_turn d₅ ∷ []))
          credentials_turn
      ∙ ap (take_turns ext peers (host_turn d₄ ∷ controller_turn d₅ ∷ [])) offer_turn
      ∙ ap (take_turns ext peers (controller_turn d₅ ∷ [])) answer_turn
      ∙ connected_turn

  session_made :
      let m =
        take_turns ext peers
          (host_turn d₁
            ∷ host_turn d₂
            ∷ controller_turn d₃
            ∷ host_turn d₄
            ∷ controller_turn d₅
            ∷ [])
          (at w₀ waiting read before (length cs)) in
      (m.phase ≡ streaming s)
      × (m.negotiation.stage ≡ connected s)
      × (m.world.app.connections peers.controller
          ≡ some (open_with (reply ∷ connection_established s target ∷ cs)))
  session_made =
      let e = five_turns in
      (
        ap (λ m. m.phase) e,
        ap (λ m. m.negotiation.stage) e,
        ap (λ m. m.world.app.connections peers.controller) e ∙ i₄.controller_hears,
      )

-- A session comes about: when a controller that is logged in asks for a device that is online with a
-- credential that opens it, the host waits and all messages to both are read, then the turns of the
-- host for the announcement and its TURN credentials, of the controller for the session, of the host
-- for the offer and of the controller for the answer leave the host streaming and the controller
-- connected in the new session, the host's answer having been the last message to the controller. The
-- two connections differ and are open, no call of the database fails, both peer connections can be
-- built, and WebRTC gives the offer, the answer to it, and takes the answer.
pub take_turns-connected :
    (ext : External) (peers : Peers) (target : DeviceId) (credential : ConnectCredential)
    (cs hs : List ServerMessage) (w : World) (d d₁ d₂ d₃ d₄ d₅ : Draws) (servers : List IceServer)
    (sdp answer : String)
    → str_eq peers.controller peers.host ≡ false
    → str_eq peers.host peers.controller ≡ false
    → Ready ext peers.controller peers.host target credential cs hs w
    → ((l : List IceServer) → peers.host_peer.builds l ≡ true)
    → peers.controller_peer.builds servers ≡ true
    → peers.controller_peer.offer ≡ some sdp
    → peers.host_peer.answer_to sdp ≡ some answer
    → peers.controller_peer.takes answer ≡ true
    → let m =
        take_turns ext peers
          (host_turn d₁
            ∷ host_turn d₂
            ∷ controller_turn d₃
            ∷ host_turn d₄
            ∷ controller_turn d₅
            ∷ [])
          (record {
            world = deliver ext peers.controller d (request_connection target credential) w;
            phase = waiting;
            host_read = length hs;
            negotiation = record { stage = wants_session servers; candidates = [] };
            controller_read = length cs;
          }) in
      (m.phase ≡ streaming d.session_id)
      × (m.negotiation.stage ≡ connected d.session_id)
      × (m.world.app.connections peers.controller
          ≡ some (
              open_with (
                Protocol.ServerMessage.sdp_answer d.session_id answer
                ∷ connection_established d.session_id target
                ∷ cs)))
take_turns-connected ext peers target credential cs hs w d d₁ d₂ d₃ d₄ d₅ servers sdp answer apart
      apart' ready host_built built offers answers takes =
    session_made ext peers d.session_id target cs hs _ d₁ d₂ d₃ d₄ d₅ servers sdp answer apart
      apart' (requested-InSession ext apart apart' ready d) host_built built offers answers takes
