-- ===== src/Client/Controller.antt =====
-- visuara-client/src/controller.rs: what the controller does with each message of the signaling server,
-- from its request for a connection on. WebRTC is a parameter (`Peer`).
-- The candidates that the controller itself sends once it is connected are not here.
pub mod Candidates
pub mod Channel
pub mod Video
mod Tests
use visuara.Prelude.{
  ◌≡◌, Bool, true, false, List, [], ◌∷◌, ◌++◌, Option, none, some, String, str_eq, if◌then◌else◌,
}
use visuara.Protocol.{SessionId, ClientMessage, ServerMessage, connection_established}
use visuara.Protocol
use visuara.Client.Host.{IceServer}

-- What the code calls of the WebRTC library: whether the peer connection can be built with ICE servers,
-- its SDP offer, whether a candidate decodes, whether `add_ice_candidate` succeeds, with a remote
-- description set or without - without one it never does -, and whether an SDP answer parses and is
-- accepted.
pub record Peer : Type 0 where
  pub builds : List IceServer → Bool
  pub offer : Option String
  pub decodes : String → Bool
  pub accepts : Bool → String → Bool
  pub accepts_needs_remote : (candidate : String) → accepts false candidate ≡ false
  pub takes : String → Bool

-- Where `connect` is: before the session, before the answer to its offer, returned, or ended by an
-- error. Once it has returned, a task goes on reading messages.
pub data Stage : Type 0 where
  wants_session : List IceServer → Stage
  wants_answer connected : SessionId → Stage
  failed : Stage

-- The stage, and the candidates that the peer connection was given.
pub record Negotiation : Type 0 where
  pub stage : Stage
  pub candidates : List String

abbrev pub to_stage : Stage → Negotiation → Negotiation
to_stage stage n = record n { stage = stage }

add_candidate : String → Negotiation → Negotiation
add_candidate candidate n = record n { candidates = n.candidates ++ candidate ∷ [] }

offered : SessionId → Option String → Stage × List ClientMessage
offered session_id none = (failed, [])
offered session_id (some sdp) =
    (wants_answer session_id, Protocol.ClientMessage.sdp_offer session_id sdp ∷ [])

-- The session is there: the peer connection is built, and the offer sent.
unfoldable pub on_wants_session : Peer → List IceServer → ServerMessage → Stage × List ClientMessage
unfolding offered
on_wants_session peer servers (connection_established session_id target) =
    if peer.builds servers then offered session_id peer.offer else (failed, [])
on_wants_session peer servers _ = (failed, [])

-- A message while the answer is awaited, which is the remote description: a candidate that does not
-- decode, or is refused, is an error.
unfoldable pub on_wants_answer : Peer → SessionId → ServerMessage → Negotiation → Negotiation
unfolding add_candidate
on_wants_answer peer session_id (Protocol.ServerMessage.sdp_answer s sdp) n =
    if str_eq s session_id
    then to_stage (if peer.takes sdp then connected session_id else failed) n
    else n
on_wants_answer peer session_id (Protocol.ServerMessage.ice_candidate s candidate) n =
    if str_eq s session_id
    then (if peer.decodes candidate
        then (if peer.accepts false candidate then add_candidate candidate n else to_stage failed n)
        else to_stage failed n)
    else n
on_wants_answer peer session_id _ n = n

-- A message to the task that goes on: a candidate that does not decode, or is refused, is dropped.
unfoldable pub on_connected : Peer → SessionId → ServerMessage → Negotiation → Negotiation
unfolding add_candidate
on_connected peer session_id (Protocol.ServerMessage.ice_candidate s candidate) n =
    if str_eq s session_id
    then (if peer.decodes candidate
        then (if peer.accepts true candidate then add_candidate candidate n else n)
        else n)
    else n
on_connected peer session_id _ n = n

after_session : Stage × List ClientMessage → Negotiation → Negotiation × List ClientMessage
after_session (stage, sent) n = (to_stage stage n, sent)

receive_at : Peer → Stage → ServerMessage → Negotiation → Negotiation × List ClientMessage
receive_at peer (wants_session servers) m n = after_session (on_wants_session peer servers m) n
receive_at peer (wants_answer session_id) m n = (on_wants_answer peer session_id m n, [])
receive_at peer (connected session_id) m n = (on_connected peer session_id m n, [])
receive_at peer failed m n = (n, [])

-- One message from the server: what the controller is after it, and what it sends.
unfoldable pub receive_message :
    Peer → ServerMessage → Negotiation → Negotiation × List ClientMessage
unfolding receive_at after_session
receive_message peer m n = receive_at peer n.stage m n

unfoldable pub negotiate : Peer → List ServerMessage → Negotiation → Negotiation
negotiate peer [] n = n
negotiate peer (m ∷ ms) n = negotiate peer ms (receive_message peer m n).0
