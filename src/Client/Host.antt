-- ===== src/Client/Host.antt =====
-- visuara-client/src/host.rs: what the host does with each message of the signaling server and the other
-- events of its loops, and with each message of the data channel. WebRTC and the agents are parameters (`Peer`, `Agents`).
pub mod Serving
pub mod Answers
pub mod Lost
pub mod Channel
mod Tests
use visuara.Prelude.{
  ◌≡◌, ℕ, Bool, true, false, List, [], ◌∷◌, ◌++◌, Option, none, some, String, str_eq, if◌then◌else◌,
}
use visuara.Protocol.{
  SessionId, ClientMessage, request_turn_credentials, ServerMessage, incoming_connection,
  turn_credentials,
}
use visuara.Protocol

pub record IceServer : Type 0 where
  pub urls : List String
  pub username : String
  pub credential : String

-- What the code calls of the WebRTC library in one connection: whether the peer connection can be built
-- with ICE servers, the SDP answer to an offer, whether a candidate decodes, and whether
-- `add_ice_candidate` succeeds, with a remote description set or without: without one it never does.
pub record Peer : Type 0 where
  pub builds : List IceServer → Bool
  pub answer_to : String → Option String
  pub decodes : String → Bool
  pub accepts : Bool → String → Bool
  pub accepts_needs_remote : (candidate : String) → accepts false candidate ≡ false

-- Where the task of `serve_connections` is: waiting for a connection, in `handle_one_connection` up to
-- the TURN credentials, up to the offer, and after the answer; or ended by an error.
pub data Phase : Type 0 where
  waiting ended : Phase
  asked_turn wants_offer streaming : SessionId → Phase

unfoldable pub ice_servers_of : ServerMessage → List IceServer
ice_servers_of (turn_credentials urls username password ttl) =
    record { urls = urls; username = username; credential = password } ∷ []
ice_servers_of _ = []

-- A candidate, with a remote description set or not: the error of one for the session that does not
-- decode or is not accepted ends the task.
unfoldable pub on_candidate : Peer → Bool → Bool → String → Phase → Phase
on_candidate peer remote same candidate phase =
    if same
    then (if peer.decodes candidate
        then (if peer.accepts remote candidate then phase else ended)
        else ended)
    else phase

answered : SessionId → Option String → Phase × List ClientMessage
answered session_id none = (ended, [])
answered session_id (some sdp) =
    (streaming session_id, Protocol.ClientMessage.sdp_answer session_id sdp ∷ [])

unfoldable pub on_waiting : ServerMessage → Phase × List ClientMessage
on_waiting (incoming_connection session_id from) =
    (asked_turn session_id, request_turn_credentials ∷ [])
on_waiting _ = (waiting, [])

unfoldable pub on_wants_offer : Peer → SessionId → ServerMessage → Phase × List ClientMessage
unfolding answered
on_wants_offer peer session_id (Protocol.ServerMessage.sdp_offer s sdp) =
    if str_eq s session_id
    then answered session_id (peer.answer_to sdp)
    else (wants_offer session_id, [])
on_wants_offer peer session_id (Protocol.ServerMessage.ice_candidate s candidate) =
    (on_candidate peer false (str_eq s session_id) candidate (wants_offer session_id), [])
on_wants_offer peer session_id _ = (wants_offer session_id, [])

-- What the loops of the task wait for: a message of the server; a local candidate, which may fail to
-- encode; an encoded frame, with whether it can be written to the track; a failure of the connection to
-- the server, in reading or sending.
pub data Event : Type 0 where
  received : ServerMessage → Event
  gathered : Option String → Event
  sample : Bool → Event
  disconnected : Event

unfoldable pub on_streaming : Peer → SessionId → Event → Phase × List ClientMessage
on_streaming peer session_id (received (Protocol.ServerMessage.ice_candidate s candidate)) =
    (on_candidate peer true (str_eq s session_id) candidate (streaming session_id), [])
on_streaming peer session_id (received _) = (streaming session_id, [])
on_streaming peer session_id (gathered (some candidate)) =
    (streaming session_id, Protocol.ClientMessage.ice_candidate session_id candidate ∷ [])
on_streaming peer session_id (gathered none) = (ended, [])
on_streaming peer session_id (sample true) = (streaming session_id, [])
on_streaming peer session_id (sample false) = (ended, [])
on_streaming peer session_id disconnected = (ended, [])

-- One message from the server: the phase after it, and what the host sends.
unfoldable pub receive_message : Peer → Phase → ServerMessage → Phase × List ClientMessage
receive_message peer waiting m = on_waiting m
receive_message peer (asked_turn session_id) m =
    (if peer.builds (ice_servers_of m) then wants_offer session_id else ended, [])
receive_message peer (wants_offer session_id) m = on_wants_offer peer session_id m
receive_message peer (streaming session_id) m = on_streaming peer session_id (received m)
receive_message peer ended m = (ended, [])

-- One event before the host streams: only messages are waited for, and local candidates stay in their
-- channel.
unfoldable pub on_other : Peer → Phase → Event → Phase × List ClientMessage
on_other peer phase (received m) = receive_message peer phase m
on_other peer phase disconnected = (ended, [])
on_other peer phase _ = (phase, [])

unfoldable pub on_event : Peer → Phase → Event → Phase × List ClientMessage
on_event peer (streaming session_id) e = on_streaming peer session_id e
on_event peer phase e = on_other peer phase e

unfoldable pub serve_connections : Peer → Phase → List Event → Phase × List ClientMessage
serve_connections peer phase [] = (phase, [])
serve_connections peer phase (e ∷ es) =
    let (next, sent) = on_event peer phase e in
    let (last, more) = serve_connections peer next es in (last, sent ++ more)
