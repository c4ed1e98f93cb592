-- ===== src/Client/Host/Answers.antt =====
-- A connection that is announced is answered, and goes on (`handle_one_connection`).
use visuara.Prelude.{
  ◌≡◌, ◌⊎◌, inl, inr, refl, true, false, List, [], ◌∷◌, ◌++◌, Option, none, some, String, map,
  eq_refl, str_eq, Bool-cases, All, arith,
}
use visuara.Protocol.{
  DeviceId, SessionId, request_turn_credentials, ClientMessage, ServerMessage, incoming_connection,
}
use visuara.Protocol
use visuara.Client.Host.{
  Event, received, gathered, sample, disconnected, on_event, on_other, Peer, waiting, wants_offer,
  streaming, ice_servers_of, on_candidate, answered, on_waiting, on_wants_offer, on_streaming,
  receive_message, serve_connections,
}

-- Not an offer or a candidate for the session.
abbrev pub IsAside : SessionId → ServerMessage → Type 0
IsAside s (Protocol.ServerMessage.sdp_offer t sdp) = str_eq t s ≡ false
IsAside s (Protocol.ServerMessage.ice_candidate t candidate) = str_eq t s ≡ false
IsAside s _ = Unit

-- What goes well while the host streams.
abbrev pub GoesOn : Peer → SessionId → Event → Type 0
GoesOn peer s (received (Protocol.ServerMessage.ice_candidate t candidate)) =
    (str_eq t s ≡ false) ⊎ ((peer.decodes candidate ≡ true) × (peer.accepts true candidate ≡ true))
GoesOn peer s (received _) = Unit
GoesOn peer s (gathered none) = ⊥
GoesOn peer s (gathered (some candidate)) = Unit
GoesOn peer s (sample written) = written ≡ true
GoesOn peer s disconnected = ⊥

-- The local candidates among some events, as messages for the session.
abbrev pub candidates_of : SessionId → List Event → List ClientMessage
candidates_of s [] = []
candidates_of s (gathered (some candidate) ∷ es) =
    Protocol.ClientMessage.ice_candidate s candidate ∷ candidates_of s es
candidates_of s (_ ∷ es) = candidates_of s es

streams :
    (peer : Peer) (s : SessionId) (es : List Event)
    → All (GoesOn peer s) es
    → serve_connections peer (streaming s) es ≡ (streaming s, candidates_of s es)
unfolding serve_connections on_event on_streaming on_candidate
streams peer s [] h = refl
streams peer s (received (Protocol.ServerMessage.ice_candidate t candidate) ∷ es)
      (inl other, rest) =
    rw (other, streams peer s es rest)
streams peer s (received (Protocol.ServerMessage.ice_candidate t candidate) ∷ es)
      (inr (decoded, accepted), rest) =
    elim (Bool-cases (str_eq t s)) [
      | inl same ↦ rw (same, decoded, accepted, streams peer s es rest)
      | inr other ↦ rw (other, streams peer s es rest)
    ]
streams peer s (received _ ∷ es) (u, rest) = rw (streams peer s es rest)
streams peer s (gathered none ∷ es) (h, rest) = absurd h
streams peer s (gathered (some candidate) ∷ es) (u, rest) = rw (streams peer s es rest)
streams peer s (sample true ∷ es) (written, rest) = rw (streams peer s es rest)
streams peer s (sample false ∷ es) (written, rest) = absurd (ground arith)
streams peer s (disconnected ∷ es) (h, rest) = absurd h

awaits :
    (peer : Peer) (s : SessionId) (between : List ServerMessage) (sdp answer : String)
    (after : List Event)
    → All (IsAside s) between
    → peer.answer_to sdp ≡ some answer
    → All (GoesOn peer s) after
    → serve_connections peer
        (wants_offer s)
        (map received between ++ received (Protocol.ServerMessage.sdp_offer s sdp) ∷ after)
      ≡ (streaming s, Protocol.ClientMessage.sdp_answer s answer ∷ candidates_of s after)
unfolding serve_connections on_event on_other receive_message on_wants_offer on_candidate answered
awaits peer s [] sdp answer after aside answers goes =
    rw (on_wants_offer, eq_refl s, answers, answered, streams peer s after goes)
awaits peer s (Protocol.ServerMessage.sdp_offer t o ∷ ms) sdp answer after (other, rest) answers
      goes =
    rw (other, awaits peer s ms sdp answer after rest answers goes)
awaits peer s (Protocol.ServerMessage.ice_candidate t c ∷ ms) sdp answer after (other, rest) answers
      goes =
    rw (other, awaits peer s ms sdp answer after rest answers goes)
awaits peer s (_ ∷ ms) sdp answer after (u, rest) answers goes =
    rw (awaits peer s ms sdp answer after rest answers goes)

-- A connection that is announced is answered, and goes on: when the TURN credentials come next and the
-- peer connection can be built, then after any messages but offers and candidates for the session the
-- offer is answered by the SDP that WebRTC gives, and the host streams, whatever events follow in which
-- nothing fails. It sends the request for the credentials, the answer, and then its own candidates for
-- the session in their order, and nothing else.
pub serve_connections-answers :
    (peer : Peer) (session_id : SessionId) (from : Option DeviceId) (turn : ServerMessage)
    (between : List ServerMessage) (sdp answer : String) (after : List Event)
    → peer.builds (ice_servers_of turn) ≡ true
    → All (IsAside session_id) between
    → peer.answer_to sdp ≡ some answer
    → All (GoesOn peer session_id) after
    → serve_connections peer waiting (
        received (incoming_connection session_id from)
        ∷ received turn
        ∷ (map received between
            ++ received (Protocol.ServerMessage.sdp_offer session_id sdp) ∷ after))
      ≡ (
        streaming session_id,
        request_turn_credentials
            ∷ Protocol.ClientMessage.sdp_answer session_id answer
            ∷ candidates_of session_id after,
      )
unfolding serve_connections on_event on_other receive_message on_waiting
serve_connections-answers peer s from turn between sdp answer after built aside answers goes =
    rw (built, awaits peer s between sdp answer after aside answers goes)
