-- ===== src/Client/Host/Lost.antt =====
-- An offer that comes before the TURN credentials is lost (`handle_one_connection`).
use visuara.Prelude.{
  false, ◌≡◌, ◌≢◌, ◌⊎◌, inl, inr, refl, List, [], ◌∷◌, Option, String, str_eq, eq_iff, ap,
  Bool-cases, All,
}
use visuara.Protocol.{
  DeviceId, SessionId, ClientMessage, request_turn_credentials, ServerMessage, incoming_connection,
}
use visuara.Protocol
use visuara.Client.Host.{
  Event, received, gathered, sample, disconnected, on_event, on_other, Peer, waiting, ended,
  wants_offer, ice_servers_of, on_waiting, on_wants_offer, receive_message, serve_connections,
}
use visuara.Client.Host.Serving.{ended-silent, on_candidate-cases}

abbrev pub NoOffer : SessionId → Event → Type 0
NoOffer s (received m) = (sdp : String) → m ≢ Protocol.ServerMessage.sdp_offer s sdp
NoOffer s _ = Unit

no_answer :
    (peer : Peer) (s : SessionId) (e : Event)
    → NoOffer s e
    → (on_event peer (wants_offer s) e ≡ (wants_offer s, []))
      ⊎ (on_event peer (wants_offer s) e ≡ (ended, []))
unfolding on_event on_other receive_message on_wants_offer
no_answer peer s (received (Protocol.ServerMessage.ice_candidate t candidate)) h =
    elim (on_candidate-cases peer false (str_eq t s) candidate (wants_offer s)) [
      | inl same ↦ inl (rw (same))
      | inr over ↦ inr (rw (over))
    ]
no_answer peer s (received (Protocol.ServerMessage.sdp_offer t sdp)) h =
    elim (Bool-cases (str_eq t s)) [
      | inl same ↦
          absurd (h sdp (ap (λ x. Protocol.ServerMessage.sdp_offer x sdp) ((eq_iff t s).0 same)))
      | inr other ↦ inl (rw (other))
    ]
no_answer peer s (received _) h = inl refl
no_answer peer s (gathered c) h = inl refl
no_answer peer s (sample written) h = inl refl
no_answer peer s disconnected h = inr refl

NoOffer-silent :
    (peer : Peer) (s : SessionId) (es : List Event)
    → All (NoOffer s) es
    → (serve_connections peer (wants_offer s) es).1 ≡ []
unfolding serve_connections
NoOffer-silent peer s [] h = refl
NoOffer-silent peer s (e ∷ es) (here, rest) = elim (no_answer peer s e here) [
  | inl still ↦ rw (still) (NoOffer-silent peer s es rest)
  | inr over ↦ rw (over) (ended-silent peer es)
]

-- When the offer of the controller reaches the host before the answer to its request for TURN
-- credentials, the host takes it for that answer, and never answers the offer: nothing is sent but the
-- request, whatever follows, as long as no further offer for the session does.
pub serve_connections-lost :
    (peer : Peer) (session_id : SessionId) (from : Option DeviceId) (sdp : String) (es : List Event)
    → All (NoOffer session_id) es
    → (serve_connections peer waiting (
        received (incoming_connection session_id from)
        ∷ received (Protocol.ServerMessage.sdp_offer session_id sdp)
        ∷ es)).1
      ≡ request_turn_credentials ∷ []
unfolding serve_connections on_event on_other receive_message on_waiting ice_servers_of
serve_connections-lost peer session_id from sdp es h = elim (Bool-cases (peer.builds [])) [
  | inl built ↦ rw (built, NoOffer-silent peer session_id es h)
  | inr failed ↦ rw (failed, ended-silent peer es)
]
