-- ===== src/Client/Host/Serving.antt =====
-- Which connections the host serves (`serve_connections`).
use visuara.Prelude.{
  ◌≡◌, ◌⊎◌, inl, inr, refl, Bool, true, false, List, [], ◌∷◌, Option, none, some, String, sym,
  subst, str_eq, Bool-cases, All,
}
use visuara.Protocol.{
  DeviceId, SessionId, request_turn_credentials, ClientMessage, ServerMessage, incoming_connection,
}
use visuara.Protocol
use visuara.Client.Host.{
  Event, received, gathered, sample, disconnected, on_event, on_other, Peer, Phase, waiting, ended,
  asked_turn, wants_offer, streaming, ice_servers_of, on_candidate, answered, on_wants_offer,
  on_streaming, receive_message, serve_connections,
}

-- The task is in `handle_one_connection` for the session, or has ended.
abbrev pub Serves : SessionId → Phase → Type 0
Serves session_id waiting = ⊥
Serves session_id ended = Unit
Serves session_id (asked_turn s) = s ≡ session_id
Serves session_id (wants_offer s) = s ≡ session_id
Serves session_id (streaming s) = s ≡ session_id

-- A local candidate of the session.
abbrev pub IsCandidate : SessionId → ClientMessage → Type 0
IsCandidate session_id m = (c : String) × (m ≡ Protocol.ClientMessage.ice_candidate session_id c)

-- Candidates of the session, before which one answer for it may stand.
abbrev pub OneAnswer : SessionId → List ClientMessage → Type 0
OneAnswer session_id sent =
    All (IsCandidate session_id) sent
    ⊎ ((sdp : String) × (rest : List ClientMessage) × (sent
          ≡ Protocol.ClientMessage.sdp_answer session_id sdp ∷ rest)
        × All (IsCandidate session_id) rest)

pub on_candidate-cases :
    (peer : Peer) (remote same : Bool) (candidate : String) (phase : Phase)
    → (on_candidate peer remote same candidate phase ≡ phase)
      ⊎ (on_candidate peer remote same candidate phase ≡ ended)
unfolding on_candidate
on_candidate-cases peer remote false candidate phase = inl refl
on_candidate-cases peer remote true candidate phase = elim (Bool-cases (peer.decodes candidate)) [
  | inr malformed ↦ inr (rw (on_candidate, malformed))
  | inl decoded ↦ elim (Bool-cases (peer.accepts remote candidate)) [
    | inl accepted ↦ inl (rw (on_candidate, decoded, accepted))
    | inr refused ↦ inr (rw (on_candidate, decoded, refused))
  ]
]

pub ended-silent : (peer : Peer) (es : List Event) → (serve_connections peer ended es).1 ≡ []
unfolding serve_connections on_event on_other receive_message
ended-silent peer [] = refl
ended-silent peer (received m ∷ es) = ended-silent peer es
ended-silent peer (gathered c ∷ es) = ended-silent peer es
ended-silent peer (sample written ∷ es) = ended-silent peer es
ended-silent peer (disconnected ∷ es) = ended-silent peer es

ended-Candidates :
    (peer : Peer) (s : SessionId) (es : List Event)
    → All (IsCandidate s) (serve_connections peer ended es).1
ended-Candidates peer s es = subst (All (IsCandidate s)) (sym (ended-silent peer es)) tt

-- What an event does while the host streams.
on_streaming-cases :
    (peer : Peer) (s : SessionId) (e : Event)
    → (on_streaming peer s e ≡ (streaming s, []))
      ⊎ (on_streaming peer s e ≡ (ended, []))
      ⊎ ((c : String) × (on_streaming peer s e
            ≡ (streaming s, Protocol.ClientMessage.ice_candidate s c ∷ [])))
unfolding on_streaming
on_streaming-cases peer s (received (Protocol.ServerMessage.ice_candidate t candidate)) =
    elim (on_candidate-cases peer true (str_eq t s) candidate (streaming s)) [
      | inl same ↦ inl (rw (same))
      | inr over ↦ inr (inl (rw (over)))
    ]
on_streaming-cases peer s (received _) = inl refl
on_streaming-cases peer s (gathered (some c)) = inr (inr (c, refl))
on_streaming-cases peer s (gathered none) = inr (inl refl)
on_streaming-cases peer s (sample true) = inl refl
on_streaming-cases peer s (sample false) = inr (inl refl)
on_streaming-cases peer s disconnected = inr (inl refl)

streaming-Candidates :
    (peer : Peer) (s : SessionId) (es : List Event)
    → All (IsCandidate s) (serve_connections peer (streaming s) es).1
unfolding serve_connections on_event
streaming-Candidates peer s [] = tt
streaming-Candidates peer s (e ∷ es) = elim (on_streaming-cases peer s e) [
  | inl same ↦ rw (same) (streaming-Candidates peer s es)
  | inr other ↦ elim other [
    | inl over ↦ rw (over) (ended-Candidates peer s es)
    | inr own ↦ let (c, e') = own in rw (e') ((c, refl), streaming-Candidates peer s es)
  ]
]

answered-cases :
    (s : SessionId) (o : Option String)
    → (answered s o ≡ (ended, []))
      ⊎ ((sdp : String) × (answered s o
            ≡ (streaming s, Protocol.ClientMessage.sdp_answer s sdp ∷ [])))
unfolding answered
answered-cases s none = inl refl
answered-cases s (some sdp) = inr (sdp, refl)

-- What an event does while the offer is awaited.
wants_offer-cases :
    (peer : Peer) (s : SessionId) (e : Event)
    → (on_event peer (wants_offer s) e ≡ (wants_offer s, []))
      ⊎ (on_event peer (wants_offer s) e ≡ (ended, []))
      ⊎ ((sdp : String) × (on_event peer (wants_offer s) e
            ≡ (streaming s, Protocol.ClientMessage.sdp_answer s sdp ∷ [])))
unfolding on_event on_other receive_message on_wants_offer
wants_offer-cases peer s (received (Protocol.ServerMessage.ice_candidate t candidate)) =
    elim (on_candidate-cases peer false (str_eq t s) candidate (wants_offer s)) [
      | inl same ↦ inl (rw (same))
      | inr over ↦ inr (inl (rw (over)))
    ]
wants_offer-cases peer s (received (Protocol.ServerMessage.sdp_offer t sdp)) =
    elim (Bool-cases (str_eq t s)) [
      | inr other ↦ inl (rw (other))
      | inl same ↦ rw (same) (inr (answered-cases s (peer.answer_to sdp)))
    ]
wants_offer-cases peer s (received _) = inl refl
wants_offer-cases peer s disconnected = inr (inl refl)
wants_offer-cases peer s (gathered c) = inl refl
wants_offer-cases peer s (sample written) = inl refl

wants_offer-OneAnswer :
    (peer : Peer) (s : SessionId) (es : List Event)
    → OneAnswer s (serve_connections peer (wants_offer s) es).1
unfolding serve_connections
wants_offer-OneAnswer peer s [] = inl tt
wants_offer-OneAnswer peer s (e ∷ es) =
    let later = wants_offer-OneAnswer peer s es in
    elim (wants_offer-cases peer s e) [
      | inl still ↦ rw (still) later
      | inr moved ↦ elim moved [
        | inl over ↦ inl (rw (over) (ended-Candidates peer s es))
        | inr reply ↦
            let (sdp, e') = reply in
            inr (
              sdp,
              (serve_connections peer (streaming s) es).1,
              rw (e'),
              streaming-Candidates peer s es,
            )
      ]
    ]

-- Once the host is in a connection, whatever events follow - other connections that are announced, and
-- requests for other sessions, too - it sends at most one answer, for that session, and otherwise only
-- its own candidates for that session, which the answer, if there is one, precedes.
pub serve_connections-OneAnswer :
    (peer : Peer) (session_id : SessionId) (phase : Phase) (es : List Event)
    → Serves session_id phase
    → OneAnswer session_id (serve_connections peer phase es).1
unfolding serve_connections on_event on_other receive_message
serve_connections-OneAnswer peer session_id waiting es h = absurd h
serve_connections-OneAnswer peer session_id ended es h = inl (ended-Candidates peer session_id es)
serve_connections-OneAnswer peer session_id (streaming s) es h =
    subst (λ t. OneAnswer t (serve_connections peer (streaming s) es).1) h
      (inl (streaming-Candidates peer s es))
serve_connections-OneAnswer peer session_id (wants_offer s) es h =
    subst (λ t. OneAnswer t (serve_connections peer (wants_offer s) es).1) h
      (wants_offer-OneAnswer peer s es)
serve_connections-OneAnswer peer session_id (asked_turn s) [] h = inl tt
serve_connections-OneAnswer peer session_id (asked_turn s) (gathered c ∷ es) h =
    serve_connections-OneAnswer peer session_id (asked_turn s) es h
serve_connections-OneAnswer peer session_id (asked_turn s) (sample written ∷ es) h =
    serve_connections-OneAnswer peer session_id (asked_turn s) es h
serve_connections-OneAnswer peer session_id (asked_turn s) (disconnected ∷ es) h =
    inl (ended-Candidates peer session_id es)
serve_connections-OneAnswer peer session_id (asked_turn s) (received m ∷ es) h =
    elim (Bool-cases (peer.builds (ice_servers_of m))) [
      | inl built ↦
          subst (λ t. OneAnswer t (serve_connections peer (asked_turn s) (received m ∷ es)).1) h
            (rw (serve_connections, on_event, on_other, receive_message, built)
              (wants_offer-OneAnswer peer s es))
      | inr failed ↦ inl (
          rw (serve_connections, on_event, on_other, receive_message, failed)
            (ended-Candidates peer session_id es))
    ]
