-- ===== src/Client/Controller/Candidates.antt =====
-- The remote candidates of a session (`connect`, and the task that it leaves).
use mathlib.Core.List.{append_assoc}
use visuara.Prelude.{
  ◌≡◌, ◌∙◌, true, false, List, [], ◌∷◌, ◌++◌, String, str_eq, if◌then◌else◌, Bool-cases, inl, inr,
  append_nil, All, eq_refl, ap, refl,
}
use visuara.Protocol.{
  SessionId, ServerMessage, auth_ok, auth_error, device_registered, device_list,
  incoming_connection, connection_established, turn_credentials, unattended_password_updated, error,
}
use visuara.Protocol
use visuara.Client.Controller.{
  Peer, Stage, wants_answer, connected, failed, Negotiation, add_candidate, on_wants_answer,
  on_connected, receive_at, receive_message, negotiate,
}

-- The candidate of a message that is for the session, decodes, and is accepted after the answer.
abbrev pub good_in : Peer → SessionId → ServerMessage → List String
good_in peer session_id (Protocol.ServerMessage.ice_candidate s candidate) =
    if str_eq s session_id
    then (if peer.decodes candidate
        then (if peer.accepts true candidate then candidate ∷ [] else [])
        else [])
    else []
good_in peer session_id _ = []

abbrev pub good_of : Peer → SessionId → List ServerMessage → List String
good_of peer session_id [] = []
good_of peer session_id (m ∷ ms) = good_in peer session_id m ++ good_of peer session_id ms

abbrev pub at : Stage → List String → Negotiation
at stage candidates = record { stage = stage; candidates = candidates }

on_connected-good :
    (peer : Peer) (s : SessionId) (m : ServerMessage) (cs : List String)
    → on_connected peer s m (at (connected s) cs) ≡ at (connected s) (cs ++ good_in peer s m)
unfolding on_connected add_candidate
on_connected-good peer s (Protocol.ServerMessage.ice_candidate t candidate) cs =
    elim (Bool-cases (str_eq t s)) [
      | inr other ↦ rw (other, on_connected, append_nil cs)
      | inl same ↦ elim (Bool-cases (peer.decodes candidate)) [
        | inr malformed ↦ rw (same, malformed, on_connected, append_nil cs)
        | inl decoded ↦ elim (Bool-cases (peer.accepts true candidate)) [
          | inr refused ↦ rw (same, decoded, refused, on_connected, append_nil cs)
          | inl accepted ↦ rw (same, decoded, accepted, on_connected)
        ]
      ]
    ]
on_connected-good peer s _ cs = rw (append_nil cs)

negotiate-connected :
    (peer : Peer) (s : SessionId) (ms : List ServerMessage) (cs : List String)
    → negotiate peer ms (at (connected s) cs) ≡ at (connected s) (cs ++ good_of peer s ms)
unfolding negotiate receive_message receive_at
negotiate-connected peer s [] cs = rw (append_nil cs)
negotiate-connected peer s (m ∷ ms) cs =
    ap (negotiate peer ms) (on_connected-good peer s m cs)
    ∙ negotiate-connected peer s ms (cs ++ good_in peer s m)
    ∙ ap (at (connected s)) (append_assoc cs (good_in peer s m) (good_of peer s ms))

-- Not an answer or a candidate for the session.
abbrev pub IsAside : SessionId → ServerMessage → Type 0
IsAside s (Protocol.ServerMessage.sdp_answer t sdp) = str_eq t s ≡ false
IsAside s (Protocol.ServerMessage.ice_candidate t candidate) = str_eq t s ≡ false
IsAside s _ = Unit

on_wants_answer-aside :
    (peer : Peer) (s : SessionId) (m : ServerMessage) (n : Negotiation)
    → IsAside s m
    → on_wants_answer peer s m n ≡ n
unfolding on_wants_answer
on_wants_answer-aside peer s (Protocol.ServerMessage.ice_candidate t candidate) n other =
    rw (other, on_wants_answer)
on_wants_answer-aside peer s (Protocol.ServerMessage.sdp_answer t sdp) n other =
    rw (other, on_wants_answer)
on_wants_answer-aside peer s _ n u = refl

-- Messages that are put aside change nothing.
aside-negotiate :
    (peer : Peer) (s : SessionId) (before rest : List ServerMessage) (cs : List String)
    → All (IsAside s) before
    → negotiate peer (before ++ rest) (at (wants_answer s) cs)
      ≡ negotiate peer rest (at (wants_answer s) cs)
unfolding negotiate receive_message receive_at
aside-negotiate peer s [] rest cs u = refl
aside-negotiate peer s (m ∷ before) rest cs (here, later) =
    ap (negotiate peer (before ++ rest))
      (on_wants_answer-aside peer s m (at (wants_answer s) cs) here)
    ∙ aside-negotiate peer s before rest cs later

failed_stays :
    (peer : Peer) (ms : List ServerMessage) (cs : List String)
    → negotiate peer ms (at failed cs) ≡ at failed cs
unfolding negotiate receive_message receive_at
failed_stays peer [] cs = refl
failed_stays peer (m ∷ ms) cs = failed_stays peer ms cs

-- A candidate before the answer is an error, also one that decodes.
early_candidate :
    (peer : Peer) (s : SessionId) (candidate : String) (cs : List String)
    → on_wants_answer peer s
        (Protocol.ServerMessage.ice_candidate s candidate)
        (at (wants_answer s) cs)
      ≡ at failed cs
unfolding on_wants_answer
early_candidate peer s candidate cs = elim (Bool-cases (peer.decodes candidate)) [
  | inl decoded ↦ rw (on_wants_answer, eq_refl s, decoded, peer.accepts_needs_remote candidate)
  | inr malformed ↦ rw (on_wants_answer, eq_refl s, malformed)
]

answer_taken :
    (peer : Peer) (s : SessionId) (sdp : String) (cs : List String)
    → peer.takes sdp ≡ true
    → on_wants_answer peer s (Protocol.ServerMessage.sdp_answer s sdp) (at (wants_answer s) cs)
      ≡ at (connected s) cs
unfolding on_wants_answer
answer_taken peer s sdp cs taken = rw (on_wants_answer, eq_refl s, taken)

-- Once the offer is sent, and after any messages but answers and candidates for the session: an answer
-- for it that WebRTC takes brings `connect` to its session, and the peer connection is given the good
-- candidates for the session that come after the answer, all of them in their order, whatever else the
-- server sends; but a candidate for the session, even a good one, that comes before the answer ends
-- `connect` with an error.
pub negotiate-connects :
    (peer : Peer) (s : SessionId) (before after : List ServerMessage) (sdp candidate : String)
    (cs : List String)
    → All (IsAside s) before
    → peer.takes sdp ≡ true
    → (negotiate peer
          (before ++ Protocol.ServerMessage.sdp_answer s sdp ∷ after)
          (record { stage = wants_answer s; candidates = cs })
        ≡ record { stage = connected s; candidates = cs ++ good_of peer s after })
      × (negotiate peer
            (before ++ Protocol.ServerMessage.ice_candidate s candidate ∷ after)
            (record { stage = wants_answer s; candidates = cs })
          ≡ record { stage = failed; candidates = cs })
unfolding negotiate receive_message receive_at
negotiate-connects peer s before after sdp candidate cs aside taken = (
  aside-negotiate peer s before (Protocol.ServerMessage.sdp_answer s sdp ∷ after) cs aside
      ∙ ap (negotiate peer after) (answer_taken peer s sdp cs taken)
      ∙ negotiate-connected peer s after cs,
  aside-negotiate peer s before (Protocol.ServerMessage.ice_candidate s candidate ∷ after) cs aside
      ∙ ap (negotiate peer after) (early_candidate peer s candidate cs)
      ∙ failed_stays peer after cs,
)
