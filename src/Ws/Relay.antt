-- ===== src/Ws/Relay.antt =====
-- Where the messages of a session go.
use visuara.Prelude.{
  ◌≡◌, ◌⊎◌, ap, inl, inr, sym, ◌∙◌, Bool, true, false, str_eq, eq_iff, ◌∷◌, Option, none, some,
  Option-cases, Bool-cases, arith,
}
use visuara.Protocol.{
  SessionId, ClientMessage, ServerMessage, register, login, register_device, list_devices,
  request_connection, request_turn_credentials, set_unattended_password,
}
use visuara.Protocol
use visuara.State.{ConnectionId, Channel, SessionPeers, insert, other}
use visuara.Ws.{relay, handle_message}
use visuara.Ws.Types.{Local, WsError, External, Draws, send_to, closed, said}

-- The session of a message that is meant for the other peer, and what that peer is to get.
abbrev pub relayed : ClientMessage → Option (SessionId × ServerMessage)
relayed (Protocol.ClientMessage.sdp_offer session_id sdp) =
    some (session_id, Protocol.ServerMessage.sdp_offer session_id sdp)
relayed (Protocol.ClientMessage.sdp_answer session_id sdp) =
    some (session_id, Protocol.ServerMessage.sdp_answer session_id sdp)
relayed (Protocol.ClientMessage.ice_candidate session_id candidate) =
    some (session_id, Protocol.ServerMessage.ice_candidate session_id candidate)
relayed _ = none

-- One connection is at one end of a session, and the other at the other end.
abbrev pub Joins : SessionPeers → ConnectionId → ConnectionId → Type 0
Joins peers me peer = ((peers.a ≡ me) × (peers.b ≡ peer)) ⊎ ((peers.b ≡ me) × (peers.a ≡ peer))

-- The channel of the other peer of a session that the connection is part of, and that can still be
-- written to.
pub record Reaches (conn_id : ConnectionId) (session_id : SessionId) (l : Local) : Type 0 where
  pub peers : SessionPeers
  pub known : l.app.sessions session_id ≡ some peers
  pub peer : ConnectionId
  pub joins : Joins peers conn_id peer
  pub tx : Channel
  pub connected : l.app.connections peer ≡ some tx
  pub alive : tx.receiving ≡ true

-- The peer's channel with one more message, and nothing else changed.
abbrev pub handed : ConnectionId → Channel → ServerMessage → Local → Local
handed peer tx out l = record l {
  app = record l.app {
    connections = insert peer (record { receiving = true; sent = out ∷ tx.sent }) l.app.connections;
  };
}

other-Joins :
    (peers : SessionPeers) (me peer : ConnectionId)
    → other peers me ≡ some peer
    → Joins peers me peer
unfolding other
other-Joins peers me peer e = elim (Bool-cases (str_eq peers.a me)) [
  | inl first ↦ inl ((eq_iff peers.a me).0 first, ground arith)
  | inr not_first ↦ elim (Bool-cases (str_eq peers.b me)) [
    | inl second ↦ inr ((eq_iff peers.b me).0 second, ground arith)
    | inr outside ↦ absurd (ground arith)
  ]
]

Joins-other :
    (peers : SessionPeers) (me peer : ConnectionId)
    → Joins peers me peer
    → other peers me ≡ some peer
unfolding other
Joins-other peers me peer (inl (first, to)) = rw ((eq_iff peers.a me).1 first, other) (ap some to)
Joins-other peers me peer (inr (second, to)) = elim (Bool-cases (str_eq peers.a me)) [
  | inl first ↦ rw (first, other) (ap some (second ∙ sym ((eq_iff peers.a me).0 first) ∙ to))
  | inr not_first ↦ rw (not_first, (eq_iff peers.b me).1 second, other) (ap some to)
]

-- Whether relaying gets to a channel that can be written to, lookup by lookup.
abbrev writable : Option Channel → Bool
writable none = false
writable (some tx) = tx.receiving

abbrev channel_of : Local → Option ConnectionId → Option Channel
channel_of l none = none
channel_of l (some peer) = l.app.connections peer

abbrev peer_of : ConnectionId → Option SessionPeers → Option ConnectionId
peer_of me none = none
peer_of me (some peers) = other peers me

Reaches-writable :
    (conn_id : ConnectionId) (session_id : SessionId) (l : Local)
    → Reaches conn_id session_id l
    → writable (channel_of l (peer_of conn_id (l.app.sessions session_id))) ≡ true
Reaches-writable conn_id session_id l r =
    ap (λ o. writable (channel_of l (peer_of conn_id o))) r.known
    ∙ ap (λ o. writable (channel_of l o)) (Joins-other r.peers conn_id r.peer r.joins)
    ∙ ap writable r.connected
    ∙ r.alive

unreached :
    (conn_id : ConnectionId) (session_id : SessionId) (l : Local)
    → writable (channel_of l (peer_of conn_id (l.app.sessions session_id))) ≡ false
    → Reaches conn_id session_id l
    → ⊥
unreached conn_id session_id l no_channel r =
    true_false (sym (Reaches-writable conn_id session_id l r) ∙ no_channel)
  where
    true_false : true ≡ false → ⊥
    true_false e = ground arith

-- The message is handed on exactly if there is a channel to hand it to.
abbrev Relays :
    ConnectionId → SessionId → ServerMessage → Local → (WsError ⊎ Unit {0}) × Local → Type 0
Relays conn_id session_id out l result =
    ((Reaches conn_id session_id l → ⊥) × ((e : WsError) × (result ≡ (inl e, l))))
    ⊎ ((to : Reaches conn_id session_id l) × (result ≡ (inr tt, handed to.peer to.tx out l)))

relay-Relays :
    (conn_id : ConnectionId) (session_id : SessionId) (out : ServerMessage) (l : Local)
    → Relays conn_id session_id out l (relay conn_id session_id out l)
unfolding relay send_to
relay-Relays conn_id session_id out l = elim (Option-cases (l.app.sessions session_id)) [
  | inl gone ↦
      inl (unreached conn_id session_id l (rw (gone)), (said "unknown session", rw (gone, relay)))
  | inr (peers, known) ↦ elim (Option-cases (other peers conn_id)) [
    | inl outside ↦ inl (
      unreached conn_id session_id l (rw (known, outside)),
      (said "not part of session", rw (known, outside, relay)),
    )
    | inr (peer, inside) ↦ elim (Option-cases (l.app.connections peer)) [
      | inl left ↦ inl (
        unreached conn_id session_id l (rw (known, inside, left)),
        (said "peer disconnected", rw (known, inside, left, relay)),
      )
      | inr (tx, connected) ↦ elim (Bool-cases tx.receiving) [
        | inl alive ↦ inr (
          record {
            peers = peers;
            known = known;
            peer = peer;
            joins = other-Joins peers conn_id peer inside;
            tx = tx;
            connected = connected;
            alive = alive;
          },
          ground arith,
        )
        | inr dead ↦ inl (
          unreached conn_id session_id l (rw (known, inside, connected) dead),
          (closed, rw (known, inside, connected, dead, relay)),
        )
      ]
    ]
  ]
]

-- The three messages of a session are all relayed.
relay-all :
    (ext : External) (conn_id : ConnectionId) (draws : Draws) (msg : ClientMessage) (l : Local)
    (session_id : SessionId) (out : ServerMessage)
    → relayed msg ≡ some (session_id, out)
    → handle_message ext conn_id draws msg l ≡ relay conn_id session_id out l
unfolding handle_message
relay-all ext conn_id draws msg l session_id out e =
    elim msg
        as (λ m.
          relayed m ≡ some (session_id, out)
          → handle_message ext conn_id draws m l ≡ relay conn_id session_id out l) [
            | Protocol.ClientMessage.sdp_offer s t ↦ λ h. ap on_pair h
            | Protocol.ClientMessage.sdp_answer s t ↦ λ h. ap on_pair h
            | Protocol.ClientMessage.ice_candidate s t ↦ λ h. ap on_pair h
            | register a b ↦ λ h. absurd (cc h)
            | login a b ↦ λ h. absurd (cc h)
            | register_device a ↦ λ h. absurd (cc h)
            | list_devices ↦ λ h. absurd (cc h)
            | request_connection a b ↦ λ h. absurd (cc h)
            | request_turn_credentials ↦ λ h. absurd (cc h)
            | set_unattended_password a b ↦ λ h. absurd (cc h)
          ]
      e
  where
    on_pair : Option (SessionId × ServerMessage) → (WsError ⊎ Unit {0}) × Local
    on_pair none = (inl closed, l)
    on_pair (some (s, m)) = relay conn_id s m l

-- A message for the other peer of a session goes onto the channel of the connection at the other end of
-- that session, if the sender is at one end, the session is there, and the channel is open and still
-- read; nothing else is changed. It fails exactly if there is no such channel, and then changes nothing.
pub handle_message-Relays :
    (ext : External) (conn_id : ConnectionId) (draws : Draws) (msg : ClientMessage) (l : Local)
    (session_id : SessionId) (out : ServerMessage)
    → relayed msg ≡ some (session_id, out)
    → ((Reaches conn_id session_id l → ⊥)
        × ((e : WsError) × (handle_message ext conn_id draws msg l ≡ (inl e, l))))
      ⊎ ((to : Reaches conn_id session_id l) × (handle_message ext conn_id draws msg l
            ≡ (inr tt, handed to.peer to.tx out l)))
handle_message-Relays ext conn_id draws msg l session_id out e =
    rw (relay-all ext conn_id draws msg l session_id out e) (relay-Relays conn_id session_id out l)
