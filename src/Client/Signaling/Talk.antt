-- ===== src/Client/Signaling/Talk.antt =====
-- A script of the client run against the server (visuara-signaling/src/ws.rs): what is sent is handled,
-- and what is read is the oldest message of the connection's channel that was not read yet.
use visuara.Prelude.{ℕ, zero, suc, ◌+◌, Option, none, some, List, [], ◌∷◌, ◌++◌}
use visuara.Protocol.{ServerMessage}
use visuara.State.{ConnectionId, Channel}
use visuara.Ws.Types.{Local, External, Draws}
use visuara.Ws.Hub.{after_message}
use visuara.Client.Signaling.{Script, finished, failed, sending, receiving}

abbrev pub oldest_first : List ServerMessage → List ServerMessage
oldest_first [] = []
oldest_first (m ∷ ms) = oldest_first ms ++ m ∷ []

abbrev pub nth : ℕ → List ServerMessage → Option ServerMessage
nth n [] = none
nth zero (m ∷ ms) = some m
nth (suc n) (m ∷ ms) = nth n ms

-- The message after the first `read` ones that were sent to the connection.
abbrev pub unread_of : ℕ → Option Channel → Option ServerMessage
unread_of read none = none
unread_of read (some tx) = nth read (oldest_first tx.sent)

abbrev pub unread : ConnectionId → ℕ → Local → Option ServerMessage
unread conn_id read l = unread_of read (l.app.connections conn_id)

-- The result, if the script gets to one, and the server's state. Each message that is sent has its
-- draws; a script waits in vain for a message that was not sent.
unfoldable pub talk :
    {A : Type 0} → External → ConnectionId → List Draws → Script A → ℕ → Local → Option A × Local
talk ext conn_id draws (finished a) read l = (some a, l)
talk ext conn_id draws failed read l = (none, l)
talk ext conn_id [] (sending m s) read l = (none, l)
talk ext conn_id (d ∷ draws) (sending m s) read l =
    talk ext conn_id draws s read (after_message ext conn_id d m l)
talk ext conn_id draws (receiving s) read l = elim (unread conn_id read l) [
  | none ↦ (none, l)
  | some m ↦ talk ext conn_id draws (s m) (read + 1) l
]
