-- ===== src/Ws/Guards.antt =====
-- What a message can do before log in (ws.rs).
use visuara.Prelude.{◌≡◌, inl, Bool, true, false}
use visuara.Protocol.{
  ClientMessage, register_device, list_devices, request_connection, set_unattended_password,
}
use visuara.State.{ConnectionId}
use visuara.Ws.{
  on_register_device, on_list_devices, on_request_connection, on_set_unattended_password,
  handle_message,
}
use visuara.Ws.Types.{unauthenticated, Local, said, External, Draws, ◌>>=◌, require_auth}

-- The messages that only a logged in connection may send.
abbrev pub needs_account : ClientMessage → Bool
needs_account (register_device name) = true
needs_account list_devices = true
needs_account (request_connection target credential) = true
needs_account (set_unattended_password target password) = true
needs_account _ = false

-- Before log in, a message that registers or lists devices, asks for a connection or sets a password
-- is refused, and changes nothing at all.
pub handle_message-unauthenticated :
    (ext : External) (conn_id : ConnectionId) (draws : Draws) (msg : ClientMessage) (l : Local)
    → needs_account msg ≡ true
    → l.task.conn_state ≡ unauthenticated
    → handle_message ext conn_id draws msg l ≡ (inl (said "not authenticated"), l)
unfolding handle_message on_register_device on_list_devices on_request_connection
    on_set_unattended_password require_auth ◌>>=◌
handle_message-unauthenticated ext conn_id draws (register_device name) l needs out = rw out
handle_message-unauthenticated ext conn_id draws list_devices l needs out = rw out
handle_message-unauthenticated ext conn_id draws (request_connection target credential) l needs
      out =
    rw out
handle_message-unauthenticated ext conn_id draws (set_unattended_password target password) l needs
      out =
    rw out
handle_message-unauthenticated ext conn_id draws _ l needs out = absurd (cc needs)
