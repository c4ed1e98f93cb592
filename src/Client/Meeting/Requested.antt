-- ===== src/Client/Meeting/Requested.antt =====
-- The request of a controller for a session with a host that is online (visuara-signaling/src/ws.rs).
use mathlib.Core.Option
use visuara.Prelude.{
  ◌≡◌, refl, ap, ◌∙◌, true, false, List, [], ◌∷◌, some, none, str_eq, eq_refl, inr, find?, ℕ,
}
use visuara.Protocol.{
  DeviceId, ConnectCredential, request_connection, ServerMessage, incoming_connection,
  connection_established,
}
use visuara.Db.{DeviceRow, map_device_row, find_device, ok}
use visuara.Db.Listing.{reads_fine}
use visuara.State.{ConnectionId, insert}
use visuara.Ws.{handle_message, credential_ok, establish, on_request_connection, modify}
use visuara.Ws.Types.{
  Local, External, Draws, Task, authenticated, send_to, send_if_open, require_auth, ◌>>=◌, ◌>>◌,
  ask,
}
use visuara.Ws.Hub.{World, deliver, store, local}
use visuara.Client.Signaling.Granted.{auth_known, told, send-told, then_step, ask_same}
use visuara.Client.Meeting.Relayed.{InSession, open_with, deliver_ok}

-- The controller is logged in, the device is online on the host's connection, and the credential opens
-- it. `cs` and `hs` were sent to the two.
pub record Ready (ext : External) (controller host : ConnectionId) (target : DeviceId)
    (credential : ConnectCredential) (cs hs : List ServerMessage) (w : World) : Type 0 where
  pub account_id : ℕ
  pub controller_task : Task
  pub host_task : Task
  pub row : DeviceRow
  pub controller_runs : w.tasks controller ≡ some controller_task
  pub host_runs : w.tasks host ≡ some host_task
  pub logged_in : controller_task.conn_state ≡ authenticated account_id
  pub controller_hears : w.app.connections controller ≡ some (open_with cs)
  pub host_hears : w.app.connections host ≡ some (open_with hs)
  pub fine : w.app.db.faults ≡ []
  pub known : find? (λ d. str_eq d.id target) w.app.db.tables.devices ≡ some row
  pub online : w.app.device_online target ≡ some host
  pub opens : credential_ok ext.argon w.app.otp target (map_device_row row) credential ≡ true

send_if_open-told :
    (conn_id : ConnectionId) (sent : List ServerMessage) (msg : ServerMessage) (l : Local)
    → l.app.connections conn_id ≡ some (open_with sent)
    → send_if_open conn_id msg l ≡ (inr tt, told conn_id (open_with sent) msg l)
unfolding send_if_open send_to
send_if_open-told conn_id sent msg l hears = rw (hears, send_if_open)

module _ (ext : External) {c h : ConnectionId} {target : DeviceId} {credential : ConnectCredential}
    {cs hs : List ServerMessage} {w : World} (apart : str_eq c h ≡ false)
    (apart' : str_eq h c ≡ false) (r : Ready ext c h target credential cs hs w) (d : Draws) where
  -- The shared state with the new session.
  abbrev opened_session : Local
  opened_session = record {
    app = record w.app { sessions = insert d.session_id (record { a = c; b = h }) w.app.sessions };
    task = r.controller_task;
  }

  abbrev announced : Local
  announced =
      told c (open_with cs) (connection_established d.session_id target)
        (told h (open_with hs) (incoming_connection d.session_id none) opened_session)

  establish_lem : establish ext c d target (local w r.controller_task) ≡ (inr tt, announced)
  unfolding establish modify ◌>>◌
  establish_lem =
      rw (r.online, establish)
        (then_step
            (modify (λ s. record s {
              sessions = insert d.session_id (record { a = c; b = h }) s.sessions;
            }))
            _ (local w r.controller_task) opened_session tt refl
          ∙ then_step (send_if_open h (incoming_connection d.session_id none)) _ opened_session _ tt
              (send_if_open-told h hs _ opened_session r.host_hears)
          ∙ send-told c (open_with cs) _ _ (rw (apart') r.controller_hears) refl)

  handled :
      handle_message ext c d (request_connection target credential) (local w r.controller_task)
      ≡ (inr tt, announced)
  unfolding handle_message on_request_connection find_device ◌>>=◌
  handled =
      let l = local w r.controller_task in
      then_step require_auth _ l l r.account_id (auth_known l r.account_id r.logged_in)
      ∙ then_step (ask (find_device target)) _ l l (some (map_device_row r.row)) (
          ask_same (find_device target) l (some (map_device_row r.row)) (
            reads_fine _ w.app.db r.fine
            ∙ ap (λ o. (ok (Option.map map_device_row o), w.app.db)) r.known))
      ∙ rw (r.opens) establish_lem

  -- The server opens the session and tells both.
  pub deliver-request :
      deliver ext c d (request_connection target credential) w ≡ store c w announced
  deliver-request =
      deliver_ok ext c d (request_connection target credential) w r.controller_task announced
        r.controller_runs handled

  pub requested-InSession :
      InSession c h d.session_id
        (connection_established d.session_id target ∷ cs)
        (incoming_connection d.session_id none ∷ hs)
        (deliver ext c d (request_connection target credential) w)
  requested-InSession = rw (deliver-request) (record {
    controller_task = r.controller_task;
    host_task = r.host_task;
    controller_runs = rw (eq_refl c);
    host_runs = rw (apart) r.host_runs;
    controller_hears = rw (eq_refl c);
    host_hears = rw (apart, eq_refl h);
    session = rw (eq_refl d.session_id);
  })
