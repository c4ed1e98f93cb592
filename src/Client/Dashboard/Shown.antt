-- ===== src/Client/Dashboard/Shown.antt =====
-- What the dashboard shows, with the server of ws.rs at the other end.
use visuara.Prelude.{
  ℕ, ◌≡◌, refl, ap, ◌∙◌, ◌==◌, Bool, true, false, arith, List, [], ◌∷◌, ◌++◌, Option, none, some,
  map, filter, All, inr, append_nil,
}
use mathlib.Core.List.{append_assoc}
use visuara.Protocol.{DeviceSummary, ClientMessage, list_devices, ServerMessage, device_list}
use visuara.Db.{map_device_row, list_devices_for_account}
use visuara.Db.Listing.{reads_fine}
use visuara.Api.Devices.{summary}
use visuara.State.{AppState, ConnectionId, Channel}
use visuara.Ws.{handle_message, on_list_devices}
use visuara.Ws.Types.{Local, Task, External, Draws, authenticated, require_auth, ask}
use visuara.Ws.Hub.{after_message}
use visuara.Client.Signaling.Granted.{auth_known, then_step, ask_same, told, send-told}
use visuara.Client.Signaling.Login.{after_ok, heard}
use visuara.Client.Dashboard.{pinged, arrived, Dashboard, on_event}

-- The newest message of a channel.
abbrev pub newest : Option Channel → List ServerMessage
newest none = []
newest (some tx) = elim tx.sent [ [] ↦ [] | m ∷ ms ↦ m ∷ [] ]

abbrev pub read_all : List ServerMessage → Dashboard → Dashboard
read_all [] d = d
read_all (m ∷ ms) d = read_all ms (on_event (arrived m true) d)

-- A ping is sent, the server handles the request, and its answer is read.
abbrev pub refresh : External → ConnectionId → Task → Draws × AppState → Dashboard → Dashboard
refresh ext conn_id task (draws, app) d =
    let l = after_message ext conn_id draws list_devices (record { app = app; task = task }) in
    read_all (newest (l.app.connections conn_id)) (on_event (pinged true) d)

-- One refresh after the other, each with what the server has come to by then.
unfoldable pub refreshes :
    External → ConnectionId → Task → List (Draws × AppState) → Dashboard → Dashboard
refreshes ext conn_id task [] d = d
refreshes ext conn_id task (r ∷ rs) d = refreshes ext conn_id task rs (refresh ext conn_id task r d)

-- The devices of an account, each with whether it is online.
abbrev pub devices_of : ℕ → AppState → List DeviceSummary
devices_of account_id app =
    map (summary app.device_online)
      (map map_device_row (filter (λ d. d.account_id == account_id) app.db.tables.devices))

-- The client's connection is open, and no call of the database fails.
pub record IsOpen (conn_id : ConnectionId) (r : Draws × AppState) : Type 0 where
  pub fine : r.1.db.faults ≡ []
  pub tx : Channel
  pub present : r.1.connections conn_id ≡ some tx
  pub alive : tx.receiving ≡ true

read_back :
    (b : Bool) (requests : List ClientMessage) (devices : List (List DeviceSummary))
    (x : List DeviceSummary)
    → b ≡ true
    → on_event
        (arrived (device_list x) true)
        (on_event (pinged true) (record { running = b; requests = requests; devices = devices }))
      ≡ record {
        running = true;
        requests = requests ++ list_devices ∷ [];
        devices = devices ++ x ∷ [];
      }
unfolding on_event
read_back true requests devices x e = refl
read_back false requests devices x e = absurd (ground (arith, e))

module _ (ext : External) (conn_id : ConnectionId) (task : Task) (k : ℕ) where
  listed :
      (draws : Draws) (app : AppState) (tx : Channel)
      → task.conn_state ≡ authenticated k
      → app.db.faults ≡ []
      → app.connections conn_id ≡ some tx
      → tx.receiving ≡ true
      → handle_message ext conn_id draws list_devices (record { app = app; task = task }) ≡ (
        inr tt,
        told conn_id tx (device_list (devices_of k app)) (record { app = app; task = task }),
      )
  unfolding handle_message on_list_devices require_auth list_devices_for_account
  listed draws app tx who fine present alive =
      let l : Local = record { app = app; task = task } in
      then_step require_auth _ l l k (auth_known l k who)
      ∙ then_step (ask (list_devices_for_account k)) _ l l _
          (ask_same (list_devices_for_account k) l _ (reads_fine _ app.db fine))
      ∙ send-told conn_id tx (device_list (devices_of k app)) l present alive

  refresh_shows :
      (r : Draws × AppState) (d : Dashboard)
      → task.conn_state ≡ authenticated k
      → IsOpen conn_id r
      → d.running ≡ true
      → refresh ext conn_id task r d ≡ record {
        running = true;
        requests = d.requests ++ list_devices ∷ [];
        devices = d.devices ++ devices_of k r.1 ∷ [];
      }
  unfolding on_event
  refresh_shows (draws, app) d who o runs =
      let l : Local = record { app = app; task = task } in
      let answer : ServerMessage = device_list (devices_of k app) in
      ap (λ m. read_all (newest (m.app.connections conn_id)) (on_event (pinged true) d))
        (after_ok ext conn_id draws list_devices l (told conn_id o.tx answer l)
          (listed draws app o.tx who o.fine o.present o.alive))
      ∙ ap (λ c. read_all (newest c) (on_event (pinged true) d)) (heard conn_id o.tx answer l)
      ∙ read_back d.running d.requests d.devices (devices_of k app) runs

  -- While the client's connection is logged in and open and no call of the database fails, the window
  -- gets one list for each refresh, in their order: all devices of the account, each with whether it is
  -- online, as they are when the server handles that refresh. The loop asks for nothing but lists, and
  -- goes on.
  pub refreshes-devices_of :
      (rs : List (Draws × AppState)) (d : Dashboard)
      → task.conn_state ≡ authenticated k
      → All (IsOpen conn_id) rs
      → d.running ≡ true
      → refreshes ext conn_id task rs d ≡ record {
        running = true;
        requests = d.requests ++ map (λ _. list_devices) rs;
        devices = d.devices ++ map (λ r. devices_of k r.1) rs;
      }
  unfolding refreshes
  refreshes-devices_of [] d who o runs = from_none d.running d.requests d.devices runs
    where
      from_none :
          (b : Bool) (requests : List ClientMessage) (devices : List (List DeviceSummary))
          → b ≡ true
          → (let x : Dashboard = record { running = b; requests = requests; devices = devices } in
              x)
            ≡ record { running = true; requests = requests ++ []; devices = devices ++ [] }
      from_none b requests devices e = rw (e, append_nil requests, append_nil devices)
  refreshes-devices_of (r ∷ rs) d who (o, os) runs =
      ap (refreshes ext conn_id task rs) (refresh_shows r d who o runs)
      ∙ refreshes-devices_of rs
          (record {
            running = true;
            requests = d.requests ++ list_devices ∷ [];
            devices = d.devices ++ devices_of k r.1 ∷ [];
          })
          who os refl
      ∙ rw (append_assoc d.requests, append_assoc d.devices)
