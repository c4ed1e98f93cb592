-- ===== src/Client/Dashboard.antt =====
-- visuara-client/src/dashboard.rs: the task that answers refresh pings with the list of devices. It is
-- started once `authenticate` has succeeded, with a first ping.
pub mod Shown
mod Tests
use visuara.Prelude.{Bool, true, false, List, [], ◌∷◌, ◌++◌, Option, none, some, if◌then◌else◌}
use visuara.Protocol.{DeviceSummary, ClientMessage, list_devices, ServerMessage, device_list}

-- A ping, with whether the request can be sent; that nobody is left to ping; a message of the server,
-- with whether the window still takes lists; an error of reading one.
pub data Event : Type 0 where
  pinged : Bool → Event
  unheard : Event
  arrived : ServerMessage → Bool → Event
  broken : Event

-- Whether the loop goes on, what it has sent to the server, and the lists that it gave to the window.
pub record Dashboard : Type 0 where
  pub running : Bool
  pub requests : List ClientMessage
  pub devices : List (List DeviceSummary)

stop : Dashboard → Dashboard
stop d = record d { running = false }

taken : ServerMessage → Bool → Dashboard → Dashboard
unfolding stop
taken (device_list devices) true d = record d { devices = d.devices ++ devices ∷ [] }
taken (device_list devices) false d = stop d
taken _ window_takes d = d

handle_event : Event → Dashboard → Dashboard
unfolding stop taken
handle_event (pinged true) d = record d { requests = d.requests ++ list_devices ∷ [] }
handle_event (pinged false) d = stop d
handle_event unheard d = stop d
handle_event (arrived m window_takes) d = taken m window_takes d
handle_event broken d = stop d

-- One round of the loop, once it has not ended.
unfoldable pub on_event : Event → Dashboard → Dashboard
unfolding handle_event
on_event e d = if d.running then handle_event e d else d

unfoldable pub on_events : List Event → Dashboard → Dashboard
on_events [] d = d
on_events (e ∷ es) d = on_events es (on_event e d)
