-- ===== src/Client/Dashboard/Tests.antt =====
-- A dashboard that refreshes twice: its one computer goes offline in between.
use visuara.Prelude.{
  ◌≡◌, refl, true, false, List, [], ◌∷◌, none, some, str_eq, if◌then◌else◌, filter,
}
use visuara.Protocol.{list_devices}
use visuara.Db.{DeviceRow, map_device_row}
use visuara.Api.Devices.{summary}
use visuara.State.{AppState}
use visuara.Ws.Types.{Task, Draws, authenticated}
use visuara.Fixtures.{idle, ext, draws, new_db, no_tables}
use visuara.Client.Dashboard.{Dashboard}
use visuara.Client.Dashboard.Shown.{IsOpen, refreshes, refreshes-devices_of}

abbrev laptop : DeviceRow
laptop = record { id = "laptop"; account_id = 7; name = "Laptop"; unattended_password_hash = none }

abbrev of_another : DeviceRow
of_another = record laptop { id = "desk"; account_id = 8 }

abbrev two_devices : AppState
two_devices = record idle {
  db = record new_db { tables = record no_tables { devices = laptop ∷ of_another ∷ [] } };
  connections = λ c. if str_eq "c" c then some (record { receiving = true; sent = [] }) else none;
}

abbrev hosting : AppState
hosting = record two_devices { device_online = λ d. if str_eq "laptop" d then some "h" else none }

abbrev logged_in : Task
logged_in = record { conn_state = authenticated 7; my_device_id = none }

abbrev fresh : Dashboard
fresh = record { running = true; requests = []; devices = [] }

abbrev twice : List (Draws × AppState)
twice = (draws, hosting) ∷ (draws, two_devices) ∷ []

two_devices-IsOpen : IsOpen "c" (draws, two_devices)
two_devices-IsOpen = record {
  fine = refl;
  tx = record { receiving = true; sent = [] };
  present = refl;
  alive = refl;
}

hosting-IsOpen : IsOpen "c" (draws, hosting)
hosting-IsOpen = record {
  fine = refl;
  tx = record { receiving = true; sent = [] };
  present = refl;
  alive = refl;
}

refreshes-devices_of_example : refreshes ext "c" logged_in twice fresh ≡ record {
  running = true;
  requests = list_devices ∷ list_devices ∷ [];
  devices =
      (record {
        device_id = "laptop";
        name = "Laptop";
        online = true;
        unattended_access_enabled = false;
      }
        ∷ [])
      ∷ (record {
        device_id = "laptop";
        name = "Laptop";
        online = false;
        unattended_access_enabled = false;
      }
          ∷ [])
      ∷ [];
}
unfolding filter map_device_row summary
refreshes-devices_of_example =
    refreshes-devices_of ext "c" logged_in 7 twice fresh refl
      (hosting-IsOpen, (two_devices-IsOpen, tt)) refl
