-- ===== src/Client/Clipboard/Tests.antt =====
-- A clipboard that holds "a".
use visuara.Prelude.{◌≡◌, refl, true, false, [], ◌∷◌}
use visuara.Client.Clipboard.{Sync, Turn, run}
use visuara.Client.Clipboard.Echo.{run-Quiet}

abbrev settled : Sync
settled = record { text = "a"; last_seen = "a"; reported = [] }

-- An update arrives and can be written; the clipboard cannot be read.
abbrev from_peer : Turn
from_peer = record { updates = record { remote = "b"; set_ok = true } ∷ []; get_ok = false }

run-Quiet_example :
    ((run (from_peer ∷ []) settled).text ≡ (run (from_peer ∷ []) settled).last_seen)
    × ((run (from_peer ∷ []) settled).reported ≡ [])
run-Quiet_example = run-Quiet (from_peer ∷ []) settled ((refl, tt), tt) refl
