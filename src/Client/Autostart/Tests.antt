-- ===== src/Client/Autostart/Tests.antt =====
-- The property of auto-start at an empty disk, where `systemctl` fails.
use visuara.Prelude.{◌≡◌, refl, arith, true, false, some, [], String, List, ℕ}
use visuara.Fixtures.{empty_disk}
use visuara.Client.Paths.{join}
use visuara.Client.Autostart.{unit_path, systemctl_result, enable, is_enabled}
use visuara.Client.Autostart.Toggle.{is_enabled-enable}

abbrev no_text : String → List ℕ
no_text s = []

unit_at : unit_path (some "/c") ≡ some "/c/systemd/user/visuara-host.service"
unfolding unit_path join
unit_at = refl

is_enabled-enable_example :
    ((enable no_text (some "/c") (some "/bin/v") (some false) empty_disk).0
      ≡ systemctl_result (some false))
    × (is_enabled no_text
          (some "/c")
          (enable no_text (some "/c") (some "/bin/v") (some false) empty_disk).1
        ≡ true)
is_enabled-enable_example =
    is_enabled-enable no_text (some "/c") "/c/systemd/user/visuara-host.service" "/bin/v"
      (some false) empty_disk unit_at refl (λ e. ground arith)
