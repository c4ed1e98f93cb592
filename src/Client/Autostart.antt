-- ===== src/Client/Autostart.antt =====
-- visuara-client/src/autostart.rs, the Unix platform: a unit file of systemd; and the button of gui.rs
-- that turns auto-start on and off. What `current_exe`, `config_dir` and `systemctl` give are arguments;
-- a program that cannot be started is `none`.
pub mod Toggle
pub mod Kept
mod Tests
use visuara.Prelude.{Bool, true, false, Option, none, some, String, ◌+s◌, ℕ, List}
use visuara.Client.Paths.{join}
use visuara.Client.Disk.{Disk, exists, write_file, try_remove_file, other_call}
use visuara.Client.Storage.{Json, SavedCredentials, save_at, clear_at, credentials_path}

unfoldable pub unit_path : Option String → Option String
unit_path none = none
unit_path (some config_dir) = some (join (join config_dir "systemd/user") "visuara-host.service")

unfoldable pub unit_text : String → String
unit_text exe =
    "[Unit]\nDescription=Visuara unattended host\n\n[Service]\nExecStart=\"" +s exe
    +s "\" host-autostart\nRestart=on-failure\n\n[Install]\nWantedBy=default.target\n"

-- The exit of `systemctl`, if it could be started: whether it succeeded.
unfoldable pub systemctl_result : Option Bool → Bool
systemctl_result none = true
systemctl_result (some success) = success

module _ (utf8 : String → List ℕ) (config_dir : Option String) where
  pub started : Bool × Disk → Option Bool → Bool × Disk
  started (false, d) systemctl = (false, d)
  started (true, d) systemctl = (systemctl_result systemctl, d)

  in_directory : Bool × Disk → String → String → Option Bool → Bool × Disk
  in_directory (false, d) path exe systemctl = (false, d)
  in_directory (true, d) path exe systemctl =
      started (write_file path (utf8 (unit_text exe)) d) systemctl

  enable_at : Option String → String → Option Bool → Disk → Bool × Disk
  enable_at none exe systemctl d = (false, d)
  enable_at (some path) exe systemctl d = in_directory (other_call d) path exe systemctl

  unfoldable pub enable : Option String → Option Bool → Disk → Bool × Disk
  unfolding enable_at in_directory started
  enable none systemctl d = (false, d)
  enable (some exe) systemctl d = enable_at (unit_path config_dir) exe systemctl d

  -- What `systemctl` gives is dropped.
  unfoldable pub disable : Disk → Bool × Disk
  disable d = clear_at (unit_path config_dir) d

  is_enabled_at : Option String → Disk → Bool
  is_enabled_at none d = false
  is_enabled_at (some path) d = exists d path

  unfoldable pub is_enabled : Disk → Bool
  unfolding is_enabled_at
  is_enabled d = is_enabled_at (unit_path config_dir) d

  and_then : Bool × Disk → (Disk → Bool × Disk) → Bool × Disk
  and_then (false, d) next = (false, d)
  and_then (true, d) next = next d

  -- The button: whether it reports no error, and the disk.
  unfoldable pub toggle :
      Json SavedCredentials → SavedCredentials → Option String → Option Bool → Disk → Bool × Disk
  unfolding and_then
  toggle codec creds exe systemctl d = elim (is_enabled d) [
    | true ↦ and_then (disable d) (λ d'. clear_at (credentials_path config_dir) d')
    | false ↦
        and_then (save_at codec (credentials_path config_dir) creds d)
          (λ d'. enable exe systemctl d')
  ]
