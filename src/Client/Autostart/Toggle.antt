-- ===== src/Client/Autostart/Toggle.antt =====
-- Whether auto-start shows as enabled (autostart.rs).
use visuara.Prelude.{◌≡◌, ◌≢◌, refl, arith, Bool, true, false, Option, some, List, [], ℕ, String}
use visuara.Client.Disk.{directory, Disk, next_call, write_file}
use visuara.Client.Disk.Calls.{next_call_steady}
use visuara.Client.Disk.Whole.{write_file-read, read-exists, other_call_steady}
use visuara.Client.Autostart.{
  unit_path, unit_text, systemctl_result, started, in_directory, enable_at, enable, is_enabled,
  is_enabled_at,
}

pub started-disk :
    (utf8 : String → List ℕ) (config_dir : Option String) (r : Bool × Disk)
    (systemctl : Option Bool)
    → r.0 ≡ true
    → started utf8 config_dir r systemctl ≡ (systemctl_result systemctl, r.1)
unfolding started
started-disk utf8 config_dir (false, d) systemctl e = absurd (ground arith)
started-disk utf8 config_dir (true, d) systemctl e = refl

-- Once enabling auto-start has written the unit file, auto-start shows as enabled, although enabling is
-- an error when `systemctl` ran and failed: the configuration directory is known, no call of the disk
-- fails, and there is no directory at the path of the unit.
pub is_enabled-enable :
    (utf8 : String → List ℕ) (config_dir : Option String) (path exe : String)
    (systemctl : Option Bool) (d : Disk)
    → unit_path config_dir ≡ some path
    → d.failures ≡ []
    → d.names (d.resolve path) ≢ some directory
    → ((enable utf8 config_dir (some exe) systemctl d).0 ≡ systemctl_result systemctl)
      × (is_enabled utf8 config_dir (enable utf8 config_dir (some exe) systemctl d).1 ≡ true)
unfolding enable is_enabled next_call
is_enabled-enable utf8 config_dir path exe systemctl d e steady file =
    let (reads, _, done) =
      write_file-read path (utf8 (unit_text exe)) (next_call d) (next_call_steady d steady) file in
    rw
      (
        e,
        is_enabled_at,
        enable_at,
        other_call_steady d steady,
        in_directory,
        started-disk utf8 config_dir (write_file path (utf8 (unit_text exe)) (next_call d))
            systemctl done,
      )
      (refl, read-exists path _ _ reads)
