-- ===== src/Client/Autostart/Kept.antt =====
-- What turning auto-start on keeps (autostart.rs, and the button of gui.rs).
use visuara.Prelude.{◌≡◌, ◌≢◌, ◌∙◌, ℕ, Bool, true, false, Option, some, List, String, str_eq, arith}
use visuara.Client.Disk.{Disk, directory, next_call, read, write_file}
use visuara.Client.Disk.Calls.{next_call_steady}
use visuara.Client.Disk.Replace.{Unshared, write_file_keeps}
use visuara.Client.Disk.Whole.{write_file-read, other_call_steady}
use visuara.Client.Storage.{Json, SavedCredentials, save_at, credentials_path}
use visuara.Client.Storage.Kept.{Steady, Holds, save_at-Holds}
use visuara.Client.Autostart.{
  unit_path, unit_text, in_directory, enable_at, enable, is_enabled, and_then, toggle,
}
use visuara.Client.Autostart.Toggle.{started-disk}

-- Enabling auto-start writes the unit file and no other.
enable-Holds :
    (utf8 : String → List ℕ) (config_dir : Option String) (unit path exe : String)
    (systemctl : Option Bool) (bytes : List ℕ) (d : Disk)
    → unit_path config_dir ≡ some unit
    → Holds path bytes d
    → d.names (d.resolve unit) ≢ some directory
    → str_eq (d.resolve unit) (d.resolve path) ≡ false
    → Unshared unit path d
    → Holds path bytes (enable utf8 config_dir (some exe) systemctl d).1
unfolding enable next_call read
enable-Holds utf8 config_dir unit path exe systemctl bytes d e (reads, steady) file apart other =
    let (_, still, done) =
      write_file-read unit (utf8 (unit_text exe)) (next_call d) (next_call_steady d steady) file in
    rw
      (
        e,
        enable_at,
        other_call_steady d steady,
        in_directory,
        started-disk utf8 config_dir (write_file unit (utf8 (unit_text exe)) (next_call d))
            systemctl done,
      )
      (write_file_keeps unit (utf8 (unit_text exe)) path (next_call d) apart other ∙ reads, still)

-- The button turns auto-start on, and the credentials that it saved stay.
pub toggle-Holds :
    (codec : Json SavedCredentials) (utf8 : String → List ℕ) (config_dir : Option String)
    (path unit exe : String) (systemctl : Option Bool) (creds : SavedCredentials) (json : List ℕ)
    (d : Disk)
    → is_enabled utf8 config_dir d ≡ false
    → credentials_path config_dir ≡ some path
    → unit_path config_dir ≡ some unit
    → codec.to_vec creds ≡ some json
    → Steady d
    → d.names (d.resolve path) ≢ some directory
    → let saved = (save_at codec (some path) creds d).1 in
      saved.names (saved.resolve unit) ≢ some directory
      → str_eq (saved.resolve unit) (saved.resolve path) ≡ false
      → Unshared unit path saved
      → Holds path json (toggle utf8 config_dir codec creds (some exe) systemctl d).1
unfolding toggle
toggle-Holds codec utf8 config_dir path unit exe systemctl creds json d off at_path at_unit writes
      steady file unit_file apart other =
    let (done, held) = save_at-Holds codec path creds json d steady file writes in
    rw (off, at_path, toggle)
      (after_save (save_at codec (some path) creds d) done (
        enable-Holds utf8 config_dir unit path exe systemctl json
          (save_at codec (some path) creds d).1 at_unit held unit_file apart other))
  where
    after_save :
        (r : Bool × Disk)
        → r.0 ≡ true
        → Holds path json (enable utf8 config_dir (some exe) systemctl r.1).1
        → Holds path json
            (and_then utf8 config_dir r (λ e. enable utf8 config_dir (some exe) systemctl e)).1
    after_save (true, e) done h = h
    after_save (false, e) done h = absurd (ground arith)
