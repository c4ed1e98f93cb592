-- ===== src/Client/Cli/Autostarted.antt =====
-- What the auto-started process does after the button of the window (main.rs, gui.rs, autostart.rs,
-- saved_credentials.rs).
use visuara.Prelude.{◌≡◌, ◌≢◌, ap, ℕ, Bool, false, Option, some, List, String, str_eq}
use visuara.EmbeddedConfig.{ConfigJson}
use visuara.Client.Disk.{Disk, directory}
use visuara.Client.Disk.Replace.{Unshared}
use visuara.Client.FileTransfer.{default_destination}
use visuara.Client.Storage.{Json, SavedCredentials, save_at, credentials_path}
use visuara.Client.Storage.Kept.{Steady, load_at_read}
use visuara.Client.Autostart.{unit_path, is_enabled, toggle}
use visuara.Client.Autostart.Kept.{toggle-Holds}
use visuara.Client.Cli.{host_autostart, serve, served, run_command, main}

-- After the button has turned auto-start on, the auto-started process hosts with the account, the
-- server and the device name that the window had, and receives files in the default directory, whether
-- or not systemctl failed: serde_json can write the credentials, no call of the disk fails, there is no
-- directory at the two paths, and once the credentials are saved the unit file is another file.
pub main-toggle :
    (codec : Json SavedCredentials) (utf8 : String → List ℕ)
    (config_dir download_dir : Option String) (path unit exe : String) (systemctl : Option Bool)
    (creds : SavedCredentials) (json : List ℕ) (config_json : ConfigJson) (bytes : Option (List ℕ))
    (d : Disk)
    → is_enabled utf8 config_dir d ≡ false
    → credentials_path config_dir ≡ some path
    → unit_path config_dir ≡ some unit
    → codec.to_vec creds ≡ some json
    → Steady d
    → d.names (d.resolve path) ≢ some directory
    → let saved = (save_at codec (some path) creds d).1 in
      saved.names (saved.resolve unit) ≢ some directory
      → str_eq (saved.resolve unit) (saved.resolve path) ≡ false
      → Unshared unit path saved
      → let after = (toggle utf8 config_dir codec creds (some exe) systemctl d).1 in
        (main codec config_dir download_dir config_json bytes (some host_autostart) after).0
        ≡ serve creds (default_destination download_dir)
unfolding main run_command served
main-toggle codec utf8 config_dir download_dir path unit exe systemctl creds json config_json bytes
      d off at_path at_unit writes steady file unit_file apart other =
    let kept =
      toggle-Holds codec utf8 config_dir path unit exe systemctl creds json d off at_path at_unit
        writes steady file unit_file apart other in
    let loaded =
      load_at_read codec path creds json _ kept (codec.from_slice-to_vec creds json writes) in
    rw (at_path) (ap (λ o. served o (default_destination download_dir)) loaded)
