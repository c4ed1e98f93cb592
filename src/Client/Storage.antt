-- ===== src/Client/Storage.antt =====
-- visuara-client/src/local_storage.rs, local_settings.rs and saved_credentials.rs, and the parts of
-- gui.rs that load and save settings: values that are kept as JSON in files of their own.
-- serde_json is the parameter `Json`, and what `dirs::config_dir` gives is an argument. The permissions
-- of a file are not modelled. A function that the source calls for its effect gives whether it succeeds.
pub mod Kept
pub mod Start
mod Tests
use visuara.Prelude.{
  ◌≡◌, Bool, true, false, Option, none, some, List, ℕ, String, unwrap_or, if◌then◌else◌,
}
use visuara.EmbeddedConfig.{EmbeddedConfig}
use visuara.Client.Paths.{join}
use visuara.Client.Disk.{Disk, exists, write_file, read_file, try_remove_file, other_call}

-- What the code relies on in serde_json: what is written reads back.
pub record Json (A : Type 0) : Type 0 where
  pub to_vec : A → Option (List ℕ)
  pub from_slice : List ℕ → Option A
  pub from_slice-to_vec : (a : A) (json : List ℕ) → to_vec a ≡ some json → from_slice json ≡ some a

-- The directory is made, the file written, and its permissions restricted.
restricted : Bool × Disk → Bool × Disk
restricted (false, d) = (false, d)
restricted (true, d) = other_call d

written_into : Bool × Disk → String → List ℕ → Bool × Disk
written_into (false, d) path bytes = (false, d)
written_into (true, d) path bytes = restricted (write_file path bytes d)

unfoldable pub write_restricted : String → List ℕ → Disk → Bool × Disk
unfolding written_into restricted
write_restricted path bytes d = written_into (other_call d) path bytes

module _ {A : Type 0} (codec : Json A) where
  save_json : Option (List ℕ) → String → Disk → Bool × Disk
  save_json none path d = (false, d)
  save_json (some json) path d = write_restricted path json d

  -- An absent path stands for `config_dir` failing.
  unfoldable pub save_at : Option String → A → Disk → Bool × Disk
  unfolding save_json
  save_at none a d = (false, d)
  save_at (some path) a d = save_json (codec.to_vec a) path d

  parsed : Option (List ℕ) → Option (Option A)
  parsed none = none
  parsed (some bytes) = elim (codec.from_slice bytes) [ none ↦ none | some a ↦ some (some a) ]

  load_present : Bool → String → Disk → Option (Option A) × Disk
  load_present false path d = (some none, d)
  load_present true path d = let (bytes, d') = read_file path d in (parsed bytes, d')

  -- An error, no value, or the value.
  unfoldable pub load_at : Option String → Disk → Option (Option A) × Disk
  unfolding load_present parsed
  load_at none d = (none, d)
  load_at (some path) d = load_present (exists d path) path d

clear_present : Bool → String → Disk → Bool × Disk
clear_present false path d = (true, d)
clear_present true path d = try_remove_file path d

unfoldable pub clear_at : Option String → Disk → Bool × Disk
unfolding clear_present
clear_at none d = (false, d)
clear_at (some path) d = clear_present (exists d path) path d

-- The path of a file in the configuration directory.
unfoldable pub config_file : Option String → String → Option String
config_file none name = none
config_file (some config_dir) name = some (join (join config_dir "visuara") name)

pub record RememberedLogin : Type 0 where
  pub email : String
  pub password : String

pub record LocalSettings : Type 0 where
  pub server_url : Option String
  pub device_name : Option String
  pub remembered_login : Option RememberedLogin

abbrev pub default_settings : LocalSettings
default_settings = record { server_url = none; device_name = none; remembered_login = none }

pub record SavedCredentials : Type 0 where
  pub server_url : String
  pub email : String
  pub password : String
  pub device_name : String

unfoldable pub settings_path : Option String → Option String
settings_path config_dir = config_file config_dir "local-settings.json"

unfoldable pub credentials_path : Option String → Option String
credentials_path config_dir = config_file config_dir "unattended-credentials.json"

-- `load().ok().flatten().unwrap_or_default()`
unfoldable pub settings_or_default : Option (Option LocalSettings) → LocalSettings
settings_or_default none = default_settings
settings_or_default (some found) = unwrap_or found default_settings

abbrev pub with_names : String → String → LocalSettings → LocalSettings
with_names server_url device_name s = record s {
  server_url = some server_url;
  device_name = some device_name;
}

abbrev pub with_login : RememberedLogin → LocalSettings → LocalSettings
with_login login s = record s { remembered_login = some login }

abbrev pub without_login : LocalSettings → LocalSettings
without_login s = record s { remembered_login = none }

module _ (codec : Json LocalSettings) (config_dir : Option String) where
  unfoldable pub save_settings : LocalSettings → Disk → Bool × Disk
  save_settings s d = save_at codec (settings_path config_dir) s d

  unfoldable pub load_settings : Disk → Option (Option LocalSettings) × Disk
  load_settings d = load_at codec (settings_path config_dir) d

  forget_login : Option RememberedLogin → LocalSettings → Disk → Bool × Disk
  forget_login none s d = (true, d)
  forget_login (some login) s d = save_settings (without_login s) d

  forget : Option (Option LocalSettings) → Disk → Bool × Disk
  forget none d = (false, d)
  forget (some none) d = (true, d)
  forget (some (some s)) d = forget_login s.remembered_login s d

  unfoldable pub clear_remembered_login : Disk → Bool × Disk
  unfolding forget forget_login
  clear_remembered_login d = let (found, d') = load_settings d in forget found d'

  -- `autosave_local_settings` of gui.rs; the result of the save is dropped.
  unfoldable pub autosave_local_settings : String → String → Disk → Disk
  autosave_local_settings server_url device_name d =
      let (found, d') = load_settings d in
      (save_settings (with_names server_url device_name (settings_or_default found)) d').1

  -- The login that the dashboard panel of gui.rs keeps after a log in with `remember_me`.
  unfoldable pub remember_login : RememberedLogin → Disk → Disk
  remember_login login d =
      let (found, d') = load_settings d in
      (save_settings (with_login login (settings_or_default found)) d').1

-- The fields of the window that `VisuaraApp::new` reads from the settings.
pub record StartFields : Type 0 where
  pub server_url : String
  pub email : String
  pub password : String
  pub device_name : String
  pub remember_me : Bool

or_else : Option String → Option String → Option String
or_else none b = b
or_else (some a) b = some a

login_fields : Option RememberedLogin → String × String × Bool
login_fields none = ("", "", false)
login_fields (some login) = (login.email, login.password, true)

-- The settings are what `load` gives, and a configuration is embedded in the executable or not.
unfoldable pub start_fields : Option (Option LocalSettings) → EmbeddedConfig → StartFields
unfolding or_else login_fields
start_fields found embedded =
    let local : LocalSettings = settings_or_default found in
    let (email, password, remember_me) = login_fields local.remembered_login in
    record {
      server_url =
          unwrap_or (or_else local.server_url embedded.server_url) "ws://127.0.0.1:8080/ws";
      email = email;
      password = password;
      device_name = unwrap_or (or_else local.device_name embedded.device_name) "this-machine";
      remember_me = remember_me;
    }
