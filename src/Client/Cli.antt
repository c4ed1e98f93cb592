-- ===== src/Client/Cli.antt =====
-- visuara-client/src/main.rs: what a command line starts. clap's parsing of it is a parameter: the
-- command is given. What `register_and_serve` and `connect` then do is in Host, Signaling and
-- Controller; that the input injector can be made is left open here.
pub mod Autostarted
pub mod Defaults
mod Tests
use visuara.Prelude.{ℕ, Bool, Option, none, some, List, String, unwrap_or, if◌then◌else◌}
use visuara.Protocol.{DeviceId, ConnectCredential, one_time_password, unattended_password}
use visuara.EmbeddedConfig.{EmbeddedConfig, ConfigJson, startup_config}
use visuara.Client.Disk.{Disk}
use visuara.Client.FileTransfer.{default_destination}
use visuara.Client.Storage.{Json, SavedCredentials, load_at, credentials_path}

pub data Command : Type 0 where
  gui host_autostart : Command
  host : Option String → String → String → Option String → Command
  controller : Option String → String → String → DeviceId → String → Bool → Command

-- The call that a process comes to: the window, `register_and_serve` with its arguments, `connect` with
-- its arguments, or an error of loading the credentials, among them that there are none.
pub data Launch : Type 0 where
  window : Launch
  serve : SavedCredentials → String → Launch
  connect : String → String → String → DeviceId → ConnectCredential → Launch
  load_error no_credentials : Launch

or : Option String → Option String → Option String
or none b = b
or (some a) b = some a

unfoldable pub server_url_of : Option String → EmbeddedConfig → String
unfolding or
server_url_of given embedded = unwrap_or (or given embedded.server_url) "ws://127.0.0.1:8080/ws"

unfoldable pub device_name_of : Option String → EmbeddedConfig → String
unfolding or
device_name_of given embedded = unwrap_or (or given embedded.device_name) "this-machine"

unfoldable pub credential_of : String → Bool → ConnectCredential
credential_of otp unattended = if unattended then unattended_password otp else one_time_password otp

-- `SavedCredentials::load()?.context(…)?`
served : Option (Option SavedCredentials) → String → Launch
served none dest = load_error
served (some none) dest = no_credentials
served (some (some creds)) dest = serve creds dest

-- `config_dir` and `download_dir` are what the crate dirs gives.
module _ (codec : Json SavedCredentials) (config_dir download_dir : Option String) where
  run_command : EmbeddedConfig → Command → Disk → Launch × Disk
  unfolding served
  run_command embedded gui d = (window, d)
  run_command embedded (host server_url email password device_name) d = (
    serve
        (record {
          server_url = server_url_of server_url embedded;
          email = email;
          password = password;
          device_name = device_name_of device_name embedded;
        })
        (default_destination download_dir),
    d,
  )
  run_command embedded host_autostart d =
      let (found, d') = load_at codec (credentials_path config_dir) d in
      (served found (default_destination download_dir), d')
  run_command embedded (controller server_url email password target otp unattended) d = (
    connect (server_url_of server_url embedded) email password target
        (credential_of otp unattended),
    d,
  )

  -- The executable's bytes, if they can be read, and the command that was given, if any was.
  unfoldable pub main : ConfigJson → Option (List ℕ) → Option Command → Disk → Launch × Disk
  unfolding run_command
  main config_json exe command d =
      run_command (startup_config config_json exe) (unwrap_or command gui) d
