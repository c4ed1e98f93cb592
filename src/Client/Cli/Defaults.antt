-- ===== src/Client/Cli/Defaults.antt =====
-- Where a launch has its server and its device name from.
use visuara.Prelude.{◌≡◌, refl, ap, ◌∙◌, ℕ, Option, none, some, List, String, Bool}
use visuara.Protocol.{DeviceId}
use visuara.EmbeddedConfig.{EmbeddedConfig, ConfigJson, startup_config}
use visuara.Client.Disk.{Disk}
use visuara.Client.FileTransfer.{default_destination}
use visuara.Client.Storage.{
  Json, LocalSettings, SavedCredentials, settings_or_default, default_settings, start_fields,
}
use visuara.Client.Cli.{
  host, controller, serve, connect, run_command, main, server_url_of, device_name_of, credential_of,
}

no_settings :
    (found : Option (Option LocalSettings)) (embedded : EmbeddedConfig)
    → settings_or_default found ≡ default_settings
    → (server_url_of none embedded ≡ (start_fields found embedded).server_url)
      × (device_name_of none embedded ≡ (start_fields found embedded).device_name)
unfolding server_url_of device_name_of start_fields
no_settings found embedded e = rw (e) (refl, refl)

-- With no flags, `host` and `controller` take the server and the device name that the window shows at
-- its start where no settings were saved, or none can be read; and they leave the disk alone.
main-start_fields :
    (codec : Json SavedCredentials) (config_dir download_dir : Option String)
    (config_json : ConfigJson) (exe : Option (List ℕ)) (found : Option (Option LocalSettings))
    (email password otp : String) (target : DeviceId) (unattended : Bool) (d : Disk)
    → settings_or_default found ≡ default_settings
    → let shown = start_fields found (startup_config config_json exe) in
      (main codec config_dir download_dir config_json exe (some (host none email password none)) d
        ≡ (
          serve
              (record {
                server_url = shown.server_url;
                email = email;
                password = password;
                device_name = shown.device_name;
              })
              (default_destination download_dir),
          d,
        ))
      × (main codec config_dir download_dir config_json exe
            (some (controller none email password target otp unattended))
            d
          ≡ (connect shown.server_url email password target (credential_of otp unattended), d))
unfolding main run_command
main-start_fields codec config_dir download_dir config_json exe found email password otp target
      unattended d e =
    let (url, name) = no_settings found (startup_config config_json exe) e in
    (
      ap
            (λ u. (
              serve
                  (record {
                    server_url = u;
                    email = email;
                    password = password;
                    device_name = device_name_of none (startup_config config_json exe);
                  })
                  (default_destination download_dir),
              d,
            ))
            url
          ∙ ap
              (λ n. (
                serve
                    (record {
                      server_url = (start_fields found (startup_config config_json exe)).server_url;
                      email = email;
                      password = password;
                      device_name = n;
                    })
                    (default_destination download_dir),
                d,
              ))
              name,
      ap (λ u. (connect u email password target (credential_of otp unattended), d)) url,
    )
