-- ===== src/Downloads/Settings.antt =====
-- The client that is downloaded starts with the settings of the server.
use visuara.Prelude.{
  ℕ, ◌+◌, ◌≤◌, ◌≡◌, refl, ap, ◌∙◌, [], List, some, String, str_eq, length, find?, arith,
}
use visuara.Db.{Db, ok, get_setting, reads}
use visuara.State.{AppState}
use visuara.Api.Steady.{locked_fine}
use visuara.EmbeddedConfig.{
  EmbeddedConfig, ConfigJson, config_magic, config_slot_size, patch_binary, startup_config,
  read_from_current_exe,
}
use visuara.EmbeddedConfig.Bytes.{find_subslice}
use visuara.EmbeddedConfig.Patching.{find_in_binary-patch_binary}
use visuara.Downloads.{
  PlatformInfo, platforms, TemplateSource, Files, resolve_template_path, file, answer, patched,
  download_platform,
}

-- What the server's settings come to as a configuration of the client.
abbrev pub configured : AppState → EmbeddedConfig
configured s = record {
  server_url = s.db.tables.settings "server_url";
  device_name = s.db.tables.settings "default_device_name";
}

pub get_setting_fine :
    (key : String) (db : Db)
    → db.faults ≡ []
    → get_setting key db ≡ (ok (db.tables.settings key), record db { faults = [] })
unfolding get_setting reads
get_setting_fine key db fine = locked_fine _ db fine

patched_fine :
    (codec : ConfigJson) (info : PlatformInfo) (template : List ℕ) (s : AppState)
    → s.db.faults ≡ []
    → (patched codec info template s).0 ≡ answer info (patch_binary codec (configured s) template)
unfolding patched
patched_fine codec info template s fine = ground (
  arith,
  get_setting_fine "server_url" s.db fine,
  get_setting_fine "default_device_name" (record s.db { faults = [] }) refl,
)

module _ (codec : ConfigJson) (files : Files) where
  -- The download of a platform that has a readable template, with the marker and room for the slot,
  -- succeeds, and the client that is downloaded starts with the server's settings as its
  -- configuration, if their JSON fits the slot and no call of the database fails.
  pub download_platform-startup_config :
      (platform : String) (info : PlatformInfo) (path : String) (source : TemplateSource)
      (template json : List ℕ) (pos : ℕ) (s : AppState)
      → find? (λ p. str_eq p.key platform) platforms ≡ some info
      → resolve_template_path files info s.client_templates_dir s.fetched_templates_dir
        ≡ some (path, source)
      → files.read path ≡ some template
      → find_subslice template config_magic ≡ some pos
      → pos + length config_magic + config_slot_size ≤ length template
      → codec.to_vec (configured s) ≡ some json
      → length json ≤ config_slot_size
      → s.db.faults ≡ []
      → (bytes : List ℕ) × (((download_platform codec files platform s).0 ≡ file info bytes)
          × (startup_config codec (some bytes) ≡ configured s))
  unfolding download_platform startup_config read_from_current_exe
  download_platform-startup_config platform info path source template json pos s known resolved
        there found room enc fits fine =
      let (bytes, good, back, size, before, behind) =
        find_in_binary-patch_binary codec (configured s) json template pos found room enc fits in
      (
        bytes,
        (
          rw (known, resolved, there, download_platform)
              (patched_fine codec info template s fine ∙ ap (λ r. answer info r) good),
          rw (back, startup_config, read_from_current_exe),
        ),
      )
