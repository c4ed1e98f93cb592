-- ===== src/Downloads.antt =====
-- visuara-signaling/src/platforms.rs and api/download.rs: which template a platform has, and the client
-- that is downloaded. The files of the two template directories are a parameter: which paths exist, and
-- what reading one gives. A panic of the task that patches is not here.
pub mod Settings
pub mod Listing
pub mod Numbers
mod Tests
use visuara.Prelude.{
  Bool, List, [], ◌∷◌, ℕ, Option, none, some, String, str_eq, if◌then◌else◌, find?, ◌+s◌,
}
use visuara.Db.{Db, Result, ok, err, get_setting}
use visuara.State.{AppState}
use visuara.Client.Paths.{join}
use visuara.EmbeddedConfig.{EmbeddedConfig, ConfigJson, ConfigError, patch_binary}
use visuara.EmbeddedConfig

pub record PlatformInfo : Type 0 where
  pub key : String
  pub template_filename : String
  pub download_filename : String
  pub content_type : String

abbrev pub platforms : List PlatformInfo
platforms =
    record {
      key = "windows-x86_64";
      template_filename = "windows-x86_64.exe";
      download_filename = "visuara.exe";
      content_type = "application/vnd.microsoft.portable-executable";
    }
    ∷ (record {
      key = "linux-x86_64";
      template_filename = "linux-x86_64";
      download_filename = "visuara";
      content_type = "application/octet-stream";
    }
        ∷ [])

pub data TemplateSource : Type 0 where
  manual fetched : TemplateSource

pub record Files : Type 0 where
  pub exists : String → Bool
  pub read : String → Option (List ℕ)

unfoldable pub resolve_template_path :
    Files → PlatformInfo → String → String → Option (String × TemplateSource)
resolve_template_path files info client_templates_dir fetched_templates_dir =
    if files.exists (join client_templates_dir info.template_filename)
    then some (join client_templates_dir info.template_filename, manual)
    else if files.exists (join fetched_templates_dir info.template_filename)
    then some (join fetched_templates_dir info.template_filename, fetched)
    else none

-- A 404 with a text, a 500 with the error, or the file with its name and its content type.
pub data Download : Type 0 where
  missing : String → Download
  failed : ConfigError → Download
  file : PlatformInfo → List ℕ → Download

-- `.ok().flatten()`
abbrev pub setting : Result (Option String) → Option String
setting (ok o) = o
setting (err e) = none

abbrev pub answer : PlatformInfo → EmbeddedConfig.Result (List ℕ) → Download
answer info (EmbeddedConfig.ok bytes) = file info bytes
answer info (EmbeddedConfig.err e) = failed e

-- The template with the settings of the server patched into it.
unfoldable pub patched : ConfigJson → PlatformInfo → List ℕ → AppState → Download × AppState
patched codec info template s =
    let (server_url, db') = get_setting "server_url" s.db in
    let (device_name, db'') = get_setting "default_device_name" db' in
    let config : EmbeddedConfig = record {
      server_url = setting server_url;
      device_name = setting device_name;
    } in
    (answer info (patch_binary codec config template), record s { db = db'' })

unfoldable pub download_platform : ConfigJson → Files → String → AppState → Download × AppState
download_platform codec files platform s = elim (find? (λ p. str_eq p.key platform) platforms) [
  | none ↦ (missing "unknown platform", s)
  | some info ↦
      elim (resolve_template_path files info s.client_templates_dir s.fetched_templates_dir) [
        | none ↦ (missing "no build uploaded for this platform yet", s)
        | some (path, source) ↦ elim (files.read path) [
          | none ↦ (missing "no build uploaded for this platform yet", s)
          | some template ↦ patched codec info template s
        ]
      ]
]
