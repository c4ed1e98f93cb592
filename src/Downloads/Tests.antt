-- ===== src/Downloads/Tests.antt =====
-- A server with a template for Linux and no settings.
use visuara.Prelude.{
  ℕ, ◌≡◌, refl, List, [], ◌∷◌, ◌++◌, map, none, some, filter, contains, str_eq, arith, find?,
}
use visuara.EmbeddedConfig.{startup_config}
use visuara.EmbeddedConfig.Samples.{encode, braces, template, template_marker, template_room}
use visuara.Db.{get_setting, reads, locked}
use visuara.Session.{Headers}
use visuara.Downloads.Listing.{
  detect_platform, download_option, download_options, fetched_build, insert_by_key, sort_by_key,
  list_downloads,
}
use visuara.Downloads.Listing.Offered.{is_recommended, is_other, list_downloads-filter}
use visuara.Downloads.{
  PlatformInfo, platforms, Files, fetched, file, resolve_template_path, download_platform,
}
use visuara.Downloads.Settings.{configured, download_platform-startup_config}
use visuara.Fixtures.{idle}
use visuara.Client.Paths.{join}

abbrev files : Files
files = record { exists = λ path. str_eq path "fetched/linux-x86_64"; read = λ path. some template }

abbrev linux : PlatformInfo
linux = record {
  key = "linux-x86_64";
  template_filename = "linux-x86_64";
  download_filename = "visuara";
  content_type = "application/octet-stream";
}

download_platform-startup_config_example :
    (bytes : List ℕ) × (((download_platform braces files "linux-x86_64" idle).0 ≡ file linux bytes)
      × (startup_config braces (some bytes) ≡ configured idle))
unfolding encode braces find? resolve_template_path join
download_platform-startup_config_example =
    download_platform-startup_config braces files "linux-x86_64" linux "fetched/linux-x86_64"
      fetched template (b'{' ∷ b'}' ∷ []) 1 idle refl refl refl template_marker template_room refl
      (omega arith) refl

abbrev on_linux : Headers
on_linux = record { cookie = none; user_agent = some "Mozilla/5.0 (X11; Linux x86_64)" }

first_on_linux :
    map (λ o. o.platform) (list_downloads files on_linux idle).0.options
    ≡ "linux-x86_64" ∷ "windows-x86_64" ∷ []
unfolding list_downloads detect_platform contains download_options download_option
    resolve_template_path sort_by_key insert_by_key fetched_build get_setting reads locked join
first_on_linux = refl

list_downloads-filter_example :
    let (server_url, db) = get_setting "server_url" idle.db in
    let (options, db') = download_options files idle (detect_platform on_linux) platforms db in
    ((list_downloads files on_linux idle).0.options
      ≡ filter is_recommended options ++ filter is_other options)
list_downloads-filter_example = list_downloads-filter files on_linux idle
