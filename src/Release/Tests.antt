-- ===== src/Release/Tests.antt =====
-- A release with a build for Linux, fetched to an empty disk.
use visuara.Prelude.{◌≡◌, refl, inr, true, false, [], ◌∷◌, none, some, str_eq, find?, arith}
use visuara.EmbeddedConfig.Samples.{template}
use visuara.Db.{set_setting, writes, locked}
use visuara.Downloads.{PlatformInfo, platforms}
use visuara.Downloads.Listing.{DownloadOption, list_downloads}
use visuara.Client.Paths.{join}
use visuara.Client.Disk.{exists, write_file, create, write_all, rename}
use visuara.Fixtures.{idle, empty_disk}
use visuara.Release.{
  Http, GithubRelease, GithubAsset, Store, ◌>>=◌, ◌>>◌, on_disk, on_db, asset_for, download,
  store_template, record_version, fetch_one_platform,
}
use visuara.Release.Atomic
use visuara.Release.Stored.{files_of}
use visuara.Release.Listed.{Stands, Shows, list_downloads-fetched}
use visuara.Session.{Headers}

abbrev linux : PlatformInfo
linux = record {
  key = "linux-x86_64";
  template_filename = "linux-x86_64";
  download_filename = "visuara";
  content_type = "application/octet-stream";
}

abbrev asset : GithubAsset
asset = record { name = "linux-x86_64"; browser_download_url = "https://example/linux" }

abbrev release : GithubRelease
release = record { tag_name = "v1"; assets = asset ∷ [] }

-- A network where every request gets the sample build.
abbrev http : Http
http = record {
  get = λ url accept. some (record { is_success = true; body = some template });
  parse = λ bytes. some release;
}

abbrev fresh : Store
fresh = record { app = idle; disk = empty_disk }

apart : Atomic.Apart linux fresh
unfolding join
apart = (refl, λ i e. absurd (ground arith))

succeeds : (fetch_one_platform http 5 release linux fresh).0 ≡ inr "v1"
unfolding fetch_one_platform ◌>>=◌ ◌>>◌ on_disk on_db asset_for find? download store_template
    record_version write_file create write_all rename set_setting writes locked join
succeeds = refl

abbrev after : Store
after = (fetch_one_platform http 5 release linux fresh).1

no_manual : exists after.disk (join after.app.client_templates_dir "linux-x86_64") ≡ false
unfolding fetch_one_platform ◌>>=◌ ◌>>◌ on_disk on_db asset_for find? download store_template
    record_version write_file create write_all rename set_setting writes locked join exists
no_manual = refl

steady : after.app.db.faults ≡ []
unfolding fetch_one_platform ◌>>=◌ ◌>>◌ on_disk on_db asset_for find? download store_template
    record_version write_file create write_all rename set_setting writes locked join
steady = refl

known : find? (λ p. str_eq p.key "linux-x86_64") platforms ≡ some linux
unfolding find?
known = refl

abbrev browser : Headers
browser = record { cookie = none; user_agent = none }

list_downloads-fetched_example :
    (o : DownloadOption) × Stands o
      (list_downloads (files_of after.disk) browser after.app).0.options
    × Shows linux release 5 o
list_downloads-fetched_example =
    list_downloads-fetched http 5 release linux fresh "v1" browser apart succeeds (omega arith)
      known no_manual steady
