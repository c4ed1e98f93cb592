-- ===== src/Downloads/Listing.antt =====
-- visuara-signaling/src/api/download.rs: the list of downloads, and api/admin.rs: the statuses of the
-- client builds. The clock's reading is an argument.
pub mod Offered
use visuara.Prelude.{
  ℕ, suc, ◌+◌, ◌-◌, ◌/◌, Bool, true, false, not, ◌&&◌, ◌||◌, List, [], ◌∷◌, Option, none, some,
  String, str_eq, ◌+s◌, decimal, ltb, unwrap_or, contains, if◌then◌else◌, ◌⊎◌, inl, inr,
}
use visuara.Control.{ℤ, pos, negsuc}
use visuara.Db.{Db, get_setting}
use visuara.Session.{Headers, Status, AuthedAccount, require_admin}
use visuara.State.{AppState}
use visuara.Downloads.{
  PlatformInfo, platforms, TemplateSource, manual, fetched, Files, resolve_template_path, setting,
}
use visuara.Downloads.Numbers.{parse_i64}

suggested : String → Option String
suggested ua =
    if contains ua "Windows"
    then some "windows-x86_64"
    else if contains ua "Linux" && not (contains ua "Android")
    then some "linux-x86_64"
    else none

unfoldable pub detect_platform : Headers → Option String
unfolding suggested
detect_platform headers = elim headers.user_agent [ none ↦ none | some ua ↦ suggested ua ]

pub record DownloadOption : Type 0 where
  pub platform : String
  pub available : Bool
  pub recommended : Bool
  pub custom_build : Bool
  pub version : Option String
  pub fetched_at : Option ℤ

pub record DownloadListView : Type 0 where
  pub server_url : Option String
  pub options : List DownloadOption

unfoldable pub version_key : String → String
version_key key = "client_version_" +s key

unfoldable pub fetched_at_key : String → String
fetched_at_key key = "client_fetched_at_" +s key

parsed : Option String → Option ℤ
parsed none = none
parsed (some s) = parse_i64 s

-- The version of a fetched build, and when it was fetched.
unfoldable pub fetched_build : String → Db → (Option String × Option ℤ) × Db
unfolding parsed
fetched_build key db =
    let (version, db') = get_setting (version_key key) db in
    let (fetched_at, db'') = get_setting (fetched_at_key key) db' in
    ((setting version, parsed (setting fetched_at)), db'')

pub is_key : Option String → String → Bool
is_key none key = false
is_key (some detected) key = str_eq key detected

pub option_for : Option (String × TemplateSource) → Bool → String → Db → DownloadOption × Db
option_for none recommended key db = (
  record {
    platform = key;
    available = false;
    recommended = recommended;
    custom_build = false;
    version = none;
    fetched_at = none;
  },
  db,
)
option_for (some (path, manual)) recommended key db = (
  record {
    platform = key;
    available = true;
    recommended = recommended;
    custom_build = true;
    version = none;
    fetched_at = none;
  },
  db,
)
option_for (some (path, fetched)) recommended key db =
    let ((version, fetched_at), db') = fetched_build key db in
    (
      record {
        platform = key;
        available = true;
        recommended = recommended;
        custom_build = false;
        version = version;
        fetched_at = fetched_at;
      },
      db',
    )

unfoldable pub download_option :
    Files → AppState → Option String → PlatformInfo → Db → DownloadOption × Db
unfolding option_for is_key
download_option files s detected p db =
    option_for (resolve_template_path files p s.client_templates_dir s.fetched_templates_dir)
      (is_key detected p.key) p.key db

unfoldable pub download_options :
    Files → AppState → Option String → List PlatformInfo → Db → List DownloadOption × Db
download_options files s detected [] db = ([], db)
download_options files s detected (p ∷ ps) db =
    let (o, db') = download_option files s detected p db in
    let (os, db'') = download_options files s detected ps db' in (o ∷ os, db'')

-- `sort_by_key(|o| !o.recommended)`, which is stable.
unfoldable pub insert_by_key : DownloadOption → List DownloadOption → List DownloadOption
insert_by_key o [] = o ∷ []
insert_by_key o (x ∷ xs) =
    if x.recommended && not o.recommended then x ∷ insert_by_key o xs else o ∷ (x ∷ xs)

unfoldable pub sort_by_key : List DownloadOption → List DownloadOption
sort_by_key [] = []
sort_by_key (o ∷ os) = insert_by_key o (sort_by_key os)

unfoldable pub list_downloads : Files → Headers → AppState → DownloadListView × AppState
list_downloads files headers s =
    let (server_url, db) = get_setting "server_url" s.db in
    let (options, db') = download_options files s (detect_platform headers) platforms db in
    (
      record { server_url = setting server_url; options = sort_by_key options },
      record s { db = db' },
    )

-- The seconds from a time up to now, or 0.
since : ℕ → ℤ → ℕ
since now (pos t) = now - t
since now (negsuc t) = now + suc t

unfoldable pub relative_time : ℕ → ℤ → String
unfolding since
relative_time now unix_secs =
    let delta = since now unix_secs in
    if ltb delta 60
    then "just now"
    else if ltb delta 3600
    then decimal (delta / 60) +s "m ago"
    else if ltb delta 86400
    then decimal (delta / 3600) +s "h ago"
    else decimal (delta / 86400) +s "d ago"

fetched_text : ℕ → Option String × Option ℤ → String
fetched_text now (version, none) = "fetched: " +s unwrap_or version "unknown"
fetched_text now (version, some ts) =
    "fetched: " +s (unwrap_or version "unknown" +s (" (" +s (relative_time now ts +s ")")))

status_for : ℕ → Option (String × TemplateSource) → String → Db → String × Db
status_for now none key db = ("not available", db)
status_for now (some (path, manual)) key db = ("manual override", db)
status_for now (some (path, fetched)) key db =
    let (build, db') = fetched_build key db in (fetched_text now build, db')

-- A platform and its status, for each platform.
unfoldable pub client_build_statuses :
    ℕ → Files → AppState → List PlatformInfo → Db → List (String × String) × Db
unfolding status_for fetched_text
client_build_statuses now files s [] db = ([], db)
client_build_statuses now files s (p ∷ ps) db =
    let (status, db') =
      status_for now (resolve_template_path files p s.client_templates_dir s.fetched_templates_dir)
        p.key db in
    let (rest, db'') = client_build_statuses now files s ps db' in ((p.key, status) ∷ rest, db'')

builds_allowed :
    ℕ → Files → Status ⊎ AuthedAccount → AppState → (Status ⊎ List (String × String)) × AppState
builds_allowed now files (inl status) s = (inl status, s)
builds_allowed now files (inr account) s =
    let (statuses, db) = client_build_statuses now files s platforms s.db in
    (inr statuses, record s { db = db })

-- A bare status for anyone but an administrator, or the list.
unfoldable pub client_builds :
    ℕ → Files → Headers → AppState → (Status ⊎ List (String × String)) × AppState
unfolding builds_allowed
client_builds now files headers s =
    let (who, db) = require_admin headers s.db in
    builds_allowed now files who (record s { db = db })
