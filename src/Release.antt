-- ===== src/Release.antt =====
-- visuara-signaling/src/release_fetch.rs, and fetch_release of api/admin.rs: the client builds of the
-- latest GitHub release are stored beside the server. HTTP and JSON are a parameter; the files are
-- those of Client/Disk. A directory at a path is not renamed here: only files are.
pub mod Atomic
pub mod Stored
pub mod Listed
mod Tests
use visuara.Prelude.{
  ℕ, Bool, true, false, List, [], ◌∷◌, map, Option, none, some, String, str_eq, ◌+s◌, ◌⊎◌, inl, inr,
  find?, decimal, if◌then◌else◌,
}
use visuara.Db.{DbError, Db, Result, ok, err, set_setting}
use visuara.State.{AppState}
use visuara.Session.{Headers, Status, require_admin, AuthedAccount}
use visuara.Downloads.{PlatformInfo, platforms}
use visuara.Downloads.Listing.{version_key, fetched_at_key}
use visuara.Client.Paths.{join}
use visuara.Client.Disk.{Disk, write_file, rename}

abbrev pub release_repo : String
release_repo = "deranjer/visuara"

pub record GithubAsset : Type 0 where
  pub name : String
  pub browser_download_url : String

pub record GithubRelease : Type 0 where
  pub tag_name : String
  pub assets : List GithubAsset

-- A response: whether its status is no error, and its body, if that can be read.
pub record HttpResponse : Type 0 where
  pub is_success : Bool
  pub body : Option (List ℕ)

-- `reqwest` and the parsing of a release: what a GET of a URL with an Accept header gives, if there is a
-- response.
pub record Http : Type 0 where
  pub get : String → Option String → Option HttpResponse
  pub parse : List ℕ → Option GithubRelease

pub data FetchError : Type 0 where
  no_response error_status bad_body : String → FetchError
  no_asset : String → String → FetchError
  write_failed : String → FetchError
  rename_failed : String → String → FetchError
  database : DbError → FetchError

-- What the code works on: the shared state and the files.
pub record Store : Type 0 where
  pub app : AppState
  pub disk : Disk

abbrev pub F : Type 0 → Type 0
F A = Store → (FetchError ⊎ A) × Store

abbrev pub proceed : {A B : Type 0} → (A → F B) → FetchError ⊎ A → F B
proceed f (inl e) s = (inl e, s)
proceed f (inr a) s = f a s

infixl 5 ◌>>=◌ ◌>>◌
unfoldable pub ◌>>=◌ : {A B : Type 0} → F A → (A → F B) → F B
◌>>=◌ m f s = proceed f (m s).0 (m s).1

unfoldable pub ◌>>◌ : {B : Type 0} → F (Unit {0}) → F B → F B
m >> k = m >>= λ _. k

abbrev pub or_fail : {A : Type 0} → FetchError → Option A → FetchError ⊎ A
or_fail e none = inl e
or_fail e (some a) = inr a

abbrev pub lift : {A : Type 0} → FetchError ⊎ A → F A
lift r s = (r, s)

checked : FetchError → Bool → FetchError ⊎ Unit {0}
checked e true = inr tt
checked e false = inl e

-- A call of the file system followed by `?`.
unfoldable pub on_disk : (Disk → Bool × Disk) → FetchError → F (Unit {0})
unfolding checked
on_disk call e s = let (done, d) = call s.disk in (checked e done, record s { disk = d })

raised : Result (Unit {0}) → FetchError ⊎ Unit {0}
raised (ok a) = inr a
raised (err e) = inl (database e)

-- A call of the database followed by `?`.
unfoldable pub on_db : (Db → Result (Unit {0}) × Db) → F (Unit {0})
unfolding raised
on_db call s =
    let (r, db) = call s.app.db in (raised r, record s { app = record s.app { db = db } })

-- `.send()`, `.error_for_status()` and the body.
body_of : String → Option HttpResponse → FetchError ⊎ List ℕ
body_of url none = inl (no_response url)
body_of url (some r) =
    if r.is_success then or_fail (bad_body url) r.body else inl (error_status url)

parsed : Http → String → FetchError ⊎ List ℕ → FetchError ⊎ GithubRelease
parsed http url (inl e) = inl e
parsed http url (inr bytes) = or_fail (bad_body url) (http.parse bytes)

unfoldable pub fetch_latest_release : Http → String → FetchError ⊎ GithubRelease
unfolding body_of parsed
fetch_latest_release http repo =
    let url = "https://api.github.com/repos/" +s (repo +s "/releases/latest") in
    parsed http url (body_of url (http.get url (some "application/vnd.github+json")))

unfoldable pub asset_for : GithubRelease → PlatformInfo → FetchError ⊎ GithubAsset
asset_for release platform =
    or_fail (no_asset platform.template_filename release.tag_name)
      (find? (λ a. str_eq a.name platform.template_filename) release.assets)

unfoldable pub download : Http → GithubAsset → FetchError ⊎ List ℕ
unfolding body_of
download http asset = body_of asset.browser_download_url (http.get asset.browser_download_url none)

abbrev pub final_path : String → PlatformInfo → String
final_path dir platform = join dir platform.template_filename

abbrev pub tmp_path : String → PlatformInfo → String
tmp_path dir platform = join dir (platform.template_filename +s ".tmp")

-- The download goes to a file of its own, which then takes the name of the template.
unfoldable pub store_template : PlatformInfo → List ℕ → F (Unit {0})
store_template platform bytes s =
    let final = final_path s.app.fetched_templates_dir platform in
    let tmp = tmp_path s.app.fetched_templates_dir platform in
    (on_disk (write_file tmp bytes) (write_failed tmp)
        >> on_disk (rename tmp final) (rename_failed tmp final))
      s

-- `now` is what the clock reads, in seconds.
unfoldable pub record_version : ℕ → GithubRelease → PlatformInfo → F (Unit {0})
record_version now release platform = do
  on_db (set_setting (version_key platform.key) release.tag_name)
  on_db (set_setting (fetched_at_key platform.key) (decimal now))

unfoldable pub fetch_one_platform : Http → ℕ → GithubRelease → PlatformInfo → F String
fetch_one_platform http now release platform = do
  asset ← lift (asset_for release platform)
  bytes ← lift (download http asset)
  store_template platform bytes
  record_version now release platform
  lift (inr release.tag_name)

pub record FetchResult : Type 0 where
  pub platform_key : String
  pub outcome : FetchError ⊎ String

-- Each platform in turn, with what the clock reads then; the outcome of one does not stop the others.
unfoldable pub fetch_each :
    Http → (PlatformInfo → ℕ) → GithubRelease → List PlatformInfo → Store → List FetchResult × Store
fetch_each http clock release [] s = ([], s)
fetch_each http clock release (p ∷ ps) s =
    let (outcome, s') = fetch_one_platform http (clock p) release p s in
    let (results, s'') = fetch_each http clock release ps s' in
    (record { platform_key = p.key; outcome = outcome } ∷ results, s'')

fetched :
    Http
    → (PlatformInfo → ℕ)
    → FetchError ⊎ GithubRelease
    → Store
    → (FetchError ⊎ List FetchResult) × Store
fetched http clock (inl e) s = (inl e, s)
fetched http clock (inr release) s =
    let (results, s') = fetch_each http clock release platforms s in (inr results, s')

unfoldable pub fetch_and_store :
    Http → (PlatformInfo → ℕ) → String → Store → (FetchError ⊎ List FetchResult) × Store
unfolding fetched
fetch_and_store http clock repo s = fetched http clock (fetch_latest_release http repo) s

-- The JSON of an outcome: a version or an error.
pub record FetchReleaseResult : Type 0 where
  pub platform : String
  pub version : Option String
  pub error : Option FetchError

abbrev pub shown : FetchResult → FetchReleaseResult
shown r = elim r.outcome [
  | inl e ↦ record { platform = r.platform_key; version = none; error = some e }
  | inr version ↦ record { platform = r.platform_key; version = some version; error = none }
]

-- A bare status, a 502 with the error, or the outcomes.
pub data FetchResponse : Type 0 where
  refused : Status → FetchResponse
  bad_gateway : FetchError → FetchResponse
  results : List FetchReleaseResult → FetchResponse

answered : (FetchError ⊎ List FetchResult) × Store → FetchResponse × Store
answered (inl e, s) = (bad_gateway e, s)
answered (inr rs, s) = (results (map shown rs), s)

allowed : Http → (PlatformInfo → ℕ) → Status ⊎ AuthedAccount → Store → FetchResponse × Store
allowed http clock (inl status) s = (refused status, s)
allowed http clock (inr account) s = answered (fetch_and_store http clock release_repo s)

unfoldable pub fetch_release : Http → (PlatformInfo → ℕ) → Headers → Store → FetchResponse × Store
unfolding allowed answered
fetch_release http clock headers s =
    let (who, db) = require_admin headers s.app.db in
    allowed http clock who (record s { app = record s.app { db = db } })
