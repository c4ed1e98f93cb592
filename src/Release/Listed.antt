-- ===== src/Release/Listed.antt =====
-- What the list of downloads says of a build that was fetched (`fetch_one_platform`, and `list` of
-- api/download.rs).
use visuara.Prelude.{
  ℕ, ◌<◌, ◌^◌, ◌≡◌, ◌≢◌, ◌⊎◌, refl, sym, ap, ◌∙◌, inl, inr, true, false, [], none, some, Option,
  String, str_eq, eq_iff, eq_refl, ◌+s◌, decimal, arith, Bool-cases, subst,
}
use text.Mathlib.TextLemmas.{append_assoc, append_inj}
use visuara.Control.{ℤ, pos}
use visuara.Db.{get_setting, set_setting, set_setting_rows, writes, locked, fails}
use visuara.Downloads.{
  platforms, TemplateSource, manual, PlatformInfo, Files, fetched, resolve_template_path, setting,
}
use visuara.Downloads.Settings.{get_setting_fine}
use visuara.Downloads.Numbers.{parse_i64, parse_i64-decimal}
use visuara.Downloads.Listing.{
  DownloadOption, download_options, list_downloads, insert_by_key, sort_by_key, detect_platform,
  option_for, is_key, version_key, fetched_at_key, fetched_build, download_option,
}
use visuara.Release.{
  final_path, Http, GithubRelease, FetchError, Store, F, ◌>>=◌, ◌>>◌, lift, on_db, raised,
  asset_for, download, store_template, record_version, fetch_one_platform,
}
use visuara.Release.Atomic.{Sum-cases, then_result, Apart, template, fetch_one_platform-whole}
use visuara.Release.Stored.{files_of, not_both}
use visuara.Client.Paths.{join}
use visuara.Client.Disk.{exists}
use visuara.Client.Disk.Whole.{read-exists}
use visuara.Session.{Headers}
use visuara.State.{AppState}
use visuara.Db.{Db}
use visuara.Prelude.{List, ◌∷◌, find?, ◌&&◌, not}

-- A chain that succeeds got through its first step.
then_inv :
    {A B : Type 0} (m : F A) (f : A → F B) (s : Store) (b : B)
    → ((m >>= f) s).0 ≡ inr b
    → (a : A) × ((m s).0 ≡ inr a) × ((m >>= f) s ≡ f a (m s).1)
then_inv m f s b done = elim (Sum-cases (m s).0) [
  | inr (a, e) ↦ (a, e, then_result m f s (inr a) e)
  | inl (x, e) ↦ absurd (cc (sym (ap (λ r. r.0) (then_result m f s (inl x) e)) ∙ done))
]

keys_apart : (key : String) → str_eq (fetched_at_key key) (version_key key) ≡ false
unfolding fetched_at_key version_key
keys_apart key =
    elim (Bool-cases (str_eq ("client_fetched_at_" +s key) ("client_version_" +s key))) [
      | inr apart ↦ apart
      | inl same ↦ absurd (
          clash
            (append_inj
              (sym (append_assoc "client_fetched_" "at_" key)
                ∙ (eq_iff ("client_fetched_at_" +s key) ("client_version_" +s key)).0 same)
              refl).0)
    ]
  where
    clash : ◌≢◌ {A = String} "client_fetched_" "client_version_"
    clash e = cc ((eq_iff "client_fetched_" "client_version_").1 e)

-- A write of a setting that succeeds.
set_setting_inv :
    (key value : String) (s : Store)
    → (on_db (set_setting key value) s).0 ≡ inr tt
    → (on_db (set_setting key value) s).1.app.db.tables ≡ set_setting_rows key value s.app.db.tables
unfolding on_db set_setting writes locked raised
set_setting_inv key value s done = elim (Bool-cases (fails s.app.db.faults)) [
  | inl failed ↦ absurd (ground arith)
  | inr fine ↦ rw (fine, locked)
]

-- What a successful fetch leaves in the settings.
recorded :
    (now : ℕ) (release : GithubRelease) (info : PlatformInfo) (s : Store)
    → (record_version now release info s).0 ≡ inr tt
    → let t = (record_version now release info s).1.app.db.tables in
      (t.settings (version_key info.key) ≡ some release.tag_name)
      × (t.settings (fetched_at_key info.key) ≡ some (decimal now))
unfolding record_version ◌>>◌ set_setting_rows
recorded now release info s done =
    let first = on_db (set_setting (version_key info.key) release.tag_name) in
    let second = on_db (set_setting (fetched_at_key info.key) (decimal now)) in
    let (a, one, rest) = then_inv first (λ _. second) s tt done in
    let t₁ = set_setting_inv (version_key info.key) release.tag_name s one in
    let two =
      set_setting_inv (fetched_at_key info.key) (decimal now) (first s).1
        (sym (ap (λ r. r.0) rest) ∙ done) in
    let whole = ap (λ r. r.1.app.db.tables) rest ∙ two in
    (
      ap (λ t. t.settings (version_key info.key)) whole
          ∙ rw (keys_apart info.key) (
              ap (λ t. t.settings (version_key info.key)) t₁ ∙ rw (eq_refl (version_key info.key))),
      ap (λ t. t.settings (fetched_at_key info.key)) whole ∙ rw (eq_refl (fetched_at_key info.key)),
    )

fetched_recorded :
    (http : Http) (now : ℕ) (release : GithubRelease) (info : PlatformInfo) (s : Store)
    (version : String)
    → (fetch_one_platform http now release info s).0 ≡ inr version
    → let t = (fetch_one_platform http now release info s).1.app.db.tables in
      (t.settings (version_key info.key) ≡ some release.tag_name)
      × (t.settings (fetched_at_key info.key) ≡ some (decimal now))
unfolding fetch_one_platform ◌>>◌
fetched_recorded http now release info s version done =
    let (asset, e₁, r₁) = then_inv (lift (asset_for release info)) _ s version done in
    let (bytes, e₂, r₂) =
      then_inv (lift (download http asset)) _ s version (sym (ap (λ r. r.0) r₁) ∙ done) in
    let done₂ = sym (ap (λ r. r.0) (r₁ ∙ r₂)) ∙ done in
    let (u, e₃, r₃) = then_inv (store_template info bytes) _ s version done₂ in
    let s₃ = (store_template info bytes s).1 in
    let done₃ = sym (ap (λ r. r.0) r₃) ∙ done₂ in
    let (v, e₄, r₄) =
      then_inv (record_version now release info) (λ _. lift (inr release.tag_name)) s₃ version
        done₃ in
    subst
      (λ (r : (FetchError ⊎ String) × Store).
        (r.1.app.db.tables.settings (version_key info.key) ≡ some release.tag_name)
        × (r.1.app.db.tables.settings (fetched_at_key info.key) ≡ some (decimal now)))
      (sym (r₁ ∙ r₂ ∙ r₃ ∙ r₄)) (recorded now release info s₃ e₄)

-- After a fetch that succeeds there is a template.
fetched_whole :
    (http : Http) (now : ℕ) (release : GithubRelease) (info : PlatformInfo) (s : Store)
    (version : String)
    → Apart info s
    → (fetch_one_platform http now release info s).0 ≡ inr version
    → (bytes : List ℕ) × (template info (fetch_one_platform http now release info s).1 ≡ some bytes)
fetched_whole http now release info s version apart done =
    elim (fetch_one_platform-whole http now release info s apart) [
      | inl (e, failed, same) ↦ absurd (not_both failed done)
      | inr (asset, bytes, named, got, whole) ↦ (bytes, whole)
    ]

-- An element stands in a list.
abbrev pub Stands : DownloadOption → List DownloadOption → Type 0
Stands a [] = ⊥
Stands a (x ∷ xs) = (a ≡ x) ⊎ Stands a xs

-- The option of a build that was fetched.
pub record Shows (info : PlatformInfo) (release : GithubRelease) (now : ℕ) (o : DownloadOption)
    : Type 0 where
  pub platform : o.platform ≡ info.key
  pub available : o.available ≡ true
  pub custom_build : o.custom_build ≡ false
  pub version : o.version ≡ some release.tag_name
  pub fetched_at : o.fetched_at ≡ some (pos now)

Stands-insert :
    (o y : DownloadOption) (xs : List DownloadOption)
    → (o ≡ y) ⊎ Stands o xs
    → Stands o (insert_by_key y xs)
unfolding insert_by_key
Stands-insert o y [] h = h
Stands-insert o y (x ∷ xs) h = elim (Bool-cases (x.recommended && not y.recommended)) [
  | inr before ↦ rw (before, insert_by_key) h
  | inl behind ↦
      rw (behind, insert_by_key)
        (elim h [
          | inl here ↦ inr (Stands-insert o y xs (inl here))
          | inr there ↦ elim there [
            | inl first ↦ inl first
            | inr later ↦ inr (Stands-insert o y xs (inr later))
          ]
        ])
]

Stands-sort :
    (o : DownloadOption) (os : List DownloadOption) → Stands o os → Stands o (sort_by_key os)
unfolding sort_by_key
Stands-sort o [] h = h
Stands-sort o (x ∷ os) (inl here) = Stands-insert o x (sort_by_key os) (inl here)
Stands-sort o (x ∷ os) (inr there) =
    Stands-insert o x (sort_by_key os) (inr (Stands-sort o os there))

module _ (files : Files) (app : AppState) (detected : Option String) where
  -- Reading the settings of a database where no call fails leaves it as it is.
  option-same :
      (p : PlatformInfo) (db : Db)
      → db.faults ≡ []
      → (download_option files app detected p db).1 ≡ record db { faults = [] }
  unfolding download_option fetched_build
  option-same p db fine =
      by_source (resolve_template_path files p app.client_templates_dir app.fetched_templates_dir)
    where
      by_source :
          (o : Option (String × TemplateSource))
          → (option_for o (is_key detected p.key) p.key db).1 ≡ record db { faults = [] }
      by_source none = ap (λ fs. record db { faults = fs }) fine
      by_source (some (path, manual)) = ap (λ fs. record db { faults = fs }) fine
      by_source (some (path, fetched)) =
          ap (λ r. (get_setting (fetched_at_key p.key) r.1).1)
            (get_setting_fine (version_key p.key) db fine)
          ∙ ap (λ r. r.1) (get_setting_fine (fetched_at_key p.key) (record db { faults = [] }) refl)

  -- Each platform of a list has its option there.
  Stands-options :
      (info : PlatformInfo) (ps : List PlatformInfo) (db : Db)
      → db.faults ≡ []
      → find? (λ p. str_eq p.key info.key) ps ≡ some info
      → Stands
          (download_option files app detected info (record db { faults = [] })).0
          (download_options files app detected ps (record db { faults = [] })).0
  unfolding download_options find?
  Stands-options info [] db fine known = absurd (ground arith)
  Stands-options info (p ∷ ps) db fine known = elim (Bool-cases (str_eq p.key info.key)) [
    | inl same ↦
        let this : p ≡ info = ground arith in
        inl (
          ap (λ q. (download_option files app detected q (record db { faults = [] })).0) (sym this))
    | inr other ↦ inr (
        subst
          (λ d.
            Stands (download_option files app detected info (record db { faults = [] })).0
              (download_options files app detected ps d).0)
          (sym (option-same p (record db { faults = [] }) refl))
          (Stands-options info ps db fine (ground arith)))
  ]

-- The option of a platform whose settings are those of a fetch.
option-Shows :
    (files : Files) (app : AppState) (detected : Option String) (info : PlatformInfo)
    (release : GithubRelease) (now : ℕ) (path : String) (db : Db)
    → now < 2 ^ 63
    → db.tables.settings (version_key info.key) ≡ some release.tag_name
    → db.tables.settings (fetched_at_key info.key) ≡ some (decimal now)
    → resolve_template_path files info app.client_templates_dir app.fetched_templates_dir
      ≡ some (path, fetched)
    → Shows info release now (download_option files app detected info (record db { faults = [] })).0
unfolding download_option fetched_build
option-Shows files app detected info release now path db small tag time found =
    let one = get_setting_fine (version_key info.key) (record db { faults = [] }) refl in
    let two = get_setting_fine (fetched_at_key info.key) (record db { faults = [] }) refl in
    rw (found) (record {
      platform = refl;
      available = refl;
      custom_build = refl;
      version = ap (λ r. setting r.0) one ∙ tag;
      fetched_at =
          ap (λ r. read_time (setting (get_setting (fetched_at_key info.key) r.1).0)) one
          ∙ ap (λ r. read_time (setting r.0)) two
          ∙ ap read_time time
          ∙ parse_i64-decimal now small;
    })
  where
    read_time : Option String → Option ℤ
    read_time none = none
    read_time (some text) = parse_i64 text

-- A build that was fetched stands in the list of downloads, where there is no build of the operator, as
-- the files are after the fetch: available and no custom build, with the tag of the release as its
-- version, and with the time of the fetch. No later call of the database fails, the time is below
-- 2 ^ 63, and the temporary file and the template are two names, and not of one file.
pub list_downloads-fetched :
    (http : Http) (now : ℕ) (release : GithubRelease) (info : PlatformInfo) (s : Store)
    (version : String) (headers : Headers)
    → Apart info s
    → (fetch_one_platform http now release info s).0 ≡ inr version
    → now < 2 ^ 63
    → find? (λ p. str_eq p.key info.key) platforms ≡ some info
    → let after = (fetch_one_platform http now release info s).1 in
      exists after.disk (join after.app.client_templates_dir info.template_filename) ≡ false
      → after.app.db.faults ≡ []
      → (o : DownloadOption) × Stands o
          (list_downloads (files_of after.disk) headers after.app).0.options
        × Shows info release now o
unfolding list_downloads resolve_template_path
list_downloads-fetched http now release info s version headers apart done small known no_manual
      fine =
    let after = (fetch_one_platform http now release info s).1 in
    let files = files_of after.disk in
    let detected = detect_platform headers in
    let (tag, time) = fetched_recorded http now release info s version done in
    let (bytes, whole) = fetched_whole http now release info s version apart done in
    let there =
      read-exists (final_path after.app.fetched_templates_dir info) bytes after.disk whole in
    let db₀ : Db = record after.app.db { faults = [] } in
    (
      (download_option files after.app detected info db₀).0,
      Stands-sort _ _ (
          subst
            (λ d.
              Stands (download_option files after.app detected info db₀).0
                (download_options files after.app detected platforms d).0)
            (sym (ap (λ r. r.1) (get_setting_fine "server_url" after.app.db fine)))
            (Stands-options files after.app detected info platforms after.app.db fine known)),
      option-Shows files after.app detected info release now
          (final_path after.app.fetched_templates_dir info) after.app.db small tag time
          (rw (no_manual, there)),
    )
