-- ===== src/Release/Atomic.antt =====
-- A template is replaced as a whole or not at all (`fetch_one_platform`).
use visuara.Prelude.{
  ℕ, ◌≡◌, ◌⊎◌, inl, inr, refl, sym, ap, ◌∙◌, false, List, Option, String, some, str_eq, Bool-cases,
  subst,
}
use visuara.Downloads.{PlatformInfo}
use visuara.Client.Disk.{read, write_file}
use visuara.Client.Disk.Replace.{Unshared, write_file_keeps, write_file_ok, rename-cases}
use visuara.Release.{
  Http, GithubRelease, GithubAsset, FetchError, write_failed, rename_failed, Store, F, ◌>>=◌, ◌>>◌,
  lift, on_disk, on_db, proceed, asset_for, download, final_path, tmp_path, store_template,
  record_version, fetch_one_platform,
}
use visuara.Downloads.Listing.{version_key}
use visuara.Db.{Db, Result, set_setting}

pub Sum-cases {ℓ κ} :
    {A : Type ℓ} {B : Type κ} (r : A ⊎ B) → ((a : A) × (r ≡ inl a)) ⊎ ((b : B) × (r ≡ inr b))
Sum-cases (inl a) = inl (a, refl)
Sum-cases (inr b) = inr (b, refl)

-- What reading the template of a platform gives.
abbrev pub template : PlatformInfo → Store → Option (List ℕ)
template platform s = read s.disk (final_path s.app.fetched_templates_dir platform)

abbrev pub Apart : PlatformInfo → Store → Type 0
Apart platform s =
    let dir = s.app.fetched_templates_dir in
    (str_eq (s.disk.resolve (tmp_path dir platform)) (s.disk.resolve (final_path dir platform))
      ≡ false)
    × Unshared (tmp_path dir platform) (final_path dir platform) s.disk

-- Storing a template fails and the template is as it was, or it succeeds and it is the download.
abbrev Stores : PlatformInfo → List ℕ → Store → (FetchError ⊎ Unit {0}) × Store → Type 0
Stores platform bytes s r =
    ((e : FetchError) × (r.0 ≡ inl e) × (template platform r.1 ≡ template platform s))
    ⊎ ((r.0 ≡ inr tt) × (template platform r.1 ≡ some bytes))

store_template-Stores :
    (platform : PlatformInfo) (bytes : List ℕ) (s : Store)
    → Apart platform s
    → Stores platform bytes s (store_template platform bytes s)
unfolding store_template ◌>>◌ ◌>>=◌ on_disk
store_template-Stores platform bytes s (apart, other) =
    let final = final_path s.app.fetched_templates_dir platform in
    let tmp = tmp_path s.app.fetched_templates_dir platform in
    let d = (write_file tmp bytes s.disk).1 in
    let kept = write_file_keeps tmp bytes final s.disk apart other in
    elim (Bool-cases (write_file tmp bytes s.disk).0) [
      | inr failed ↦ inl (write_failed tmp, rw (failed), rw (failed) kept)
      | inl done ↦ elim (rename-cases tmp final bytes d (write_file_ok tmp bytes s.disk done)) [
        | inl (failed, same) ↦
            inl (rename_failed tmp final, rw (done, failed), rw (done) (same ∙ kept))
        | inr (moved, whole) ↦ inr (rw (done, moved), rw (done) whole)
      ]
    ]

-- A step keeps the template, and so do two such steps.
abbrev KeepsTemplate : {A : Type 0} → PlatformInfo → F A → Type 0
KeepsTemplate platform m = (s : Store) → template platform (m s).1 ≡ template platform s

on_db-KeepsTemplate :
    (platform : PlatformInfo) (call : Db → Result (Unit {0}) × Db)
    → KeepsTemplate platform (on_db call)
unfolding on_db
on_db-KeepsTemplate platform call s = refl

then-KeepsTemplate :
    {A B : Type 0} (platform : PlatformInfo) (m : F A) (f : A → F B)
    → KeepsTemplate platform m
    → ((a : A) → KeepsTemplate platform (f a))
    → KeepsTemplate platform (m >>= f)
unfolding ◌>>=◌
then-KeepsTemplate platform m f hm hf s = elim (Sum-cases (m s).0) [
  | inl (e, failed) ↦ ap (λ r. template platform (proceed f r (m s).1).1) failed ∙ hm s
  | inr (a, done) ↦ ap (λ r. template platform (proceed f r (m s).1).1) done ∙ (hf a (m s).1 ∙ hm s)
]

recorded-KeepsTemplate :
    (now : ℕ) (release : GithubRelease) (platform : PlatformInfo)
    → KeepsTemplate platform
        (record_version now release platform >>= λ done. lift (inr release.tag_name))
unfolding record_version ◌>>◌
recorded-KeepsTemplate now release platform =
    then-KeepsTemplate platform (record_version now release platform) _
      (then-KeepsTemplate platform (on_db (set_setting (version_key platform.key) release.tag_name))
        _ (on_db-KeepsTemplate platform _) (λ a. on_db-KeepsTemplate platform _))
      (λ a s. refl)

pub then_result :
    {A B : Type 0} (m : F A) (f : A → F B) (s : Store) (r : FetchError ⊎ A)
    → (m s).0 ≡ r
    → (m >>= f) s ≡ proceed f r (m s).1
unfolding ◌>>=◌
then_result m f s r e = ap (λ x. proceed f x (m s).1) e

abbrev Whole : Http → GithubRelease → PlatformInfo → Store → (FetchError ⊎ String) × Store → Type 0
Whole http release platform s r =
    ((e : FetchError) × (r.0 ≡ inl e) × (template platform r.1 ≡ template platform s))
    ⊎ ((asset : GithubAsset) × (bytes : List ℕ) × (asset_for release platform ≡ inr asset)
        × (download http asset ≡ inr bytes)
        × (template platform r.1 ≡ some bytes))

after_download :
    (http : Http) (now : ℕ) (release : GithubRelease) (platform : PlatformInfo) (s : Store)
    (asset : GithubAsset) (bytes : List ℕ)
    → asset_for release platform ≡ inr asset
    → download http asset ≡ inr bytes
    → Stores platform bytes s (store_template platform bytes s)
    → Whole http release platform s (
        (store_template platform bytes
            >> (record_version now release platform >> lift (inr release.tag_name)))
          s)
unfolding ◌>>◌
after_download http now release platform s asset bytes named got (inl (e, failed, same)) =
    subst (Whole http release platform s)
      (sym (then_result (store_template platform bytes) _ s (inl e) failed)) (inl (e, refl, same))
after_download http now release platform s asset bytes named got (inr (done, whole)) =
    subst (Whole http release platform s)
      (sym (then_result (store_template platform bytes) _ s (inr tt) done))
      (inr (
        asset,
        bytes,
        named,
        got,
        recorded-KeepsTemplate now release platform (store_template platform bytes s).1 ∙ whole,
      ))

pub fetch_one_platform-whole :
    (http : Http) (now : ℕ) (release : GithubRelease) (platform : PlatformInfo) (s : Store)
    → Apart platform s
    → let r = fetch_one_platform http now release platform s in
      ((e : FetchError) × (r.0 ≡ inl e) × (template platform r.1 ≡ template platform s))
      ⊎ ((asset : GithubAsset) × (bytes : List ℕ) × (asset_for release platform ≡ inr asset)
          × (download http asset ≡ inr bytes)
          × (template platform r.1 ≡ some bytes))
unfolding fetch_one_platform
fetch_one_platform-whole http now release platform s apart =
    elim (Sum-cases (asset_for release platform)) [
      | inl (e, absent) ↦
          subst (Whole http release platform s) (sym (then_result _ _ s (inl e) absent))
            (inl (e, refl, refl))
      | inr (asset, named) ↦
          subst (Whole http release platform s) (sym (then_result _ _ s (inr asset) named))
            (elim (Sum-cases (download http asset)) [
              | inl (e, lost) ↦
                  subst (Whole http release platform s) (sym (then_result _ _ s (inl e) lost))
                    (inl (e, refl, refl))
              | inr (bytes, got) ↦
                  subst (Whole http release platform s) (sym (then_result _ _ s (inr bytes) got)) (
                    after_download http now release platform s asset bytes named got
                      (store_template-Stores platform bytes s apart))
            ])
    ]
