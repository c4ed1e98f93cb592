-- ===== src/Downloads/Listing/Offered.antt =====
-- The order of the list of downloads.
use visuara.Prelude.{
  ◌≡◌, refl, ap, ◌∙◌, Bool, true, false, not, List, [], ◌∷◌, ◌++◌, Bool-cases, inl, inr, filter,
  All, arith,
}
use visuara.Db.{get_setting}
use visuara.Session.{Headers}
use visuara.State.{AppState}
use visuara.Downloads.{platforms, Files}
use visuara.Downloads.Listing.{
  DownloadOption, detect_platform, download_options, insert_by_key, sort_by_key, list_downloads,
}

abbrev pub is_recommended : DownloadOption → Bool
is_recommended o = o.recommended

abbrev pub is_other : DownloadOption → Bool
is_other o = not o.recommended

filter-All :
    (p : DownloadOption → Bool) (os : List DownloadOption) → All (λ o. p o ≡ true) (filter p os)
unfolding filter
filter-All p [] = tt
filter-All p (o ∷ os) = elim (Bool-cases (p o)) [
  | inl e ↦ rw (e, filter) (e, filter-All p os)
  | inr e ↦ rw (e, filter) (filter-All p os)
]

-- A recommended option stays in front, any other goes behind the recommended ones.
insert_front :
    (o : DownloadOption) (xs : List DownloadOption)
    → o.recommended ≡ true
    → insert_by_key o xs ≡ o ∷ xs
unfolding insert_by_key
insert_front o [] e = refl
insert_front o (x ∷ xs) e = ground arith

insert_before :
    (o : DownloadOption) (ys : List DownloadOption)
    → All (λ y. is_other y ≡ true) ys
    → insert_by_key o ys ≡ o ∷ ys
unfolding insert_by_key
insert_before o [] others = refl
insert_before o (y ∷ ys) (other, others) = ground arith

insert_behind :
    (o : DownloadOption) (xs ys : List DownloadOption)
    → o.recommended ≡ false
    → All (λ x. is_recommended x ≡ true) xs
    → All (λ y. is_other y ≡ true) ys
    → insert_by_key o (xs ++ ys) ≡ xs ++ o ∷ ys
unfolding insert_by_key
insert_behind o [] ys e front others = insert_before o ys others
insert_behind o (x ∷ xs) ys e (first, front) others =
    ground (arith, insert_behind o xs ys e front others)

sort_by_key-filter :
    (os : List DownloadOption) → sort_by_key os ≡ filter is_recommended os ++ filter is_other os
unfolding sort_by_key filter
sort_by_key-filter [] = refl
sort_by_key-filter (o ∷ os) =
    ap (insert_by_key o) (sort_by_key-filter os) ∙ elim (Bool-cases o.recommended) [
      | inl e ↦ insert_front o (filter is_recommended os ++ filter is_other os) e ∙ rw (e, filter)
      | inr e ↦
          insert_behind o (filter is_recommended os) (filter is_other os) e
            (filter-All is_recommended os) (filter-All is_other os)
          ∙ rw (e, filter)
    ]

-- The list of downloads is the options of the platforms with the recommended ones moved to the front:
-- those come first and the others after them, each in the order of the platforms, none lost and none
-- twice.
pub list_downloads-filter :
    (files : Files) (headers : Headers) (s : AppState)
    → let (server_url, db) = get_setting "server_url" s.db in
      let (options, db') = download_options files s (detect_platform headers) platforms db in
      ((list_downloads files headers s).0.options
        ≡ filter is_recommended options ++ filter is_other options)
unfolding list_downloads
list_downloads-filter files headers s = sort_by_key-filter _
