-- ===== src/Db/Sessions.antt =====
-- Which account a session token stands for, through log in, log out and the deletion of accounts.
use mathlib.Core.Option
use visuara.Prelude.{
  ℕ, ◌≡◌, ◌≢◌, refl, sym, ap, ◌∙◌, inl, inr, Bool, false, not, List, [], ◌∷◌, ◌++◌, Option, none,
  some, String, if◌then◌else◌, ◌==◌, All, Distinct, any, filter, find?, any-find?, find?-append,
  find?_holds, ==_iff, str_eq, eq_iff, Bool-cases, Option-cases, arith,
}
use visuara.Db.Keys.{IsKeyed}
use visuara.Db.{
  Account, AccountRow, SessionRow, Tables, Db, ok, locked, writes, create_session, insert_session,
  delete_session, delete_session_rows, delete_account_rows, session_account, map_account_row,
}

kept {ℓ} : {A : Type ℓ} → (A → Bool) → Option A → Option A
kept keep none = none
kept keep (some a) = if keep a then some a else none

-- Deleting rows from a table with distinct keys: the row found at a key is found still, unless it is
-- one of the deleted.
module _ {ℓ} {A : Type ℓ} (key : A → String) (k : String) (keep : A → Bool) where
  find_absent : (xs : List A) → All (λ y. key y ≢ k) xs → find? (λ y. str_eq (key y) k) xs ≡ none
  unfolding find?
  find_absent [] h = refl
  find_absent (x ∷ xs) (h, hs) = ground (arith, eq_iff (key x) k, find_absent xs hs)

  absent-filter : (xs : List A) → All (λ y. key y ≢ k) xs → All (λ y. key y ≢ k) (filter keep xs)
  unfolding filter
  absent-filter [] h = tt
  absent-filter (x ∷ xs) (h, hs) = elim (Bool-cases (keep x)) [
    | inl e ↦ rw (e, filter) (h, absent-filter xs hs)
    | inr e ↦ rw (e, filter) (absent-filter xs hs)
  ]

  absent_of_key :
      (x : A) (xs : List A) → key x ≡ k → All (λ y. key y ≢ key x) xs → All (λ y. key y ≢ k) xs
  absent_of_key x [] e h = tt
  absent_of_key x (y ∷ xs) e (h, hs) = (λ same. h (same ∙ sym e), absent_of_key x xs e hs)

  find?-filter :
      (xs : List A)
      → Distinct key xs
      → find? (λ y. str_eq (key y) k) (filter keep xs)
        ≡ kept keep (find? (λ y. str_eq (key y) k) xs)
  unfolding find? filter kept
  find?-filter [] d = refl
  find?-filter (x ∷ xs) (new, d) = elim (Bool-cases (str_eq (key x) k)) [
    | inl same ↦
        let gone = absent_of_key x xs ((eq_iff (key x) k).0 same) new in
        ground (arith, find_absent (filter keep xs) (absent-filter xs gone))
    | inr other ↦ ground (arith, find?-filter xs d)
  ]

find_id-filter :
    (j k : ℕ) (xs : List AccountRow)
    → find? (λ r. r.id == j) (filter (λ r. not (r.id == k)) xs)
      ≡ (if j == k then none else find? (λ r. r.id == j) xs)
unfolding find? filter
find_id-filter j k [] = ground arith
find_id-filter j k (x ∷ xs) = ground (arith, find_id-filter j k xs)

-- The account that a token stands for, but for one account.
abbrev pub unless_id : ℕ → Option Account → Option Account
unless_id k none = none
unless_id k (some a) = if a.id == k then none else some a

account_of : Tables → Option SessionRow → Option Account
account_of t none = none
account_of t (some s) = Option.map map_account_row (find? (λ r. r.id == s.account_id) t.accounts)

session_account_lem :
    (token : String) (t : Tables)
    → session_account token t ≡ account_of t (find? (λ s. str_eq s.token token) t.sessions)
unfolding session_account account_of
session_account_lem token t = refl

find_id-holds :
    (j : ℕ) (xs : List AccountRow) (r : AccountRow) → find? (λ a. a.id == j) xs ≡ some r → r.id ≡ j
find_id-holds j xs r e = (==_iff r.id j).0 (find?_holds (λ a. a.id == j) xs r e)

account_of-delete :
    (k : ℕ) (t : Tables) (o : Option SessionRow)
    → account_of (delete_account_rows k t) (kept (λ s. not (s.account_id == k)) o)
      ≡ unless_id k (account_of t o)
unfolding account_of kept delete_account_rows map_account_row
account_of-delete k t none = refl
account_of-delete k t (some s) =
    elim (Option-cases (find? (λ r. r.id == s.account_id) t.accounts)) [
      | inl e ↦ ground (arith, find_id-filter s.account_id k t.accounts)
      | inr (r, e) ↦ ground (
        arith,
        find_id-filter s.account_id k t.accounts,
        find_id-holds s.account_id t.accounts r e,
      )
    ]

-- Deleting an account ends its sessions: a token that stood for it stands for nobody, and every
-- other token for the same account as before.
session_account-delete_account_rows :
    (token : String) (k : ℕ) (t : Tables)
    → IsKeyed t
    → session_account token (delete_account_rows k t) ≡ unless_id k (session_account token t)
unfolding session_account account_of delete_account_rows
session_account-delete_account_rows token k t v =
    ap (account_of (delete_account_rows k t))
      (find?-filter (λ s. s.token) token (λ s. not (s.account_id == k)) t.sessions v.tokens)
    ∙ account_of-delete k t (find? (λ s. str_eq s.token token) t.sessions)

find?-concat_other :
    (token u : String) (k : ℕ) (xs : List SessionRow)
    → str_eq token u ≡ false
    → find? (λ s. str_eq s.token u) (xs ++ record { token = token; account_id = k } ∷ [])
      ≡ find? (λ s. str_eq s.token u) xs
unfolding find?
find?-concat_other token u k [] e = rw e
find?-concat_other token u k (x ∷ xs) e = ground (arith, find?-concat_other token u k xs e)

-- After a log in that succeeds, the new token stands for the account of the given id, and every
-- other token for the same account as before.
pub session_account-create_session :
    (token u : String) (k : ℕ) (db : Db)
    → (create_session token k db).0 ≡ ok tt
    → session_account u (create_session token k db).1.tables ≡ (
        if str_eq token u
        then Option.map map_account_row (find? (λ r. r.id == k) db.tables.accounts)
        else session_account u db.tables)
unfolding create_session locked insert_session session_account find?
session_account-create_session token u k db h =
    elim (Bool-cases (any (λ s. str_eq s.token token) db.tables.sessions)) [
      | inl taken ↦ absurd (ground arith)
      | inr free ↦ elim (Bool-cases (str_eq token u)) [
        | inl same ↦ ground (
          arith,
          eq_iff token u,
          find?-append (λ s. str_eq s.token token) db.tables.sessions
              (record { token = token; account_id = k } ∷ [])
              (any-find? (λ s. str_eq s.token token) db.tables.sessions free),
        )
        | inr other ↦ ground (arith, find?-concat_other token u k db.tables.sessions other)
      ]
    ]

-- After a log out that succeeds, the token stands for nobody, and every other token for the same
-- account as before.
session_account-delete_session :
    (token u : String) (db : Db)
    → IsKeyed db.tables
    → (delete_session token db).0 ≡ ok tt
    → session_account u (delete_session token db).1.tables
      ≡ (if str_eq token u then none else session_account u db.tables)
unfolding delete_session writes locked delete_session_rows session_account kept
session_account-delete_session token u db v h =
    elim (Option-cases (find? (λ s. str_eq s.token u) db.tables.sessions)) [
      | inl e ↦ ground (
        arith,
        find?-filter (λ s. s.token) u (λ s. not (str_eq s.token token)) db.tables.sessions v.tokens,
      )
      | inr (s, e) ↦ ground (
        arith,
        find?-filter (λ s. s.token) u (λ s. not (str_eq s.token token)) db.tables.sessions v.tokens,
        find?_holds (λ s. str_eq s.token u) db.tables.sessions s e,
        eq_iff s.token u,
        eq_iff s.token token,
        eq_iff token u,
      )
    ]
