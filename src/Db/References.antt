-- ===== src/Db/References.antt =====
-- Where SQLite enforces foreign keys, no session or device refers to an account that is gone.
use visuara.Prelude.{
  ℕ, ◌≡◌, ◌≢◌, refl, sym, ◌∙◌, subst, inl, inr, Bool, true, not, List, [], ◌∷◌, ◌++◌, String,
  if◌then◌else◌, ◌==◌, All, All-concat, All-update, any, filter, update, str_eq, Bool-cases, arith,
}
use visuara.Db.Calls.{
  Call, setting, registration, new_user, role, drop_account, login, logout, device, password,
  drop_device, perform, locked_keeps, writes_keeps, tables-dropped,
}
use visuara.Db.{
  AccountRole, AccountRow, Tables, Db, set_setting, set_setting_rows, set_registration_enabled,
  create_account, insert_account, set_account_role, set_role_rows, delete_account,
  delete_account_rows, create_session, insert_session, delete_session, delete_session_rows,
  create_device, insert_device, set_unattended_password_hash, set_password_rows, delete_device,
  delete_device_rows, as_str,
}

abbrev pub is_account : List AccountRow → ℕ → Bool
is_account accounts k = any (λ r. r.id == k) accounts

pub record HasOwners (t : Tables) : Type 0 where
  pub sessions : All (λ s. is_account t.accounts s.account_id ≡ true) t.sessions
  pub devices : All (λ d. is_account t.accounts d.account_id ≡ true) t.devices

is_account-append :
    (xs ys : List AccountRow) (k : ℕ) → is_account xs k ≡ true → is_account (xs ++ ys) k ≡ true
unfolding any
is_account-append [] ys k h = absurd (ground arith)
is_account-append (x ∷ xs) ys k h = ground (arith, is_account-append xs ys k)

is_account-filter :
    (xs : List AccountRow) (j k : ℕ)
    → is_account xs k ≡ true
    → k ≢ j
    → is_account (filter (λ r. not (r.id == j)) xs) k ≡ true
unfolding any filter
is_account-filter [] j k h ne = absurd (ground arith)
is_account-filter (x ∷ xs) j k h ne = ground (arith, is_account-filter xs j k)

is_account-update :
    (xs : List AccountRow) (p : AccountRow → Bool) (f : AccountRow → AccountRow) (k : ℕ)
    → ((r : AccountRow) → (f r).id ≡ r.id)
    → is_account (update p f xs) k ≡ is_account xs k
unfolding any update
is_account-update [] p f k same = refl
is_account-update (x ∷ xs) p f k same = ground (arith, same x, is_account-update xs p f k same)

module _ {ℓ} {A : Type ℓ} (owner : A → ℕ) where
  -- Every row of a table belongs to an account.
  abbrev Owned : List AccountRow → List A → Type 0
  Owned accounts = All (λ x. is_account accounts (owner x) ≡ true)

  Owned-map :
      (before after : List AccountRow) (xs : List A)
      → ((k : ℕ) → is_account before k ≡ true → is_account after k ≡ true)
      → Owned before xs
      → Owned after xs
  Owned-map before after [] f h = tt
  Owned-map before after (x ∷ xs) f (h, hs) = (f (owner x) h, Owned-map before after xs f hs)

  Owned-filter :
      (accounts : List AccountRow) (p : A → Bool) (xs : List A)
      → Owned accounts xs
      → Owned accounts (filter p xs)
  unfolding filter
  Owned-filter accounts p [] h = tt
  Owned-filter accounts p (x ∷ xs) (h, hs) = elim (Bool-cases (p x)) [
    | inl e ↦ rw (e, filter) (h, Owned-filter accounts p xs hs)
    | inr e ↦ rw (e, filter) (Owned-filter accounts p xs hs)
  ]

  -- Deleting an account with all rows that it owns.
  Owned-delete :
      (accounts : List AccountRow) (j : ℕ) (xs : List A)
      → Owned accounts xs
      → Owned (filter (λ r. not (r.id == j)) accounts) (filter (λ x. not (owner x == j)) xs)
  unfolding filter
  Owned-delete accounts j [] h = tt
  Owned-delete accounts j (x ∷ xs) (h, hs) = elim (Bool-cases (owner x == j)) [
    | inl e ↦ rw (e, filter) (Owned-delete accounts j xs hs)
    | inr e ↦
        rw (e, filter)
          (is_account-filter accounts j (owner x) h (ground arith), Owned-delete accounts j xs hs)
  ]

set_setting-HasOwners :
    (key value : String) (db : Db)
    → HasOwners db.tables
    → HasOwners (set_setting key value db).1.tables
unfolding set_setting set_setting_rows
set_setting-HasOwners key value db v =
    writes_keeps HasOwners (set_setting_rows key value) db v
      (record { sessions = v.sessions; devices = v.devices })

insert_account-HasOwners :
    (email hash : String) (r : AccountRole) (db : Db)
    → HasOwners db.tables
    → HasOwners (insert_account email hash r db).1
unfolding insert_account
insert_account-HasOwners email hash r db v =
    elim (Bool-cases (any (λ a. str_eq a.email email) db.tables.accounts)) [
      | inl taken ↦ rw (taken, insert_account) v
      | inr free ↦
          rw (free, insert_account)
            (record {
              sessions = Owned-map (λ s. s.account_id) _ _ _ (is_account-append _ _) v.sessions;
              devices = Owned-map (λ d. d.account_id) _ _ _ (is_account-append _ _) v.devices;
            })
    ]

set_role_rows-HasOwners :
    (account_id : ℕ) (r : AccountRole) (t : Tables)
    → HasOwners t
    → HasOwners (set_role_rows account_id r t)
unfolding set_role_rows
set_role_rows-HasOwners account_id r t v = record {
  sessions = Owned-map (λ s. s.account_id) _ _ _ keep v.sessions;
  devices = Owned-map (λ d. d.account_id) _ _ _ keep v.devices;
}
  where
    keep :
        (k : ℕ)
        → is_account t.accounts k ≡ true
        → is_account
            (update (λ a. a.id == account_id) (λ a. record a { role = as_str r }) t.accounts)
            k
          ≡ true
    keep k h = is_account-update t.accounts _ _ k (λ a. refl) ∙ h

delete_account_rows-HasOwners :
    (account_id : ℕ) (t : Tables) → HasOwners t → HasOwners (delete_account_rows account_id t)
unfolding delete_account_rows
delete_account_rows-HasOwners account_id t v = record {
  sessions = Owned-delete (λ s. s.account_id) t.accounts account_id t.sessions v.sessions;
  devices = Owned-delete (λ d. d.account_id) t.accounts account_id t.devices v.devices;
}

insert_session-HasOwners :
    (token : String) (account_id : ℕ) (db : Db)
    → db.foreign_keys ≡ true
    → HasOwners db.tables
    → HasOwners (insert_session token account_id db).1
unfolding insert_session
insert_session-HasOwners token account_id db fk v =
    elim (Bool-cases (any (λ s. str_eq s.token token) db.tables.sessions)) [
      | inl taken ↦ rw (taken, insert_session) v
      | inr free ↦ elim (Bool-cases (is_account db.tables.accounts account_id)) [
        | inl known ↦
            rw (free, fk, known, insert_session)
              (record {
                sessions =
                    All-concat (λ s. is_account db.tables.accounts s.account_id ≡ true) _ _
                      v.sessions known;
                devices = v.devices;
              })
        | inr unknown ↦ rw (free, fk, unknown, insert_session) v
      ]
    ]

insert_device-HasOwners :
    (device_id : String) (account_id : ℕ) (name : String) (db : Db)
    → db.foreign_keys ≡ true
    → HasOwners db.tables
    → HasOwners (insert_device device_id account_id name db).1
unfolding insert_device
insert_device-HasOwners device_id account_id name db fk v =
    elim (Bool-cases (any (λ d. str_eq d.id device_id) db.tables.devices)) [
      | inl taken ↦ rw (taken, insert_device) v
      | inr free ↦ elim (Bool-cases (is_account db.tables.accounts account_id)) [
        | inl known ↦
            rw (free, fk, known, insert_device)
              (record {
                sessions = v.sessions;
                devices =
                    All-concat (λ d. is_account db.tables.accounts d.account_id ≡ true) _ _
                      v.devices known;
              })
        | inr unknown ↦ rw (free, fk, unknown, insert_device) v
      ]
    ]

set_password_rows-HasOwners :
    (device_id hash : String) (t : Tables)
    → HasOwners t
    → HasOwners (set_password_rows device_id hash t)
unfolding set_password_rows
set_password_rows-HasOwners device_id hash t v = record {
  sessions = v.sessions;
  devices =
      All-update (λ d. is_account t.accounts d.account_id ≡ true) _ _ t.devices (λ d h. h)
        v.devices;
}

-- With foreign keys enforced, every operation that writes, failing or not, leaves each session and
-- each device with an account that owns it.
pub perform-HasOwners :
    (c : Call) (db : Db)
    → db.foreign_keys ≡ true
    → HasOwners db.tables
    → HasOwners (perform c db).1.tables
unfolding perform set_registration_enabled create_account set_account_role delete_account
    create_session delete_session create_device set_unattended_password_hash delete_device
perform-HasOwners (setting key value) db fk v = set_setting-HasOwners key value db v
perform-HasOwners (registration enabled) db fk v =
    set_setting-HasOwners "registration_enabled" (if enabled then "true" else "false") db v
perform-HasOwners (new_user email hash r) db fk v =
    subst HasOwners (sym (tables-dropped (create_account email hash r) db)) (
      locked_keeps HasOwners (insert_account email hash r) db v
        (insert_account-HasOwners email hash r db v))
perform-HasOwners (role account_id r) db fk v =
    writes_keeps HasOwners (set_role_rows account_id r) db v
      (set_role_rows-HasOwners account_id r db.tables v)
perform-HasOwners (drop_account account_id) db fk v =
    writes_keeps HasOwners (delete_account_rows account_id) db v
      (delete_account_rows-HasOwners account_id db.tables v)
perform-HasOwners (login token account_id) db fk v =
    locked_keeps HasOwners (insert_session token account_id) db v
      (insert_session-HasOwners token account_id db fk v)
perform-HasOwners (logout token) db fk v = writes_keeps HasOwners (delete_session_rows token) db v (
    unfold delete_session_rows in
    record { sessions = Owned-filter (λ s. s.account_id) _ _ _ v.sessions; devices = v.devices })
perform-HasOwners (device device_id account_id name) db fk v =
    locked_keeps HasOwners (insert_device device_id account_id name) db v
      (insert_device-HasOwners device_id account_id name db fk v)
perform-HasOwners (password device_id hash) db fk v =
    writes_keeps HasOwners (set_password_rows device_id hash) db v
      (set_password_rows-HasOwners device_id hash db.tables v)
perform-HasOwners (drop_device device_id) db fk v =
    writes_keeps HasOwners (delete_device_rows device_id) db v (
      unfold delete_device_rows in
      record { sessions = v.sessions; devices = Owned-filter (λ d. d.account_id) _ _ _ v.devices })
