-- ===== src/Db/Admins.antt =====
-- Administrators among the accounts, and how each statement on accounts changes their number.
use visuara.Prelude.{
  ℕ, ◌+◌, ◌≤◌, ◌≡◌, ◌≢◌, ◌⊎◌, inl, inr, refl, true, false, [], ◌∷◌, some, String, ◌==◌, any, count,
  count-append, count-delete, count-delete_uncounted, count-update, count-update_uncounted,
  count-update_raise, filter, find?, update, str_eq, eq_iff, Bool-cases, arith,
}
use visuara.Db.Keys.{IsKeyed}
use visuara.Db.{
  AccountRole, user, admin, AccountRow, Tables, Db, as_str, from_column, is_admin_row, new_account,
  insert_account, set_role_rows, delete_account_rows,
}

-- There is an administrator, unless there is no account at all.
abbrev pub HasAdmin : Tables → Type 0
HasAdmin t = (t.accounts ≡ []) ⊎ (1 ≤ count is_admin_row t.accounts)

pub from_column-as_str : (r : AccountRole) → from_column (as_str r) ≡ r
unfolding from_column as_str
from_column-as_str user = ground (arith, eq_iff "user" "admin")
from_column-as_str admin = refl

is_admin_row_of : (r : AccountRole) → r ≡ admin → str_eq (as_str r) "admin" ≡ true
unfolding as_str
is_admin_row_of user e = absurd (cc e)
is_admin_row_of admin e = refl

pub insert_account-HasAdmin :
    (email hash : String) (r : AccountRole) (db : Db)
    → HasAdmin db.tables
    → (r ≡ admin) ⊎ (db.tables.accounts ≢ [])
    → HasAdmin (insert_account email hash r db).1
unfolding insert_account as_str count
insert_account-HasAdmin email hash r db has why =
    elim (Bool-cases (any (λ a. str_eq a.email email) db.tables.accounts)) [
      | inl taken ↦ rw (taken, insert_account) has
      | inr free ↦
          rw (free, insert_account)
            (inr (
              omega (
                arith,
                count-append is_admin_row db.tables.accounts (new_account db email hash r ∷ []),
                counted has why,
              )))
    ]
  where
    counted :
        HasAdmin db.tables
        → (r ≡ admin) ⊎ (db.tables.accounts ≢ [])
        → 1
          ≤ count is_admin_row db.tables.accounts
            + count is_admin_row (new_account db email hash r ∷ [])
    counted h (inl makes) = rw (is_admin_row_of r makes) (omega arith)
    counted (inl none_yet) (inr some_account) = absurd (some_account none_yet)
    counted (inr one) (inr some_account) = omega arith

-- The statement that changes a role leaves an administrator, if it makes one, or there are two, or
-- the account that it changes is none.
pub set_role_rows-HasAdmin :
    (k : ℕ) (r : AccountRole) (t : Tables)
    → IsKeyed t
    → HasAdmin t
    → (r ≡ admin)
      ⊎ ((2 ≤ count is_admin_row t.accounts)
          ⊎ ((a : AccountRow)
              → find? (λ x. x.id == k) t.accounts ≡ some a
              → is_admin_row a ≡ false))
    → HasAdmin (set_role_rows k r t)
unfolding set_role_rows update
set_role_rows-HasAdmin k r t v (inl empty) why = inl (rw (empty, set_role_rows))
set_role_rows-HasAdmin k r t v (inr some_admin) (inl raise) = inr (
    omega (
      arith,
      count-update_raise (λ a. a.id) is_admin_row (λ a. record a { role = as_str r }) k t.accounts
          (λ a. is_admin_row_of r raise),
    ))
set_role_rows-HasAdmin k r t v (inr some_admin) (inr (inl two)) = inr (
    omega (
      arith,
      count-update (λ a. a.id) is_admin_row (λ a. record a { role = as_str r }) k t.accounts v.ids,
    ))
set_role_rows-HasAdmin k r t v (inr some_admin) (inr (inr plain)) = inr (
    omega (
      arith,
      count-update_uncounted (λ a. a.id) is_admin_row (λ a. record a { role = as_str r }) k
          t.accounts v.ids plain,
    ))

-- So does the one that deletes an account.
pub delete_account_rows-HasAdmin :
    (k : ℕ) (t : Tables)
    → IsKeyed t
    → HasAdmin t
    → (2 ≤ count is_admin_row t.accounts)
      ⊎ ((a : AccountRow) → find? (λ x. x.id == k) t.accounts ≡ some a → is_admin_row a ≡ false)
    → HasAdmin (delete_account_rows k t)
unfolding delete_account_rows filter
delete_account_rows-HasAdmin k t v (inl empty) why = inl (rw empty)
delete_account_rows-HasAdmin k t v (inr some_admin) (inl two) =
    inr (omega (arith, count-delete (λ a. a.id) is_admin_row k t.accounts v.ids))
delete_account_rows-HasAdmin k t v (inr some_admin) (inr plain) =
    inr (omega (arith, count-delete_uncounted (λ a. a.id) is_admin_row k t.accounts v.ids plain))
