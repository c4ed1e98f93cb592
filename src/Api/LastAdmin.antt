-- ===== src/Api/LastAdmin.antt =====
-- The API never takes the last administrator away, as long as the database answers.
use visuara.Prelude.{
  ℕ, ◌≤◌, ◌≡◌, ◌⊎◌, inl, inr, refl, false, [], none, some, String, count, find?, ◌==◌,
  if◌then◌else◌, Option-cases, Bool-cases, arith, leb, str_eq,
}
use visuara.Db.{
  AccountRole, user, admin, AccountRow, Tables, ok, err, reads, locked, is_admin_row,
  find_account_by_id, count_admins, set_account_role, delete_account, set_role_rows,
  delete_account_rows, map_account_row, from_column,
}
use visuara.Db.Keys.{set_role_rows-IsKeyed, delete_account_rows-IsKeyed}
use visuara.Db.Admins.{set_role_rows-HasAdmin, delete_account_rows-HasAdmin}
use visuara.Session.{Headers, require_admin, is_admin}
use visuara.State.{AppState}
use visuara.Api.Types.{◌>>=◌, on_db, require, give}
use visuara.Api.Admin.{guard_last_admin}
use visuara.Api.Keeps.{Keeps, if-Keeps, bind-Keeps, call-Keeps, call_at}
use visuara.Api.Admin
use visuara.Api.Steady.{Steady, Still, reads-Still, writes-Steady, gate-Keeps, require_admin-Steady}

-- What the guard has made sure of when it lets its caller go on.
Guarded : ℕ → Tables → Type 0
Guarded k t =
    (2 ≤ count is_admin_row t.accounts)
    ⊎ ((a : AccountRow) → find? (λ x. x.id == k) t.accounts ≡ some a → is_admin_row a ≡ false)

is_admin-from_column : (s : String) → is_admin (from_column s) ≡ str_eq s "admin"
unfolding from_column
is_admin-from_column s = ground arith

guard_last_admin-Guarded :
    (k : ℕ) (s : AppState)
    → s.db.faults ≡ []
    → (guard_last_admin k s).0 ≡ inr tt
    → Guarded k s.db.tables
unfolding guard_last_admin Guarded ◌>>=◌ on_db find_account_by_id count_admins reads locked
    map_account_row from_column
guard_last_admin-Guarded k s fine e =
    elim (Option-cases (find? (λ x. x.id == k) s.db.tables.accounts)) [
      | inl missing ↦ inr (λ a found. absurd (cc))
      | inr (row, found) ↦ elim (Bool-cases (is_admin_row row)) [
        | inl an_admin ↦ inl ground arith
        | inr plain ↦ inr (λ a same. ground arith)
      ]
    ]

guard_last_admin-Still : (t : Tables) (k : ℕ) → Keeps (Still t) (guard_last_admin k)
unfolding guard_last_admin find_account_by_id count_admins
guard_last_admin-Still t k = call-Keeps (Still t) (find_account_by_id k) _ (reads-Still t _) (elim [
  | ok none ↦ λ s q. q
  | ok (some account) ↦
      if-Keeps (Still t) (is_admin account.role) _ _
        (call-Keeps (Still t) count_admins _ (reads-Still t _) (elim [
          | ok n ↦ if-Keeps (Still t) (leb n 1) _ _ (λ s q. q) (λ s q. q)
          | err e ↦ λ s q. q
        ]))
        (λ s q. q)
  | err e ↦ λ s q. q
])

-- What the guard of a change to `role` has made sure of.
RoleGuarded : ℕ → AccountRole → Tables → Type 0
RoleGuarded k role t = (role ≡ admin) ⊎ Guarded k t

-- Changing a role: the guard runs unless the new role is that of an administrator.
pub set_account_role-Steady :
    (headers : Headers) (k : ℕ) (role : AccountRole)
    → Keeps Steady (Admin.set_account_role headers k role)
unfolding Admin.set_account_role set_account_role RoleGuarded Guarded
set_account_role-Steady headers k role =
    bind-Keeps Steady (require (require_admin headers)) _ (require_admin-Steady headers) λ caller.
      gate-Keeps (RoleGuarded k role) _ _ (still role) (pass role) λ s h q.
        call_at Steady (set_account_role k role) _ s
          (writes-Steady (set_role_rows k role) s.db q (set_role_rows-IsKeyed k role _ q.keyed)
            (set_role_rows-HasAdmin k role s.db.tables q.keyed q.has_admin h))
          (elim [ ok done ↦ λ t p. p | err e ↦ λ t p. p ])
  where
    still :
        (r : AccountRole) (t : Tables)
        → Keeps (Still t) (if is_admin r then give tt else guard_last_admin k)
    still r t = if-Keeps (Still t) (is_admin r) _ _ (λ s q. q) (guard_last_admin-Still t k)

    pass :
        (r : AccountRole) (s : AppState)
        → s.db.faults ≡ []
        → ((if is_admin r then give tt else guard_last_admin k) s).0 ≡ inr tt
        → RoleGuarded k r s.db.tables
    pass admin s fine e = inl refl
    pass user s fine e = inr (guard_last_admin-Guarded k s fine e)

pub delete_account-Steady :
    (headers : Headers) (k : ℕ) → Keeps Steady (Admin.delete_account headers k)
unfolding Admin.delete_account delete_account Guarded
delete_account-Steady headers k =
    bind-Keeps Steady (require (require_admin headers)) _ (require_admin-Steady headers) λ caller.
      gate-Keeps (Guarded k) (guard_last_admin k) _ (λ t. guard_last_admin-Still t k)
        (λ s fine e. guard_last_admin-Guarded k s fine e)
        λ s h q.
          call_at Steady (delete_account k) _ s
            (writes-Steady (delete_account_rows k) s.db q (delete_account_rows-IsKeyed k _ q.keyed)
              (delete_account_rows-HasAdmin k s.db.tables q.keyed q.has_admin h))
            (elim [ ok done ↦ λ t p. p | err e ↦ λ t p. p ])
