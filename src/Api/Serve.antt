-- ===== src/Api/Serve.antt =====
-- Every request leaves the database as the API wants to find it.
use visuara.Prelude.{
  ℕ, ◌≡◌, ◌≢◌, inl, inr, Bool, ◌||◌, List, [], ◌∷◌, Option, none, some, String, ◌==◌, trim,
  is_empty, unwrap_or, arith, find?, any, ◌++◌, Option-cases, Bool-cases, str_eq,
}
use visuara.Auth.{Argon, hash_password}
use visuara.Db.{
  AccountRole, user, Tables, Db, Account, Device, Result, ok, err, reads, locked,
  registration_enabled, find_account_by_email, find_account_by_id, list_devices_for_account,
  list_all_accounts, find_device, get_setting, set_setting, set_registration_enabled,
  create_session, delete_session, session_account, find_session, insert_account, new_account,
}
use visuara.Db
use visuara.Session.{
  Headers, AuthedAccount, require_account, require_admin, current_account, cookie_value,
  session_cookie,
}
use visuara.State.{AppState}
use visuara.Api.Types.{H, ◌>>=◌, ◌>>◌, on_db, require}
use visuara.Api.Admin
use visuara.Api.Router.{
  Request, register, login, logout, me, registration_status, devices, delete_own_device, admin,
  AdminRequest, get_settings, put_settings, get_accounts, post_account, get_account, delete_account,
  put_role, delete_device, get_registration, put_registration, handler, admin_handler, serve,
}
use visuara.Api.Keeps.{
  Keeps, Kept, bind-Keeps, reply-Keeps, give-Keeps, option-Keeps, call-Keeps, if-Keeps,
  require_admin-Keeps,
}
use visuara.Api.Steady.{Steady, Still, reads-Still, reads-Steady, pass-Keeps, require_admin-Steady}
use visuara.Api.LastAdmin.{set_account_role-Steady, delete_account-Steady}
use visuara.Api.Writes.{
  set_setting-Steady, set_registration_enabled-Steady, registration_enabled-Steady,
  create_account-Steady,
}
use visuara.Api.Users.{
  register-Steady, login-Steady, logout-Steady, me-Steady, registration_status-Steady, list-Steady,
  delete_own-Steady, dropped-Steady,
}

-- Besides, there is an account.
record Settled (db : Db) : Type 0 where
  steady : Steady db
  some_account : db.tables.accounts ≢ []

-- A step that makes sure that there is an account, and what follows it.
with_account-Keeps :
    {A B : Type 0} (m : H A) (rest : A → H B)
    → ((t : Tables) → Keeps (Still t) m)
    → ((s : AppState) (a : A) → s.db.faults ≡ [] → (m s).0 ≡ inr a → s.db.tables.accounts ≢ [])
    → ((a : A) → Keeps Settled (rest a))
    → Keeps Steady (m >>= rest)
with_account-Keeps m rest still pass k =
    pass-Keeps (λ t. t.accounts ≢ []) m rest still pass
      λ a s some_account q. (k a s (record { steady = q; some_account = some_account })).steady

append_one-nonempty : {A : Type 0} (xs : List A) (x : A) → xs ++ x ∷ [] ≢ []
append_one-nonempty [] x e = absurd (cc e)
append_one-nonempty (y ∷ ys) x e = absurd (cc e)

create_account-Settled :
    (email hash : String) (role : AccountRole) → Kept Settled (Db.create_account email hash role)
unfolding Db.create_account insert_account locked
create_account-Settled email hash role db q = record {
  steady = create_account-Steady email hash role db q.some_account q.steady;
  some_account = λ e. elim (Bool-cases (any (λ r. str_eq r.email email) db.tables.accounts)) [
    | inl taken ↦ q.some_account (ground arith)
    | inr free ↦
        append_one-nonempty db.tables.accounts (new_account db email hash role) (ground arith)
  ];
}

module _ (headers : Headers) where
  get_settings-Steady : Keeps Steady (Admin.get_settings headers)
  unfolding Admin.get_settings get_setting
  get_settings-Steady = bind-Keeps Steady _ _ (require_admin-Steady headers) λ caller.
      call-Keeps Steady (get_setting "server_url") _ (reads-Steady _) λ url.
        call-Keeps Steady (get_setting "default_device_name") _ (reads-Steady _) λ name s q. q

  save_settings-Steady : (url name : String) → Keeps Steady (Admin.save_settings headers url name)
  unfolding Admin.save_settings
  save_settings-Steady url name = bind-Keeps Steady _ _ (require_admin-Steady headers) λ caller.
      call-Keeps Steady _ _ (set_setting-Steady "server_url" (trim url)) λ r.
        call-Keeps Steady _ _ (set_setting-Steady "default_device_name" (trim name)) λ r' s q. q

  list_accounts-Steady : Keeps Steady (Admin.list_accounts headers)
  unfolding Admin.list_accounts list_all_accounts
  list_accounts-Steady =
      bind-Keeps Steady _ _ (require_admin-Steady headers)
        λ caller. call-Keeps Steady list_all_accounts _ (reads-Steady _) λ r s q. q

  get_account_detail-Steady : (id : ℕ) → Keeps Steady (Admin.get_account_detail headers id)
  unfolding Admin.get_account_detail find_account_by_id list_devices_for_account
  get_account_detail-Steady id = bind-Keeps Steady _ _ (require_admin-Steady headers) λ caller.
      call-Keeps Steady (find_account_by_id id) _ (reads-Steady _) (elim [
        | ok (some a) ↦
            give-Keeps Steady a _
              (call-Keeps Steady (list_devices_for_account id) _ (reads-Steady _) λ r s q. q)
        | ok none ↦ reply-Keeps Steady _ _
        | err e ↦ reply-Keeps Steady _ _
      ])

  delete_device_of-Steady :
      (id : ℕ) (device_id : String) → Keeps Steady (Admin.delete_device_of headers id device_id)
  unfolding Admin.delete_device_of find_device
  delete_device_of-Steady id device_id =
      bind-Keeps Steady _ _ (require_admin-Steady headers) λ caller.
        call-Keeps Steady (find_device device_id) _ (reads-Steady _) (elim [
          | ok (some device) ↦
              if-Keeps Steady (device.account_id == id) _ _
                (dropped-Steady device_id _ _ (λ s q. q)) (λ s q. q)
          | ok none ↦ λ s q. q
          | err e ↦ λ s q. q
        ])

  get_registration-Steady : Keeps Steady (Admin.get_registration headers)
  unfolding Admin.get_registration
  get_registration-Steady =
      bind-Keeps Steady _ _ (require_admin-Steady headers)
        λ caller. call-Keeps Steady registration_enabled _ registration_enabled-Steady λ r s q. q

  set_registration-Steady : (b : Bool) → Keeps Steady (Admin.set_registration headers b)
  unfolding Admin.set_registration
  set_registration-Steady b = bind-Keeps Steady _ _ (require_admin-Steady headers) λ caller.
      call-Keeps Steady _ _ (set_registration_enabled-Steady b)
        (elim [ ok done ↦ λ s q. q | err e ↦ λ s q. q ])

  -- A caller who is an administrator has an account.
  caller-exists :
      (s : AppState) (a : AuthedAccount)
      → s.db.faults ≡ []
      → (require (require_admin headers) s).0 ≡ inr a
      → s.db.tables.accounts ≢ []
  unfolding require require_admin require_account current_account find_session reads locked
      session_account on_db ◌>>=◌ find?
  caller-exists s a fine e empty = elim (Option-cases (cookie_value headers session_cookie)) [
    | inl missing ↦ absurd (ground arith)
    | inr (token, found) ↦
        elim (Option-cases (find? (λ r. str_eq r.token token) s.db.tables.sessions)) [
          | inl unknown ↦ absurd (ground arith)
          | inr (row, known) ↦ absurd (ground arith)
        ]
  ]

  new_account-Steady :
      (argon : Argon) (salt email password : String) (role : Option AccountRole)
      → Keeps Steady (Admin.create_account argon headers salt email password role)
  unfolding Admin.create_account ◌>>◌ find_session
  new_account-Steady argon salt email password role =
      with_account-Keeps _ _
        (λ t.
          require_admin-Keeps (Still t) (λ token. reads-Still t (session_account token)) headers)
        caller-exists
        λ caller.
          bind-Keeps Settled _ _
            (if-Keeps Settled (is_empty (trim email) || is_empty password) _ _ (λ s q. q)
              (λ s q. q))
            λ _.
              bind-Keeps Settled _ _ (option-Keeps Settled (hash_password argon salt password) _)
                λ hash.
                  call-Keeps Settled _ _
                    (create_account-Settled (trim email) hash (unwrap_or role user))
                    (elim [ ok id ↦ λ s q. q | err e ↦ λ s q. q ])

admin_handler-Steady :
    (argon : Argon) (headers : Headers) (r : AdminRequest)
    → Keeps Steady (admin_handler argon headers r)
unfolding admin_handler
admin_handler-Steady argon headers get_settings = get_settings-Steady headers
admin_handler-Steady argon headers (put_settings url name) = save_settings-Steady headers url name
admin_handler-Steady argon headers get_accounts = list_accounts-Steady headers
admin_handler-Steady argon headers (post_account salt email password role) =
    new_account-Steady headers argon salt email password role
admin_handler-Steady argon headers (get_account id) = get_account_detail-Steady headers id
admin_handler-Steady argon headers (delete_account id) = delete_account-Steady headers id
admin_handler-Steady argon headers (put_role id role) = set_account_role-Steady headers id role
admin_handler-Steady argon headers (delete_device id device_id) =
    delete_device_of-Steady headers id device_id
admin_handler-Steady argon headers get_registration = get_registration-Steady headers
admin_handler-Steady argon headers (put_registration b) = set_registration-Steady headers b

handler-Steady :
    (argon : Argon) (headers : Headers) (r : Request) → Keeps Steady (handler argon headers r)
unfolding handler
handler-Steady argon headers (register salt token email password) =
    register-Steady argon salt token email password
handler-Steady argon headers (login token email password) = login-Steady argon token email password
handler-Steady argon headers logout = logout-Steady headers
handler-Steady argon headers me = me-Steady headers
handler-Steady argon headers registration_status = registration_status-Steady
handler-Steady argon headers devices = list-Steady headers
handler-Steady argon headers (delete_own_device device_id) = delete_own-Steady headers device_id
handler-Steady argon headers (admin r) = admin_handler-Steady argon headers r

-- Whoever sends it and whatever it asks, a request to the API, those for downloads and client builds
-- left aside, leaves account ids, emails, device ids and session tokens unique and an administrator among
-- the accounts, if there is any account, provided that this holds before it and no call of the database
-- fails for an outside reason.
pub serve-Steady :
    (argon : Argon) (headers : Headers) (r : Request) (s : AppState)
    → Steady s.db
    → Steady (serve argon headers r s).1.db
unfolding serve
serve-Steady argon headers r s q =
    let same : (serve argon headers r s).1 ≡ (handler argon headers r s).1 = ground arith in
    rw same (handler-Steady argon headers r s q)
