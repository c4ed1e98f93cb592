-- ===== src/Ws/Requests.antt =====
-- Requests to the API beside the connections: each does to the shared state what the events `stored`
-- and `kicked` of Ws/Hub do (visuara-signaling/src/api, and ws.rs).
use visuara.Prelude.{
  ℕ, inl, inr, Bool, true, false, ◌||◌, ◌==◌, leb, Option, none, some, String, trim, is_empty,
  unwrap_or, if◌then◌else◌, ◌⊎◌,
}
use visuara.Auth.{Argon, hash_password, verify_password}
use visuara.Db.{
  AccountRole, user, Db, ok, err, registration_enabled, find_account_by_email, find_account_by_id,
  list_devices_for_account, list_all_accounts, find_device, get_setting, set_setting,
  set_registration_enabled, create_session, delete_session, count_admins,
}
use visuara.Db
use visuara.Session.{
  Headers, Status, AuthedAccount, require_account, require_admin, current_account, cookie_value,
  session_cookie, create_account_and_maybe_bootstrap_admin, is_admin,
}
use visuara.State.{AppState}
use visuara.Api.Types.{H, Response, and_then, ◌>>=◌, ◌>>◌, on_db, modify, require, give, reply}
use visuara.Api.Auth
use visuara.Api.Auth.{start_session}
use visuara.Api.Devices.{kick_device}
use visuara.Api.Devices
use visuara.Api.Admin
use visuara.Api.Admin.{guard_last_admin}
use visuara.Api.Router.{
  Request, register, login, logout, me, registration_status, devices, delete_own_device, admin,
  AdminRequest, get_settings, put_settings, get_accounts, post_account, get_account, delete_account,
  put_role, delete_device, get_registration, put_registration, handler, admin_handler, serve,
}
use visuara.Ws.Types.{External}
use visuara.Ws.Hub.{World, Reachable, next, stored, kicked, step}

module _ (P : AppState → Type 0)
    (stores : (s : AppState) (db : Db) → P s → P (record s { db = db }))
    (kicks : (s : AppState) (device_id message : String)
      → P s
      → P (kick_device device_id message s)) where
  abbrev Holds : {A : Type 0} → H A → Type 0
  Holds m = (s : AppState) → P s → P (m s).1

  bind-Holds :
      {A B : Type 0} (m : H A) (f : A → H B) → Holds m → ((a : A) → Holds (f a)) → Holds (m >>= f)
  unfolding ◌>>=◌
  bind-Holds m f h k s q = elim (m s).0 as (λ r. P (and_then f r (m s).1).1) [
    | inl response ↦ h s q
    | inr a ↦ k a (m s).1 (h s q)
  ]

  -- A call of the database and what follows it.
  call-Holds :
      {A B : Type 0} (call : Db → A × Db) (f : A → H B)
      → ((a : A) → Holds (f a))
      → Holds (on_db call >>= f)
  unfolding on_db
  call-Holds call f k = bind-Holds (on_db call) f (λ s q. stores s (call s.db).1 q) k

  require-Holds : (check : Db → (Status ⊎ AuthedAccount) × Db) → Holds (require check)
  unfolding require
  require-Holds check = call-Holds check _ (elim [ inl status ↦ λ s q. q | inr account ↦ λ s q. q ])

  if-Holds : {A : Type 0} (b : Bool) (m n : H A) → Holds m → Holds n → Holds (if b then m else n)
  if-Holds true m n h k = h
  if-Holds false m n h k = k

  option-Holds :
      {A : Type 0} (o : Option A) (r : Response)
      → Holds (elim o as (λ _. H A) [ none ↦ reply r | some a ↦ give a ])
  option-Holds none r s q = q
  option-Holds (some a) r s q = q

  removed-Holds :
      {B : Type 0} (device_id message : String) (f : Unit {0} → H B)
      → ((a : Unit {0}) → Holds (f a))
      → Holds (modify (kick_device device_id message) >>= f)
  unfolding modify
  removed-Holds device_id message f k =
      bind-Holds (modify (kick_device device_id message)) f (λ s q. kicks s device_id message q) k

  start_session-Holds :
      (token : String) (id : ℕ) (email : String) (role : AccountRole)
      → Holds (start_session token id email role)
  unfolding start_session
  start_session-Holds token id email role =
      call-Holds _ _ (elim [ ok done ↦ λ s q. q | err e ↦ λ s q. q ])

  -- A step that replies, or gives, without a call.
  reply-Holds : {A B : Type 0} (r : Response) (f : A → H B) → Holds (reply r >>= f)
  unfolding ◌>>=◌
  reply-Holds r f s q = q

  give-Holds : {A B : Type 0} (a : A) (f : A → H B) → Holds (f a) → Holds (give a >>= f)
  unfolding ◌>>=◌
  give-Holds a f h = h

  register-Holds :
      (argon : Argon) (salt token email password : String)
      → Holds (Auth.register argon salt token email password)
  unfolding Auth.register ◌>>◌
  register-Holds argon salt token email password =
      bind-Holds _ _
        (if-Holds (is_empty (trim email) || is_empty password) _ _ (λ s q. q) (λ s q. q))
        λ _. call-Holds registration_enabled _ (elim [
          | ok true ↦ give-Holds tt _ (
              bind-Holds _ _ (option-Holds (hash_password argon salt password) _) λ hash.
                call-Holds (create_account_and_maybe_bootstrap_admin (trim email) hash) _ (elim [
                  | ok made ↦ start_session-Holds token made.0 (trim email) made.1
                  | err e ↦ λ s q. q
                ]))
          | ok false ↦ reply-Holds _ _
          | err e ↦ reply-Holds _ _
        ])

  login-Holds :
      (argon : Argon) (token email password : String)
      → Holds (Auth.login argon token email password)
  unfolding Auth.login
  login-Holds argon token email password = call-Holds (find_account_by_email (trim email)) _ (elim [
    | ok (some account) ↦
        if-Holds (verify_password argon password account.password_hash) _ _
          (start_session-Holds token account.id account.email account.role) (λ s q. q)
    | ok none ↦ λ s q. q
    | err e ↦ λ s q. q
  ])

  logout-Holds : (headers : Headers) → Holds (Auth.logout headers)
  unfolding Auth.logout ◌>>◌
  logout-Holds headers = bind-Holds _ _ (dropped (cookie_value headers session_cookie)) λ _ s q. q
    where
      dropped :
          (o : Option String)
          → Holds (elim o as (λ _. H (Unit {0})) [
            | none ↦ give tt
            | some token ↦ (on_db (delete_session token) >>= λ dropped. give tt)
          ])
      dropped none = λ s q. q
      dropped (some token) = call-Holds (delete_session token) _ λ r s q. q

  me-Holds : (headers : Headers) → Holds (Auth.me headers)
  unfolding Auth.me
  me-Holds headers =
      call-Holds (current_account headers) _ (elim [ some account ↦ λ s q. q | none ↦ λ s q. q ])

  -- A device that is removed, and what the caller is told.
  dropped-Holds :
      (device_id message : String) (rest : H Response)
      → Holds rest
      → Holds (
          on_db (Db.delete_device device_id) >>= λ _.
          modify (kick_device device_id message) >> rest)
  unfolding ◌>>◌
  dropped-Holds device_id message rest h =
      call-Holds (Db.delete_device device_id) _ λ _. removed-Holds device_id message _ λ _. h

  delete_own-Holds :
      (headers : Headers) (device_id : String) → Holds (Devices.delete_own headers device_id)
  unfolding Devices.delete_own ◌>>◌
  delete_own-Holds headers device_id =
      bind-Holds _ _ (require-Holds (require_account headers)) λ account.
        call-Holds (find_device device_id) _ (elim [
          | ok (some device) ↦
              if-Holds (device.account_id == account.id) _ _
                (dropped-Holds device_id _ _ (λ s q. q)) (λ s q. q)
          | ok none ↦ λ s q. q
          | err e ↦ λ s q. q
        ])

  guard-Holds : (id : ℕ) → Holds (guard_last_admin id)
  unfolding guard_last_admin
  guard-Holds id = call-Holds (find_account_by_id id) _ (elim [
    | ok (some account) ↦
        if-Holds (is_admin account.role) _ _
          (call-Holds count_admins _
            (elim [ ok n ↦ if-Holds (leb n 1) _ _ (λ s q. q) (λ s q. q) | err e ↦ λ s q. q ]))
          (λ s q. q)
    | ok none ↦ λ s q. q
    | err e ↦ λ s q. q
  ])

  new_account-Holds :
      (argon : Argon) (headers : Headers) (salt email password : String) (role : Option AccountRole)
      → Holds (Admin.create_account argon headers salt email password role)
  unfolding Admin.create_account ◌>>◌
  new_account-Holds argon headers salt email password role =
      bind-Holds _ _ (require-Holds (require_admin headers)) λ caller.
        bind-Holds _ _
          (if-Holds (is_empty (trim email) || is_empty password) _ _ (λ s q. q) (λ s q. q))
          λ _. bind-Holds _ _ (option-Holds (hash_password argon salt password) _) λ hash.
            call-Holds (Db.create_account (trim email) hash (unwrap_or role user)) _
              (elim [ ok id ↦ λ s q. q | err e ↦ λ s q. q ])

  account_detail-Holds : (headers : Headers) (id : ℕ) → Holds (Admin.get_account_detail headers id)
  unfolding Admin.get_account_detail
  account_detail-Holds headers id = bind-Holds _ _ (require-Holds (require_admin headers)) λ caller.
      call-Holds (find_account_by_id id) _ (elim [
        | ok (some a) ↦ give-Holds a _ (call-Holds (list_devices_for_account id) _ λ r s q. q)
        | ok none ↦ reply-Holds _ _
        | err e ↦ reply-Holds _ _
      ])

  delete_device_of-Holds :
      (headers : Headers) (id : ℕ) (device_id : String)
      → Holds (Admin.delete_device_of headers id device_id)
  unfolding Admin.delete_device_of ◌>>◌
  delete_device_of-Holds headers id device_id =
      bind-Holds _ _ (require-Holds (require_admin headers)) λ caller.
        call-Holds (find_device device_id) _ (elim [
          | ok (some device) ↦
              if-Holds (device.account_id == id) _ _ (dropped-Holds device_id _ _ (λ s q. q))
                (λ s q. q)
          | ok none ↦ λ s q. q
          | err e ↦ λ s q. q
        ])

  admin_handler-Holds :
      (argon : Argon) (headers : Headers) (r : AdminRequest) → Holds (admin_handler argon headers r)
  unfolding admin_handler Admin.get_settings Admin.save_settings Admin.list_accounts
      Admin.set_account_role Admin.delete_account Admin.get_registration Admin.set_registration ◌>>◌
  admin_handler-Holds argon headers get_settings =
      bind-Holds _ _ (require-Holds (require_admin headers)) λ caller.
        call-Holds (get_setting "server_url") _
          λ url. call-Holds (get_setting "default_device_name") _ λ name s q. q
  admin_handler-Holds argon headers (put_settings url name) =
      bind-Holds _ _ (require-Holds (require_admin headers)) λ caller.
        call-Holds (set_setting "server_url" (trim url)) _
          λ r. call-Holds (set_setting "default_device_name" (trim name)) _ λ r' s q. q
  admin_handler-Holds argon headers get_accounts =
      bind-Holds _ _ (require-Holds (require_admin headers))
        λ caller. call-Holds list_all_accounts _ λ r s q. q
  admin_handler-Holds argon headers (post_account salt email password role) =
      new_account-Holds argon headers salt email password role
  admin_handler-Holds argon headers (get_account id) = account_detail-Holds headers id
  admin_handler-Holds argon headers (delete_account id) =
      bind-Holds _ _ (require-Holds (require_admin headers)) λ caller.
        bind-Holds _ _ (guard-Holds id)
          λ _. call-Holds (Db.delete_account id) _ (elim [ ok done ↦ λ s q. q | err e ↦ λ s q. q ])
  admin_handler-Holds argon headers (put_role id role) =
      bind-Holds _ _ (require-Holds (require_admin headers)) λ caller.
        bind-Holds _ _ (if-Holds (is_admin role) _ _ (λ s q. q) (guard-Holds id)) λ _.
          call-Holds (Db.set_account_role id role) _
            (elim [ ok done ↦ λ s q. q | err e ↦ λ s q. q ])
  admin_handler-Holds argon headers (delete_device id device_id) =
      delete_device_of-Holds headers id device_id
  admin_handler-Holds argon headers get_registration =
      bind-Holds _ _ (require-Holds (require_admin headers))
        λ caller. call-Holds registration_enabled _ λ r s q. q
  admin_handler-Holds argon headers (put_registration b) =
      bind-Holds _ _ (require-Holds (require_admin headers)) λ caller.
        call-Holds (set_registration_enabled b) _ (elim [ ok done ↦ λ s q. q | err e ↦ λ s q. q ])

  handler-Holds :
      (argon : Argon) (headers : Headers) (r : Request) → Holds (handler argon headers r)
  unfolding handler Auth.get_registration_status Devices.list
  handler-Holds argon headers (register salt token email password) =
      register-Holds argon salt token email password
  handler-Holds argon headers (login token email password) = login-Holds argon token email password
  handler-Holds argon headers logout = logout-Holds headers
  handler-Holds argon headers me = me-Holds headers
  handler-Holds argon headers registration_status = call-Holds registration_enabled _ λ r s q. q
  handler-Holds argon headers devices =
      bind-Holds _ _ (require-Holds (require_account headers))
        λ account. call-Holds (list_devices_for_account account.id) _ λ r s q. q
  handler-Holds argon headers (delete_own_device device_id) = delete_own-Holds headers device_id
  handler-Holds argon headers (admin r) = admin_handler-Holds argon headers r

-- A request that is modelled takes a state that the server comes to into one.
pub serve-Reachable :
    (ext : External) (headers : Headers) (r : Request) (w : World)
    → Reachable ext w
    → Reachable ext (record w { app = (serve ext.argon headers r w.app).1 })
unfolding serve step
serve-Reachable ext headers r w h =
    let after : Reachable ext (record w { app = (handler ext.argon headers r w.app).1 }) =
      handler-Holds (λ s. Reachable ext (record w { app = s })) (λ s db q. next (stored db) _ q tt)
        (λ s device_id message q. next (kicked device_id message) _ q tt) ext.argon headers r w.app
        h in
    elim (handler ext.argon headers r w.app).0
      as (λ o. Reachable ext (record w {
        app =
            (elim o as (λ _. Response × AppState) [
              | inl response ↦ (response, (handler ext.argon headers r w.app).1)
              | inr response ↦ (response, (handler ext.argon headers r w.app).1)
            ]).1;
      })) [ inl response ↦ after | inr response ↦ after ]
