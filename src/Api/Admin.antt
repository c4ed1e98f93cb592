-- ===== src/Api/Admin.antt =====
-- visuara-signaling/src/api/admin.rs: settings, accounts and registration, for administrators.
-- `client_builds` is in Downloads/Listing, `fetch_release` in Release.
use visuara.Prelude.{
  ℕ, Bool, ◌||◌, map, Option, none, some, String, if◌then◌else◌, ◌==◌, leb, trim, is_empty,
  unwrap_or,
}
use visuara.Auth.{Argon, hash_password}
use visuara.Db.{
  AccountRole, user, admin, Result, ok, err, get_setting, set_setting, list_all_accounts,
  find_account_by_id, list_devices_for_account, find_device, delete_device, registration_enabled,
  set_registration_enabled, count_admins,
}
use visuara.Db
use visuara.Session.{
  Headers, success, created, no_content, bad_request, not_found, conflict, internal_server_error,
  require_admin, is_admin, authed,
}
use visuara.Api.Types.{
  Response, H, ◌>>=◌, ◌>>◌, reply, give, on_db, modify, require, bare, with_body, error_response,
  text, caused, settings_view, account_list, account_view, registration_status, account_detail,
}
use visuara.Api.Auth.{mentions_unique, enabled_or_true}
use visuara.Api.Devices.{or_empty, summary, kick_device}

-- `.await.ok().flatten().unwrap_or_default()`
abbrev pub setting_or_empty : Result (Option String) → String
setting_or_empty (ok o) = unwrap_or o ""
setting_or_empty (err e) = ""

unfoldable pub get_settings : Headers → H Response
get_settings headers = do
  caller ← require (require_admin headers)
  server_url ← on_db (get_setting "server_url")
  default_device_name ← on_db (get_setting "default_device_name")
  give (
      with_body success
        (settings_view (setting_or_empty server_url) (setting_or_empty default_device_name)))

unfoldable pub save_settings : Headers → String → String → H Response
save_settings headers raw_url raw_name = do
  caller ← require (require_admin headers)
  let server_url = trim raw_url
  let default_device_name = trim raw_name
  dropped ← on_db (set_setting "server_url" server_url)
  dropped' ← on_db (set_setting "default_device_name" default_device_name)
  give (with_body success (settings_view server_url default_device_name))

unfoldable pub list_accounts : Headers → H Response
list_accounts headers = do
  caller ← require (require_admin headers)
  accounts ← on_db list_all_accounts
  give (with_body success (account_list (or_empty accounts)))

unfoldable pub get_account_detail : Headers → ℕ → H Response
get_account_detail headers account_id = do
  caller ← require (require_admin headers)
  found ← on_db (find_account_by_id account_id)
  account ← elim found [
    | ok (some a) ↦ give a
    | ok none ↦ reply (error_response not_found (text "account not found"))
    | err e ↦ reply (error_response internal_server_error (caused "" e))
  ]
  devices ← on_db (list_devices_for_account account_id)
  λ s.
      give
        (with_body success
          (account_detail (authed account) (map (summary s.device_online) (or_empty devices))))
        s

unfoldable pub create_account :
    Argon → Headers → String → String → String → Option AccountRole → H Response
create_account argon headers salt raw_email password role_given = do
  caller ← require (require_admin headers)
  let email = trim raw_email
  (if is_empty email || is_empty password
      then reply (error_response bad_request (text "email and password are required"))
      else give tt)
  hash ← elim (hash_password argon salt password) [
    | some h ↦ give h
    | none ↦ reply (error_response internal_server_error (text "failed to hash password"))
  ]
  let role = unwrap_or role_given user
  made ← on_db (Db.create_account email hash role)
  elim made [
    | ok id ↦
        give (with_body created (account_view (record { id = id; email = email; role = role })))
    | err e ↦ reply (
        error_response conflict (
          if mentions_unique e
          then text "That email is already registered."
          else caused "failed to create account: " e))
  ]

-- Refuses to go on if the account is the last administrator. A failed lookup lets the caller go on.
unfoldable pub guard_last_admin : ℕ → H (Unit {0})
guard_last_admin account_id = do
  found ← on_db (find_account_by_id account_id)
  elim found [
    | ok (some account) ↦
        if is_admin account.role
        then (do
          admins ← on_db count_admins
          elim admins [
            | ok n ↦
                if leb n 1
                then reply (
                    error_response conflict (text "cannot remove the last remaining admin account"))
                else give tt
            | err e ↦ reply (error_response internal_server_error (caused "" e))
          ])
        else give tt
    | ok none ↦ give tt
    | err e ↦ give tt
  ]

unfoldable pub set_account_role : Headers → ℕ → AccountRole → H Response
set_account_role headers account_id role = do
  caller ← require (require_admin headers)
  (if is_admin role then give tt else guard_last_admin account_id)
  r ← on_db (Db.set_account_role account_id role)
  elim r [
    | ok done ↦ give (bare no_content)
    | err e ↦ reply (error_response internal_server_error (caused "" e))
  ]

unfoldable pub delete_account : Headers → ℕ → H Response
delete_account headers account_id = do
  caller ← require (require_admin headers)
  guard_last_admin account_id
  r ← on_db (Db.delete_account account_id)
  elim r [
    | ok done ↦ give (bare no_content)
    | err e ↦ reply (error_response internal_server_error (caused "" e))
  ]

abbrev pub no_such_device : Response
no_such_device = error_response not_found (text "device not found for this account")

unfoldable pub delete_device_of : Headers → ℕ → String → H Response
delete_device_of headers account_id device_id = do
  caller ← require (require_admin headers)
  found ← on_db (find_device device_id)
  elim found [
    | ok (some device) ↦
        if device.account_id == account_id
        then (do
          dropped ← on_db (delete_device device_id)
          modify (kick_device device_id "This device was removed by an administrator.")
          give (bare no_content))
        else reply no_such_device
    | ok none ↦ reply no_such_device
    | err e ↦ reply (error_response internal_server_error (caused "" e))
  ]

unfoldable pub get_registration : Headers → H Response
get_registration headers = do
  caller ← require (require_admin headers)
  enabled ← on_db registration_enabled
  give (with_body success (registration_status (enabled_or_true enabled)))

unfoldable pub set_registration : Headers → Bool → H Response
set_registration headers enabled = do
  caller ← require (require_admin headers)
  r ← on_db (set_registration_enabled enabled)
  elim r [
    | ok done ↦ give (with_body success (registration_status enabled))
    | err e ↦ reply (error_response internal_server_error (caused "" e))
  ]
