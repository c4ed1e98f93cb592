-- ===== src/Api/Users.antt =====
-- What the handlers of the routes outside /admin leave of the database.
use visuara.Prelude.{ℕ, refl, true, false, ◌||◌, Option, none, some, String, ◌==◌, trim, is_empty}
use visuara.Auth.{Argon, hash_password, verify_password}
use visuara.Db.{
  AccountRole, ok, err, registration_enabled, find_account_by_email, list_devices_for_account,
  find_device, delete_device, create_session, delete_session, session_account, find_session,
}
use visuara.Session.{
  Headers, current_account, cookie_value, session_cookie, create_account_and_maybe_bootstrap_admin,
}
use visuara.Api.Types.{Response, H, ◌>>=◌, ◌>>◌, on_db, modify, give}
use visuara.Api.Auth
use visuara.Api.Devices
use visuara.Api.Devices.{kick_device}
use visuara.Api.Keeps.{
  Keeps, bind-Keeps, reply-Keeps, give-Keeps, option-Keeps, call-Keeps, if-Keeps, modify-Keeps,
  current_account-Kept,
}
use visuara.Api.Steady.{Steady, reads-Steady, require_account-Steady}
use visuara.Api.Writes.{
  registration_enabled-Steady, create_session-Steady, delete_session-Steady, delete_device-Steady,
  bootstrap-Steady,
}

start_session-Steady :
    (token : String) (id : ℕ) (email : String) (role : AccountRole)
    → Keeps Steady (Auth.start_session token id email role)
unfolding Auth.start_session
start_session-Steady token id email role =
    call-Keeps Steady (create_session token id) _ (create_session-Steady token id)
      (elim [ ok done ↦ λ s q. q | err e ↦ λ s q. q ])

pub register-Steady :
    (argon : Argon) (salt token email password : String)
    → Keeps Steady (Auth.register argon salt token email password)
unfolding Auth.register ◌>>◌
register-Steady argon salt token email password =
    bind-Keeps Steady _ _
      (if-Keeps Steady (is_empty (trim email) || is_empty password) _ _ (λ s q. q) (λ s q. q))
      λ _. call-Keeps Steady registration_enabled _ registration_enabled-Steady (elim [
        | ok true ↦ give-Keeps Steady tt _ (
            bind-Keeps Steady _ _ (option-Keeps Steady (hash_password argon salt password) _)
              λ hash.
                call-Keeps Steady (create_account_and_maybe_bootstrap_admin (trim email) hash) _
                  (bootstrap-Steady (trim email) hash)
                  (elim [
                    | ok made ↦ start_session-Steady token made.0 (trim email) made.1
                    | err e ↦ λ s q. q
                  ]))
        | ok false ↦ reply-Keeps Steady _ _
        | err e ↦ reply-Keeps Steady _ _
      ])

pub login-Steady :
    (argon : Argon) (token email password : String)
    → Keeps Steady (Auth.login argon token email password)
unfolding Auth.login find_account_by_email
login-Steady argon token email password =
    call-Keeps Steady (find_account_by_email (trim email)) _ (reads-Steady _) (elim [
      | ok (some account) ↦
          if-Keeps Steady (verify_password argon password account.password_hash) _ _
            (start_session-Steady token account.id account.email account.role) (λ s q. q)
      | ok none ↦ λ s q. q
      | err e ↦ λ s q. q
    ])

pub logout-Steady : (headers : Headers) → Keeps Steady (Auth.logout headers)
unfolding Auth.logout ◌>>◌
logout-Steady headers =
    bind-Keeps Steady _ _ (dropped (cookie_value headers session_cookie)) λ _ s q. q
  where
    dropped :
        (o : Option String)
        → Keeps Steady (elim o as (λ _. H (Unit {0})) [
          | none ↦ give tt
          | some token ↦ (on_db (delete_session token) >>= λ dropped. give tt)
        ])
    dropped none = λ s q. q
    dropped (some token) =
        call-Keeps Steady (delete_session token) _ (delete_session-Steady token) λ r s q. q

pub me-Steady : (headers : Headers) → Keeps Steady (Auth.me headers)
unfolding Auth.me find_session
me-Steady headers =
    call-Keeps Steady (current_account headers) _
      (current_account-Kept Steady (λ token. reads-Steady (session_account token)) headers)
      (elim [ some account ↦ λ s q. q | none ↦ λ s q. q ])

pub registration_status-Steady : Keeps Steady Auth.get_registration_status
unfolding Auth.get_registration_status
registration_status-Steady =
    call-Keeps Steady registration_enabled _ registration_enabled-Steady λ r s q. q

pub list-Steady : (headers : Headers) → Keeps Steady (Devices.list headers)
unfolding Devices.list list_devices_for_account
list-Steady headers =
    bind-Keeps Steady _ _ (require_account-Steady headers) λ account.
      call-Keeps Steady (list_devices_for_account account.id) _ (reads-Steady _) λ r s q. q

-- A device is dropped from the database and cut off.
pub dropped-Steady :
    (device_id message : String) (rest : H Response)
    → Keeps Steady rest
    → Keeps Steady
        (on_db (delete_device device_id) >>= λ _. modify (kick_device device_id message) >> rest)
unfolding kick_device ◌>>◌
dropped-Steady device_id message rest h =
    call-Keeps Steady (delete_device device_id) _ (delete_device-Steady device_id) λ _.
      bind-Keeps Steady _ _ (modify-Keeps Steady (kick_device device_id message) (λ s. refl)) λ _. h

pub delete_own-Steady :
    (headers : Headers) (device_id : String) → Keeps Steady (Devices.delete_own headers device_id)
unfolding Devices.delete_own find_device
delete_own-Steady headers device_id =
    bind-Keeps Steady _ _ (require_account-Steady headers) λ account.
      call-Keeps Steady (find_device device_id) _ (reads-Steady _) (elim [
        | ok (some device) ↦
            if-Keeps Steady (device.account_id == account.id) _ _
              (dropped-Steady device_id _ _ (λ s q. q)) (λ s q. q)
        | ok none ↦ λ s q. q
        | err e ↦ λ s q. q
      ])
