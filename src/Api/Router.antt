-- ===== src/Api/Router.antt =====
-- visuara-signaling/src/api/mod.rs: the routes of the API, those for downloads and client builds left
-- aside, as requests, and the handler of each.
-- What a handler draws at random comes with the request: a salt, a session token. `/download` is
-- in Downloads, and the routes of the client builds are in Downloads/Listing and Release.
use visuara.Prelude.{ℕ, Bool, Option, String, inl, inr}
use visuara.Auth.{Argon}
use visuara.Db.{AccountRole}
use visuara.Session.{Headers}
use visuara.State.{AppState}
use visuara.Api.Types.{Response, H}
use visuara.Api.Auth
use visuara.Api.Devices
use visuara.Api.Admin

-- The routes under `/admin`.
pub data AdminRequest : Type 0 where
  get_settings : AdminRequest
  put_settings : String → String → AdminRequest
  get_accounts : AdminRequest
  post_account : String → String → String → Option AccountRole → AdminRequest
  get_account delete_account : ℕ → AdminRequest
  put_role : ℕ → AccountRole → AdminRequest
  delete_device : ℕ → String → AdminRequest
  get_registration : AdminRequest
  put_registration : Bool → AdminRequest

pub data Request : Type 0 where
  register : String → String → String → String → Request
  login : String → String → String → Request
  logout me registration_status devices : Request
  delete_own_device : String → Request
  admin : AdminRequest → Request

unfoldable pub admin_handler : Argon → Headers → AdminRequest → H Response
admin_handler argon headers get_settings = Admin.get_settings headers
admin_handler argon headers (put_settings url name) = Admin.save_settings headers url name
admin_handler argon headers get_accounts = Admin.list_accounts headers
admin_handler argon headers (post_account salt email password role) =
    Admin.create_account argon headers salt email password role
admin_handler argon headers (get_account id) = Admin.get_account_detail headers id
admin_handler argon headers (delete_account id) = Admin.delete_account headers id
admin_handler argon headers (put_role id role) = Admin.set_account_role headers id role
admin_handler argon headers (delete_device id device_id) =
    Admin.delete_device_of headers id device_id
admin_handler argon headers get_registration = Admin.get_registration headers
admin_handler argon headers (put_registration enabled) = Admin.set_registration headers enabled

unfoldable pub handler : Argon → Headers → Request → H Response
handler argon headers (register salt token email password) =
    Auth.register argon salt token email password
handler argon headers (login token email password) = Auth.login argon token email password
handler argon headers logout = Auth.logout headers
handler argon headers me = Auth.me headers
handler argon headers registration_status = Auth.get_registration_status
handler argon headers devices = Devices.list headers
handler argon headers (delete_own_device device_id) = Devices.delete_own headers device_id
handler argon headers (admin r) = admin_handler argon headers r

-- The response that a handler ends with, early or not.
unfoldable pub serve : Argon → Headers → Request → AppState → Response × AppState
serve argon headers request s =
    let (r, s') = handler argon headers request s in
    elim r [ inl response ↦ (response, s') | inr response ↦ (response, s') ]
