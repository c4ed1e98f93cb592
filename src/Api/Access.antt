-- ===== src/Api/Access.antt =====
-- The routes under /admin do nothing for a caller who is not an administrator.
use visuara.Prelude.{
  ◌≡◌, ◌≢◌, ◌⊎◌, refl, inl, inr, ap, false, some, String, Option-cases, Bool-cases, arith,
}
use visuara.Auth.{Argon}
use visuara.Db.{
  AccountRole, user, admin, Account, Tables, Db, reads, locked, fails, find_session,
  session_account,
}
use visuara.Session.{
  Headers, AuthedAccount, Status, unauthorized, forbidden, cookie_value, session_cookie,
  current_account, require_account, require_admin, is_admin,
}
use visuara.State.{AppState}
use visuara.Api.Types.{Response, H, ◌>>=◌, on_db, require, bare}
use visuara.Api.Admin
use visuara.Api.Router
use visuara.Api.Router.{
  AdminRequest, get_settings, put_settings, get_accounts, post_account, get_account, delete_account,
  put_role, delete_device, get_registration, put_registration, handler, admin_handler, serve,
}

-- The request's cookie names no session of an administrator.
abbrev pub NoAdmin : Headers → Tables → Type 0
NoAdmin headers t =
    (token : String) (account : Account)
    → cookie_value headers session_cookie ≡ some token
    → session_account token t ≡ some account
    → account.role ≢ admin

-- Refused, with nothing changed but the schedule of faults.
abbrev Refused : Db → Db → Status ⊎ AuthedAccount → Type 0
Refused db db' who =
    ((who ≡ inl unauthorized) ⊎ (who ≡ inl forbidden)) × (db' ≡ record db { faults = db'.faults })

not_admin : (r : AccountRole) → r ≢ admin → is_admin r ≡ false
not_admin user h = refl
not_admin admin h = absurd (h refl)

require_admin_refuses :
    (headers : Headers) (db : Db)
    → NoAdmin headers db.tables
    → Refused db (require_admin headers db).1 (require_admin headers db).0
unfolding require_admin require_account current_account find_session reads locked
require_admin_refuses headers db h = elim (Option-cases (cookie_value headers session_cookie)) [
  | inl missing ↦ (inl ground arith, ground arith)
  | inr (token, found) ↦ elim (Bool-cases (fails db.faults)) [
    | inl failed ↦ (inl ground arith, ground arith)
    | inr fine ↦ elim (Option-cases (session_account token db.tables)) [
      | inl unknown ↦ (inl ground arith, ground arith)
      | inr (account, known) ↦
          let plain : is_admin account.role ≡ false =
            not_admin account.role (h token account found known) in
          (inr ground arith, ground arith)
    ]
  ]
]

-- A check that refuses ends the handler.
require_refuses :
    {A : Type 0} (check : Db → (Status ⊎ AuthedAccount) × Db) (rest : AuthedAccount → H A)
    (status : Status) (s : AppState)
    → (check s.db).0 ≡ inl status
    → (require check >>= rest) s ≡ (inl (bare status), record s { db = (check s.db).1 })
unfolding require ◌>>=◌ on_db
require_refuses check rest status s e = rw (e, require)

admin_handler_refuses :
    (argon : Argon) (headers : Headers) (r : AdminRequest) (status : Status) (s : AppState)
    → (require_admin headers s.db).0 ≡ inl status
    → admin_handler argon headers r s
      ≡ (inl (bare status), record s { db = (require_admin headers s.db).1 })
unfolding admin_handler Admin.get_settings Admin.save_settings Admin.list_accounts
    Admin.create_account Admin.get_account_detail Admin.delete_account Admin.set_account_role
    Admin.delete_device_of Admin.get_registration Admin.set_registration
admin_handler_refuses argon headers get_settings status s e =
    require_refuses (require_admin headers) _ status s e
admin_handler_refuses argon headers (put_settings url name) status s e =
    require_refuses (require_admin headers) _ status s e
admin_handler_refuses argon headers get_accounts status s e =
    require_refuses (require_admin headers) _ status s e
admin_handler_refuses argon headers (post_account salt email password role) status s e =
    require_refuses (require_admin headers) _ status s e
admin_handler_refuses argon headers (get_account id) status s e =
    require_refuses (require_admin headers) _ status s e
admin_handler_refuses argon headers (delete_account id) status s e =
    require_refuses (require_admin headers) _ status s e
admin_handler_refuses argon headers (put_role id role) status s e =
    require_refuses (require_admin headers) _ status s e
admin_handler_refuses argon headers (delete_device id device_id) status s e =
    require_refuses (require_admin headers) _ status s e
admin_handler_refuses argon headers get_registration status s e =
    require_refuses (require_admin headers) _ status s e
admin_handler_refuses argon headers (put_registration b) status s e =
    require_refuses (require_admin headers) _ status s e

serve_refuses :
    (argon : Argon) (headers : Headers) (r : AdminRequest) (status : Status) (s : AppState)
    → (require_admin headers s.db).0 ≡ inl status
    → serve argon headers (Router.admin r) s
      ≡ (bare status, record s { db = (require_admin headers s.db).1 })
unfolding serve handler
serve_refuses argon headers r status s e =
    ap
      (λ p. elim p.0 as (λ _. Response × AppState) [
        | inl response ↦ (response, p.1)
        | inr response ↦ (response, p.1)
      ])
      (admin_handler_refuses argon headers r status s e)

-- No route under /admin, those of the client builds left aside, does anything for a caller without the
-- session of an administrator: the response is a bare 401 or 403, and the whole state is as it was,
-- apart from the schedule of faults, which a failed lookup of the session has moved on.
pub serve-NoAdmin :
    (argon : Argon) (headers : Headers) (r : AdminRequest) (s : AppState)
    → NoAdmin headers s.db.tables
    → let (response, s') = serve argon headers (Router.admin r) s in
      ((response ≡ bare unauthorized) ⊎ (response ≡ bare forbidden))
      × (s' ≡ record s { db = record s.db { faults = s'.db.faults } })
serve-NoAdmin argon headers r s h =
    let (why, kept) = require_admin_refuses headers s.db h in
    elim why [
      | inl e ↦
          rw (serve_refuses argon headers r unauthorized s e)
            (inl refl, ap (λ d. record s { db = d }) kept)
      | inr e ↦
          rw (serve_refuses argon headers r forbidden s e)
            (inr refl, ap (λ d. record s { db = d }) kept)
    ]
