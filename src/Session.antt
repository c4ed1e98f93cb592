-- ===== src/Session.antt =====
-- visuara-signaling/src/session.rs: the session cookie, who a request comes from, and the rule for
-- the first account. A request's headers are the texts of its Cookie and User-Agent headers, where
-- they stand and are ASCII.
pub mod Bootstrap
pub mod Cookies
mod Tests
use mathlib.Core.Option
use visuara.Prelude.{
  ℕ, Bool, true, false, List, [], ◌∷◌, Option, none, some, String, str_eq, if◌then◌else◌, ◌==◌,
  trim, split, split_once, ◌⊎◌, inl, inr, ◌+s◌,
}
use visuara.Db.{
  AccountRole, user, admin, Account, Db, M, ok, err, ◌>>=◌, ◌>>◌, pure, find_session,
  count_accounts, create_account, set_registration_enabled,
}
use visuara.State.{AppState}

pub record Headers : Type 0 where
  pub cookie : Option String
  pub user_agent : Option String

abbrev pub session_cookie : String
session_cookie = "visuara_session"

pub record AuthedAccount : Type 0 where
  pub id : ℕ
  pub email : String
  pub role : AccountRole

-- The first of the parts that holds a value for the name.
unfoldable pub find_cookie : List String → String → Option String
find_cookie [] name = none
find_cookie (part ∷ parts) name = elim (split_once b'=' (trim part)) [
  | none ↦ find_cookie parts name
  | some (k, v) ↦ if str_eq k name then some v else find_cookie parts name
]

unfoldable pub cookie_value : Headers → String → Option String
unfolding find_cookie
cookie_value headers name = elim headers.cookie [
  | none ↦ none
  | some text ↦ find_cookie (split b';' text) name
]

-- The text of the Set-Cookie header.
unfoldable pub set_session_cookie : String → String
set_session_cookie token =
    session_cookie +s ("=" +s (token +s "; Path=/; HttpOnly; SameSite=Strict"))

unfoldable pub clear_session_cookie : String
clear_session_cookie = session_cookie +s "=; Path=/; Max-Age=0"

pub data Status : Type 0 where
  success created no_content bad_request unauthorized forbidden not_found conflict : Status
  internal_server_error bad_gateway : Status

abbrev pub authed : Account → AuthedAccount
authed account = record { id = account.id; email = account.email; role = account.role }

-- `find_session(token).await.ok()??`
unfoldable pub current_account : Headers → Db → Option AuthedAccount × Db
current_account headers db = elim (cookie_value headers session_cookie) [
  | none ↦ (none, db)
  | some token ↦
      let (r, db') = find_session token db in
      elim r [ ok o ↦ (Option.map authed o, db') | err e ↦ (none, db') ]
]

unfoldable pub require_account : Headers → Db → (Status ⊎ AuthedAccount) × Db
require_account headers db =
    let (who, db') = current_account headers db in
    elim who [ none ↦ (inl unauthorized, db') | some account ↦ (inr account, db') ]

abbrev pub is_admin : AccountRole → Bool
is_admin user = false
is_admin admin = true

unfoldable pub require_admin : Headers → Db → (Status ⊎ AuthedAccount) × Db
require_admin headers db =
    let (who, db') = require_account headers db in
    elim who [
      | inl status ↦ (inl status, db')
      | inr account ↦ if is_admin account.role then (inr account, db') else (inl forbidden, db')
    ]

-- The first account becomes an administrator, and closes registration.
unfoldable pub create_account_and_maybe_bootstrap_admin : String → String → M (ℕ × AccountRole)
create_account_and_maybe_bootstrap_admin email password_hash = do
  count ← count_accounts
  let is_first = count == 0
  let role = if is_first then admin else user
  account_id ← create_account email password_hash role
  (if is_first then set_registration_enabled false else pure tt)
  pure (account_id, role)
