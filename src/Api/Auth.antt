-- ===== src/Api/Auth.antt =====
-- visuara-signaling/src/api/auth.rs: registration, log in, log out.
use visuara.Prelude.{ℕ, Bool, true, false, ◌||◌, none, some, String, if◌then◌else◌, trim, is_empty}
use visuara.Auth.{Argon, hash_password, verify_password}
use visuara.Db.{
  DbError, unique_violation, AccountRole, Result, ok, err, registration_enabled,
  find_account_by_email, create_session, delete_session,
}
use visuara.Session.{
  Headers, success, no_content, bad_request, unauthorized, forbidden, conflict,
  internal_server_error, cookie_value, session_cookie, set_session_cookie, clear_session_cookie,
  current_account, create_account_and_maybe_bootstrap_admin,
}
use visuara.Api.Types.{
  Response, H, ◌>>=◌, ◌>>◌, reply, give, on_db, bare, with_body, error_response, text, caused,
  account_view, registration_status, empty,
}

-- `e.to_string().contains("UNIQUE")`: SQLite names the kind of constraint that failed.
abbrev pub mentions_unique : DbError → Bool
mentions_unique unique_violation = true
mentions_unique _ = false

unfoldable pub start_session : String → ℕ → String → AccountRole → H Response
start_session token account_id email role = do
  r ← on_db (create_session token account_id)
  elim r [
    | err e ↦ reply (error_response internal_server_error (caused "failed to create session: " e))
    | ok done ↦ give (record {
      status = success;
      set_cookie = some (set_session_cookie token);
      body = account_view (record { id = account_id; email = email; role = role });
    })
  ]

module _ (argon : Argon) where
  unfoldable pub register : String → String → String → String → H Response
  register salt token raw_email password = do
    let email = trim raw_email
    (if is_empty email || is_empty password
        then reply (error_response bad_request (text "email and password are required"))
        else give tt)
    enabled ← on_db registration_enabled
    elim enabled [
      | ok true ↦ give tt
      | ok false ↦ reply (error_response forbidden (text "registration is currently disabled"))
      | err e ↦ reply (error_response internal_server_error (caused "" e))
    ]
    hash ← elim (hash_password argon salt password) [
      | some h ↦ give h
      | none ↦ reply (error_response internal_server_error (text "failed to hash password"))
    ]
    made ← on_db (create_account_and_maybe_bootstrap_admin email hash)
    elim made [
      | ok (account_id, role) ↦ start_session token account_id email role
      | err e ↦ reply (
          error_response conflict (
            if mentions_unique e
            then text "That email is already registered — try logging in instead."
            else caused "registration failed: " e))
    ]

  unfoldable pub login : String → String → String → H Response
  login token raw_email password = do
    found ← on_db (find_account_by_email (trim raw_email))
    elim found [
      | ok (some account) ↦
          if verify_password argon password account.password_hash
          then start_session token account.id account.email account.role
          else reply (error_response unauthorized (text "incorrect email or password"))
      | ok none ↦ reply (error_response unauthorized (text "incorrect email or password"))
      | err e ↦ reply (error_response internal_server_error (caused "" e))
    ]

unfoldable pub logout : Headers → H Response
logout headers = do
  elim (cookie_value headers session_cookie) [
    | none ↦ give tt
    | some token ↦ (on_db (delete_session token) >>= λ dropped. give tt)
  ]
  give (record { status = no_content; set_cookie = some clear_session_cookie; body = empty })

unfoldable pub me : Headers → H Response
me headers = do
  who ← on_db (current_account headers)
  elim who [
    | some account ↦ give (with_body success (account_view account))
    | none ↦ give (bare unauthorized)
  ]

-- `.unwrap_or(true)`
abbrev pub enabled_or_true : Result Bool → Bool
enabled_or_true (ok b) = b
enabled_or_true (err e) = true

unfoldable pub get_registration_status : H Response
get_registration_status = do
  enabled ← on_db registration_enabled
  give (with_body success (registration_status (enabled_or_true enabled)))
