-- ===== src/Api/Remembered.antt =====
-- A log in, and the requests that follow it with its cookie (api/auth.rs, session.rs).
use visuara.Prelude.{
  ◌≡◌, refl, sym, ap, subst, ◌∙◌, ◌==◌, ℕ, true, [], Option, none, some, String, find?, inl, inr,
  ◌⊎◌, arith, eq_refl, is_whitespace,
}
use visuara.Db.{
  AccountRole, AccountRow, Result, ok, err, Db, create_session, find_session, session_account,
  map_account_row,
}
use visuara.Db.Listing.{reads_fine}
use visuara.Db.Sessions.{session_account-create_session}
use visuara.State.{AppState}
use visuara.Session.{
  Headers, session_cookie, set_session_cookie, cookie_value, current_account, authed, success,
  internal_server_error,
}
use visuara.Session.Cookies.{clear, is_semicolon, after_cookie, cookie_value-set_session_cookie}
use visuara.Api.Types.{Response, H, error_response, caused, account_view, give, reply, ◌>>=◌, on_db}
use visuara.Api.Auth.{start_session}

known_token :
    (headers : Headers) (token : String) (db : Db) (row : AccountRow)
    → cookie_value headers session_cookie ≡ some token
    → db.faults ≡ []
    → session_account token db.tables ≡ some (map_account_row row)
    → (current_account headers db).0 ≡ some (authed (map_account_row row))
unfolding current_account find_session
known_token headers token db row sent fine known =
    rw (current_account, sent, find_session, reads_fine (session_account token) db fine, known)

-- A browser that logged in is logged in: after a log in that succeeds, the response sets a cookie, and a
-- request that sends it back comes from the account, with the role that it has. No later call of the
-- database fails, and the token has no semicolon and no white space.
pub start_session-current_account :
    (token email : String) (role : AccountRole) (k : ℕ) (row : AccountRow) (agent : Option String)
    (s : AppState) (response : Response)
    → clear is_semicolon token ≡ true
    → clear is_whitespace token ≡ true
    → find? (λ r. r.id == k) s.db.tables.accounts ≡ some row
    → (start_session token k email role s).0 ≡ inr response
    → let after = (start_session token k email role s).1 in
      after.db.faults ≡ []
      → (cookie : String) × (response.set_cookie ≡ some cookie)
        × ((current_account (after_cookie cookie agent) after.db).0
            ≡ some (authed (map_account_row row)))
unfolding start_session ◌>>=◌ on_db
start_session-current_account token email role k row agent s response plain solid found granted
      fine =
    let made = create_session token k s.db in
    let s' : AppState = record s { db = made.1 } in
    let (done, cookie) = decide made.0 s' granted in
    let same = unchanged made.0 s' in
    (
      set_session_cookie token,
      cookie,
      subst
          (λ a.
            (current_account (after_cookie (set_session_cookie token) agent) a.db).0
            ≡ some (authed (map_account_row row)))
          (sym same)
          (known_token (after_cookie (set_session_cookie token) agent) token made.1 row
            (cookie_value-set_session_cookie token agent plain solid)
            (ap (λ a. a.db.faults) (sym same) ∙ fine)
            (session_account-create_session token token k s.db done ∙ rw (eq_refl token, found))),
    )
  where
    replied : Result (Unit {0}) → H Response
    replied (ok done) = give (record {
      status = success;
      set_cookie = some (set_session_cookie token);
      body = account_view (record { id = k; email = email; role = role });
    })
    replied (err e) =
        reply (error_response internal_server_error (caused "failed to create session: " e))

    cookie_of : Response ⊎ Response → Option String
    cookie_of (inl r) = none
    cookie_of (inr r) = r.set_cookie

    decide :
        (r : Result (Unit {0})) (a : AppState)
        → (replied r a).0 ≡ inr response
        → (r ≡ ok tt) × (response.set_cookie ≡ some (set_session_cookie token))
    decide (ok done) a e = (refl, ap cookie_of (sym e))
    decide (err why) a e = absurd (ground arith)

    unchanged : (r : Result (Unit {0})) (a : AppState) → (replied r a).1 ≡ a
    unchanged (ok done) a = refl
    unchanged (err why) a = refl
