-- ===== src/Api/Tests.antt =====
-- Requests to a new server.
use visuara.Prelude.{◌≡◌, ◌⊎◌, refl, inl, none, some, find?, ◌==◌}
use visuara.Db.{session_account}
use visuara.Session.{Headers, unauthorized, forbidden}
use visuara.Api.Types.{bare}
use visuara.Api.Auth.{start_session}
use visuara.Api.Remembered.{start_session-current_account}
use visuara.Session.{current_account, authed, success, set_session_cookie}
use visuara.Session.Cookies.{after_cookie}
use visuara.State.{AppState}
use visuara.Api.Types.{Response, account_view, ◌>>=◌, on_db}
use visuara.Db.{AccountRow, map_account_row, create_session, locked, insert_session}
use visuara.Db
use visuara.Prelude.{String, inr, [], ◌∷◌, any}
use visuara.Api.Router.{delete_account, admin, serve}
use visuara.Api.Router
use visuara.Api.Steady.{Steady}
use visuara.Api.Serve.{serve-Steady}
use visuara.Api.Access.{NoAdmin, serve-NoAdmin}
use visuara.Fixtures.{plain, new_db, no_tables, no_tables-IsKeyed, idle}

abbrev no_cookie : Headers
no_cookie = record { cookie = none; user_agent = none }

abbrev unknown_cookie : Headers
unknown_cookie = record { cookie = some "visuara_session=t"; user_agent = none }

new_db-Steady : Steady new_db
new_db-Steady = record { no_faults = refl; keyed = no_tables-IsKeyed; has_admin = inl refl }

unknown_cookie-NoAdmin : NoAdmin unknown_cookie no_tables
unfolding session_account find?
unknown_cookie-NoAdmin token account named known = absurd (cc known)

serve-Steady_example :
    Steady (serve plain no_cookie (Router.register "salt" "token" "ann@example.org" "pw") idle).1.db
serve-Steady_example =
    serve-Steady plain no_cookie (Router.register "salt" "token" "ann@example.org" "pw") idle
      new_db-Steady

serve-NoAdmin_example :
    let (response, s') = serve plain unknown_cookie (admin (delete_account 1)) idle in
    ((response ≡ bare unauthorized) ⊎ (response ≡ bare forbidden))
    × (s' ≡ record idle { db = record new_db { faults = s'.db.faults } })
serve-NoAdmin_example =
    serve-NoAdmin plain unknown_cookie (delete_account 1) idle unknown_cookie-NoAdmin

abbrev ada : AccountRow
ada = record { id = 7; email = "ada@x"; password_hash = "pw"; created_at = 0; role = "user" }

abbrev one_account : AppState
one_account = record idle {
  db = record new_db { tables = record no_tables { accounts = ada ∷ []; last_id = 7 } };
}

abbrev logged_in : Response
logged_in = record {
  status = success;
  set_cookie = some (set_session_cookie "t0ken");
  body = account_view (record { id = 7; email = "ada@x"; role = Db.user });
}

found : find? (λ r. r.id == 7) one_account.db.tables.accounts ≡ some ada
unfolding find?
found = refl

granted : (start_session "t0ken" 7 "ada@x" Db.user one_account).0 ≡ inr logged_in
unfolding start_session ◌>>=◌ on_db create_session locked insert_session any
granted = refl

still_fine : (start_session "t0ken" 7 "ada@x" Db.user one_account).1.db.faults ≡ []
unfolding start_session ◌>>=◌ on_db create_session locked insert_session any
still_fine = refl

start_session-current_account_example :
    (cookie : String) × (logged_in.set_cookie ≡ some cookie)
    × ((current_account
          (after_cookie cookie none)
          (start_session "t0ken" 7 "ada@x" Db.user one_account).1.db).0
        ≡ some (authed (map_account_row ada)))
start_session-current_account_example =
    start_session-current_account "t0ken" "ada@x" Db.user 7 ada none one_account logged_in refl refl
      found granted still_fine
