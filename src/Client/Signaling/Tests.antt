-- ===== src/Client/Signaling/Tests.antt =====
-- Logging in to a server that has one account.
use visuara.Prelude.{◌≡◌, refl, true, none, some, [], ◌∷◌, str_eq, find?, if◌then◌else◌}
use visuara.Auth.{hash_password, verify_password}
use visuara.Db.{Db, AccountRow}
use visuara.Ws.Types.{Local, unauthenticated, authenticated}
use visuara.Fixtures.{plain, idle, ext, draws, new_db, no_tables}
use visuara.Client.Signaling.{authenticate}
use visuara.Client.Signaling.Talk.{talk}
use visuara.Client.Signaling.Login.{talk-authenticate}

abbrev ada : AccountRow
ada = record { id = 7; email = "ada@x"; password_hash = "pw"; created_at = 0; role = "admin" }

abbrev one_account : Db
one_account = record new_db { tables = record no_tables { accounts = ada ∷ []; last_id = 7 } }

abbrev new_client : Local
new_client = record {
  app = record idle {
    db = one_account;
    connections = λ c. if str_eq "c" c then some (record { receiving = true; sent = [] }) else none;
  };
  task = record { conn_state = unauthenticated; my_device_id = none };
}

found : find? (λ r. str_eq r.email "ada@x") one_account.tables.accounts ≡ some ada
unfolding find?
found = refl

right : verify_password plain "pw" "pw" ≡ true
unfolding verify_password
right = refl

hashes : hash_password plain "salt" "pw" ≡ some "pw"
unfolding hash_password
hashes = refl

talk-authenticate_example :
    ((talk ext "c" (draws ∷ draws ∷ []) (authenticate "ada@x" "pw") 0 new_client).0 ≡ some tt)
    × ((talk ext "c"
          (draws ∷ draws ∷ [])
          (authenticate "ada@x" "pw")
          0
          new_client).1.task.conn_state
        ≡ authenticated 7)
talk-authenticate_example =
    talk-authenticate ext "c" draws draws "ada@x" "pw" "pw" ada new_client refl found right hashes
      refl
