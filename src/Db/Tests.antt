-- ===== src/Db/Tests.antt =====
-- A session opened on a new database.
use visuara.Prelude.{refl}
use visuara.Db.Calls.{login, perform}
use visuara.Db.References.{HasOwners, perform-HasOwners}
use visuara.Fixtures.{new_db}

perform-HasOwners_example : HasOwners (perform (login "token" 1) new_db).1.tables
perform-HasOwners_example =
    perform-HasOwners (login "token" 1) new_db refl (record { sessions = tt; devices = tt })
