-- ===== src/Api/Steady.antt =====
-- The database as the API finds and leaves it while no call fails for an outside reason.
use visuara.Prelude.{◌≡◌, ◌⊎◌, inl, inr, refl, [], arith, sym, subst}
use visuara.Db.{Tables, Db, Result, ok, reads, writes, locked}
use visuara.Db.Keys.{IsKeyed}
use visuara.Db.Admins.{HasAdmin}
use visuara.Db.{find_session, session_account}
use visuara.Session.{Headers, require_admin, require_account}
use visuara.State.{AppState}
use visuara.Api.Types.{Response, H, and_then, ◌>>=◌, ◌>>◌, require}
use visuara.Api.Keeps.{Keeps, Kept, require_admin-Keeps, require_account-Keeps}

-- No call to come fails for an outside reason, keys are distinct, and an administrator is left.
pub record Steady (db : Db) : Type 0 where
  pub no_faults : db.faults ≡ []
  pub keyed : IsKeyed db.tables
  pub has_admin : HasAdmin db.tables

-- A call that finds no fault leaves the tables that its statements make.
pub locked_fine :
    {A : Type 0} (run : Db → Result A × Tables) (db : Db)
    → db.faults ≡ []
    → locked run db ≡ ((run db).0, record db { tables = (run db).1; faults = [] })
unfolding locked
locked_fine run db e = ground arith

pub locked-Steady :
    {A : Type 0} (run : Db → Result A × Tables) (db : Db)
    → Steady db
    → IsKeyed (run db).1
    → HasAdmin (run db).1
    → Steady (locked run db).1
locked-Steady run db q keyed has =
    rw (locked_fine run db q.no_faults)
      (record { no_faults = refl; keyed = keyed; has_admin = has })

pub reads-Steady : {A : Type 0} (f : Tables → A) → Kept Steady (reads f)
unfolding reads
reads-Steady f db q = locked-Steady (λ d. (ok (f d.tables), d.tables)) db q q.keyed q.has_admin

pub writes-Steady :
    (f : Tables → Tables) (db : Db)
    → Steady db
    → IsKeyed (f db.tables)
    → HasAdmin (f db.tables)
    → Steady (writes f db).1
unfolding writes
writes-Steady f db q keyed has = locked-Steady (λ d. (ok tt, f d.tables)) db q keyed has

-- The tables are `t`, and no call fails.
pub record Still (t : Tables) (db : Db) : Type 0 where
  pub no_faults : db.faults ≡ []
  pub tables : db.tables ≡ t

pub reads-Still : {A : Type 0} (t : Tables) (f : Tables → A) → Kept (Still t) (reads f)
unfolding reads
reads-Still t f db q =
    rw (locked_fine (λ d. (ok (f d.tables), d.tables)) db q.no_faults)
      (record { no_faults = refl; tables = q.tables })

pub require_admin-Steady : (headers : Headers) → Keeps Steady (require (require_admin headers))
unfolding find_session
require_admin-Steady = require_admin-Keeps Steady (λ token. reads-Steady (session_account token))

pub require_account-Steady : (headers : Headers) → Keeps Steady (require (require_account headers))
unfolding find_session
require_account-Steady =
    require_account-Keeps Steady (λ token. reads-Steady (session_account token))

-- A step that leaves the tables alone, and what it has made sure of when it lets its caller go on.
pub pass-Keeps :
    {A B : Type 0} (P : Tables → Type 0) (m : H A) (rest : A → H B)
    → ((t : Tables) → Keeps (Still t) m)
    → ((s : AppState) (a : A) → s.db.faults ≡ [] → (m s).0 ≡ inr a → P s.db.tables)
    → ((a : A) (s : AppState) → P s.db.tables → Steady s.db → Steady (rest a s).1.db)
    → Keeps Steady (m >>= rest)
unfolding ◌>>=◌
pass-Keeps {A} P m rest still pass k s q = go (m s).0 refl
  where
    after : Still s.db.tables (m s).1.db
    after = still s.db.tables s (record { no_faults = q.no_faults; tables = refl })

    moved : Steady (m s).1.db
    moved = record {
      no_faults = after.no_faults;
      keyed = subst IsKeyed (sym after.tables) q.keyed;
      has_admin = subst HasAdmin (sym after.tables) q.has_admin;
    }

    go : (r : Response ⊎ A) → (m s).0 ≡ r → Steady (and_then rest r (m s).1).1.db
    go (inl response) e = moved
    go (inr a) e = k a (m s).1 (subst P (sym after.tables) (pass s a q.no_faults e)) moved

pub gate-Keeps :
    {B : Type 0} (P : Tables → Type 0) (m : H (Unit {0})) (rest : H B)
    → ((t : Tables) → Keeps (Still t) m)
    → ((s : AppState) → s.db.faults ≡ [] → (m s).0 ≡ inr tt → P s.db.tables)
    → ((s : AppState) → P s.db.tables → Steady s.db → Steady (rest s).1.db)
    → Keeps Steady (m >> rest)
unfolding ◌>>◌
gate-Keeps P m rest still pass k = pass-Keeps P m (λ _. rest) still (λ s a. pass s) (λ _. k)
