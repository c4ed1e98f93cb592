-- ===== src/Session/Tests.antt =====
-- The first registration on a new server.
use visuara.Prelude.{◌≡◌, refl, suc, if◌then◌else◌, any, str_eq}
use visuara.Db.{ok, err, unique_violation}
use visuara.Session.{create_account_and_maybe_bootstrap_admin}
use visuara.Session.Bootstrap.{next_role, registered, closed_after_first, bootstrap_lem}
use visuara.Fixtures.{new_db, no_tables}

bootstrap_lem_example : create_account_and_maybe_bootstrap_admin "ann@example.org" "hash" new_db ≡ (
    if any (λ r. str_eq r.email "ann@example.org") no_tables.accounts
    then (err unique_violation, new_db)
    else (
      ok (suc 0, next_role no_tables),
      record new_db {
        tables = closed_after_first no_tables (registered new_db "ann@example.org" "hash");
      },
    ))
bootstrap_lem_example = bootstrap_lem "ann@example.org" "hash" new_db refl
