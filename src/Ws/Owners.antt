-- ===== src/Ws/Owners.antt =====
-- Who can set the unattended password of a device.
use visuara.Prelude.{
  ℕ, ◌≡◌, ◌⊎◌, refl, ap, ◌∙◌, inl, inr, true, none, some, String, str_eq, find?, Option-cases,
  Bool-cases, arith, ◌==◌,
}
use visuara.Protocol.{DeviceId, set_unattended_password, unattended_password_updated}
use visuara.Auth.{hash_password}
use visuara.Db.{
  Db, Device, DeviceRow, Tables, map_device_row, find_device, set_unattended_password_hash,
  set_password_rows, reads, writes, locked, ok, err, Result-cases, fails, fault, DbError,
}
use visuara.State.{ConnectionId}
use visuara.Ws.{tell_host, on_set_unattended_password, handle_message}
use visuara.Ws.Types.{
  ConnState, unauthenticated, authenticated, Local, External, Draws, ◌>>=◌, ◌>>◌, ask, on_db,
  require_auth,
}
use visuara.Ws.Lookups.{find_device-row}
use visuara.Ws.Credentials.{with_password, set_password_rows-with_password}
use visuara.Ws.Keeps
use visuara.Ws.Keeps.{Keeps, send_if_open-Keeps}

-- The tables are `t`.
abbrev Has : Tables → Local → Type 0
Has t l = l.app.db.tables ≡ t

heard : (t : Tables) → Keeps.Heard (Has t)
heard t l c tx msg is q = q

-- The password of `target` that the owner of the device has set.
pub record SetByOwner (ext : External) (draws : Draws) (target : DeviceId) (password : String)
    (before after : Local) : Type 0 where
  pub account_id : ℕ
  pub logged_in : before.task.conn_state ≡ authenticated account_id
  pub row : DeviceRow
  pub exists : find? (λ d. str_eq d.id target) before.app.db.tables.devices ≡ some row
  pub owned : row.account_id == account_id ≡ true
  pub hash : String
  pub hashes : ext.argon.hash draws.salt password ≡ some hash
  pub tables : after.app.db.tables ≡ with_password target hash before.app.db.tables

module _ (ext : External) (conn_id : ConnectionId) (draws : Draws) (target : DeviceId)
    (password : String) where
  tell_host-tables : (t : Tables) → Keeps (Has t) (tell_host ext conn_id target password)
  unfolding tell_host
  tell_host-tables t l q = elim (Option-cases (l.app.device_online target)) [
    | inl offline ↦ rw (offline, tell_host) q
    | inr (host, online) ↦
        rw (online, tell_host)
          (send_if_open-Keeps (Has t) (heard t) host (unattended_password_updated password) l q)
  ]

  hashes_argon :
      (hash : String)
      → hash_password ext.argon draws.salt password ≡ some hash
      → ext.argon.hash draws.salt password ≡ some hash
  unfolding hash_password
  hashes_argon hash e = e

  abbrev found : Local → Local
  found l = record l { app = record l.app { db = (find_device target l.app.db).1 } }

  abbrev written : String → Local → Local
  written hash l = record l {
    app = record l.app { db = (set_unattended_password_hash target hash l.app.db).1 };
  }

  set_password-owned :
      (account_id : ℕ) (device : Device) (hash : String) (l : Local)
      → l.task.conn_state ≡ authenticated account_id
      → (find_device target l.app.db).0 ≡ ok (some device)
      → device.account_id == account_id ≡ true
      → hash_password ext.argon draws.salt password ≡ some hash
      → on_set_unattended_password ext conn_id draws target password l
        ≡ (ask (set_unattended_password_hash target hash) >> tell_host ext conn_id target password)
            (found l)
  unfolding on_set_unattended_password require_auth ask on_db ◌>>=◌ ◌>>◌
  set_password-owned account_id device hash l logged_in known owned hashes = ground arith

  found-tables : (db : Db) → (find_device target db).1.tables ≡ db.tables
  unfolding find_device reads locked
  found-tables db = ground arith

  written-tables :
      (hash : String) (db : Db)
      → (((set_unattended_password_hash target hash db).0 ≡ ok tt)
          × ((set_unattended_password_hash target hash db).1.tables
              ≡ set_password_rows target hash db.tables))
        ⊎ ((e : DbError) × (((set_unattended_password_hash target hash db).0 ≡ err e)
              × ((set_unattended_password_hash target hash db).1.tables ≡ db.tables)))
  unfolding set_unattended_password_hash writes locked
  written-tables hash db = elim (Bool-cases (fails db.faults)) [
    | inl failed ↦ inr (fault, (ground arith, ground arith))
    | inr fine ↦ inl (ground arith, ground arith)
  ]

  -- The last steps, from the write on.
  write-tables :
      (hash : String) (k : Local)
      → let after =
          ((ask (set_unattended_password_hash target hash) >> tell_host ext conn_id target password)
            k).1 in
        (after.app.db.tables ≡ set_password_rows target hash k.app.db.tables)
        ⊎ (after.app.db.tables ≡ k.app.db.tables)
  unfolding ask on_db ◌>>=◌ ◌>>◌
  write-tables hash k = elim (written-tables hash k.app.db) [
    | inl (wrote, rows) ↦ inl (rw wrote (tell_host-tables _ (written hash k) rows))
    | inr (e, (failed, rows)) ↦ inr (rw failed rows)
  ]

  abbrev Outcome : Local → Local → Type 0
  Outcome l after =
      (after.app.db.tables ≡ l.app.db.tables) ⊎ SetByOwner ext draws target password l after

  owned-Outcome :
      (account_id : ℕ) (row : DeviceRow) (hash : String) (l : Local)
      → l.task.conn_state ≡ authenticated account_id
      → find? (λ d. str_eq d.id target) l.app.db.tables.devices ≡ some row
      → (find_device target l.app.db).0 ≡ ok (some (map_device_row row))
      → row.account_id == account_id ≡ true
      → hash_password ext.argon draws.salt password ≡ some hash
      → Outcome l (on_set_unattended_password ext conn_id draws target password l).1
  unfolding map_device_row
  owned-Outcome account_id row hash l logged_in exists known owned hashes =
      let same =
        set_password-owned account_id (map_device_row row) hash l logged_in known owned hashes in
      elim (write-tables hash (found l)) [
        | inr kept ↦ inl (rw same (kept ∙ found-tables l.app.db))
        | inl wrote ↦ inr (record {
          account_id = account_id;
          logged_in = logged_in;
          row = row;
          exists = exists;
          owned = owned;
          hash = hash;
          hashes = hashes_argon hash hashes;
          tables = rw same (
              wrote
              ∙ ap (λ t. set_password_rows target hash t) (found-tables l.app.db)
              ∙ set_password_rows-with_password target hash l.app.db.tables);
        })
      ]

  on_set_unattended_password-Outcome :
      (l : Local) → Outcome l (on_set_unattended_password ext conn_id draws target password l).1
  unfolding on_set_unattended_password require_auth ask on_db ◌>>=◌ ◌>>◌ map_device_row
  on_set_unattended_password-Outcome l = go l.task.conn_state refl
    where
      go :
          (c : ConnState)
          → l.task.conn_state ≡ c
          → Outcome l (on_set_unattended_password ext conn_id draws target password l).1
      go unauthenticated out = inl (ground arith)
      go (authenticated id) logged_in = elim (Result-cases (find_device target l.app.db).0) [
        | inr (e, failed) ↦ inl (ground (arith, found-tables l.app.db))
        | inl (none, missing) ↦ inl (ground (arith, found-tables l.app.db))
        | inl (some device, known) ↦
            let (row, (exists, same)) = find_device-row target device l.app.db known in
            let known' = known ∙ ap (λ d. ok (some d)) same in
            elim (Bool-cases (row.account_id == id)) [
              | inr strange ↦ inl (ground (arith, found-tables l.app.db))
              | inl owned ↦ elim (Option-cases (hash_password ext.argon draws.salt password)) [
                | inl unhashed ↦ inl (ground (arith, found-tables l.app.db))
                | inr (hash, hashes) ↦
                    owned-Outcome id row hash l logged_in exists known' owned hashes
              ]
            ]
      ]

-- A message that sets the unattended password of a device leaves the tables as they were, or gives the
-- row of that device, and no other, the hash that Argon2 makes of the new password, and changes nothing
-- else in the tables; the latter only if the sender is logged in as the account that owns the device.
pub handle_message-SetByOwner :
    (ext : External) (conn_id : ConnectionId) (draws : Draws) (target : DeviceId)
    (password : String) (l : Local)
    → let after =
        (handle_message ext conn_id draws (set_unattended_password target password) l).1 in
      (after.app.db.tables ≡ l.app.db.tables) ⊎ SetByOwner ext draws target password l after
unfolding handle_message
handle_message-SetByOwner ext conn_id draws target password l =
    on_set_unattended_password-Outcome ext conn_id draws target password l
