-- ===== src/Ws/Lookups.antt =====
-- What a lookup of a device that succeeds says of the table.
use visuara.Prelude.{◌≡◌, inl, inr, some, str_eq, find?, Option-cases, arith}
use visuara.Protocol.{DeviceId}
use visuara.Db.{Db, Device, DeviceRow, map_device_row, find_device, reads, locked, ok}

pub find_device-row :
    (target : DeviceId) (device : Device) (db : Db)
    → (find_device target db).0 ≡ ok (some device)
    → (row : DeviceRow) × ((find? (λ d. str_eq d.id target) db.tables.devices ≡ some row)
        × (device ≡ map_device_row row))
unfolding find_device reads locked
find_device-row target device db found =
    elim (Option-cases (find? (λ d. str_eq d.id target) db.tables.devices)) [
      | inl missing ↦ absurd (ground arith)
      | inr (row, there) ↦ (row, (there, ground arith))
    ]
