-- ===== src/Api/Devices.antt =====
-- visuara-signaling/src/api/devices.rs: a user's own devices, and how a removed device is cut off.
use visuara.Prelude.{List, [], ◌∷◌, map, none, some, String, if◌then◌else◌, ◌==◌, is_some}
use visuara.Protocol.{DeviceSummary, error}
use visuara.Db.{Device, Result, ok, err, list_devices_for_account, find_device, delete_device}
use visuara.Session.{
  Headers, success, no_content, forbidden, not_found, internal_server_error, require_account,
}
use visuara.State.{AppState, Map, Channel, insert, remove}
use visuara.Api.Types.{
  Response, H, ◌>>=◌, ◌>>◌, reply, give, on_db, modify, require, bare, with_body, error_response,
  text, caused, device_list,
}

-- `.unwrap_or_default()`
abbrev pub or_empty {ℓ} : {A : Type ℓ} → Result (List A) → List A
or_empty (ok xs) = xs
or_empty (err e) = []

unfoldable pub summary : Map String → Device → DeviceSummary
summary device_online d = record {
  device_id = d.id;
  name = d.name;
  online = is_some (device_online d.id);
  unattended_access_enabled = is_some d.unattended_password_hash;
}

unfoldable pub list : Headers → H Response
list headers = do
  account ← require (require_account headers)
  devices ← on_db (list_devices_for_account account.id)
  λ s. give (with_body success (device_list (map (summary s.device_online) (or_empty devices)))) s

-- A message on a connection, if it is open; the result of the send is dropped.
unfoldable pub notify : String → String → Map Channel → Map Channel
notify conn_id message connections = elim (connections conn_id) [
  | none ↦ connections
  | some tx ↦
      if tx.receiving
      then insert conn_id (record tx { sent = error message ∷ tx.sent }) connections
      else connections
]

unfoldable pub kick_device : String → String → AppState → AppState
kick_device device_id message s = record s {
  device_online = remove device_id s.device_online;
  otp = remove device_id s.otp;
  connections = elim (s.device_online device_id) [
    | none ↦ s.connections
    | some conn_id ↦ notify conn_id message s.connections
  ];
}

unfoldable pub delete_own : Headers → String → H Response
delete_own headers device_id = do
  account ← require (require_account headers)
  found ← on_db (find_device device_id)
  elim found [
    | ok (some device) ↦
        if device.account_id == account.id
        then (do
          dropped ← on_db (delete_device device_id)
          modify (kick_device device_id "This device was removed.")
          give (bare no_content))
        else reply (error_response forbidden (text "not your device"))
    | ok none ↦ reply (error_response not_found (text "device not found"))
    | err e ↦ reply (error_response internal_server_error (caused "" e))
  ]
