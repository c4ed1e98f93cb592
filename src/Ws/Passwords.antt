-- ===== src/Ws/Passwords.antt =====
-- The one-time password of a registered device.
use visuara.Prelude.{◌≡◌, ◌↔◌, sym, ap, subst, ◌∙◌, inr, true, none, some, String, eq_iff, eq_refl}
use visuara.Protocol.{DeviceId, ServerMessage, one_time_password}
use visuara.Protocol
use visuara.Auth.{Argon, generate_one_time_password}
use visuara.Db.{Device}
use visuara.State.{ConnectionId, Map, insert}
use visuara.Ws.{modify, credential_ok, own_device, on_register_device}
use visuara.Ws.Types.{Local, External, Draws, ◌>>=◌, ◌>>◌, send, require_auth}
use visuara.Ws.Keeps
use visuara.Ws.Keeps.{Keeps, send-Keeps, bind_inv}
use visuara.Ws.Running.{own_device-mine}

-- The device of the connection is online on it, with the password.
abbrev Online : ConnectionId → DeviceId → String → Local → Type 0
Online conn_id id otp l =
    (l.task.my_device_id ≡ some id)
    × ((l.app.device_online id ≡ some conn_id) × (l.app.otp id ≡ some otp))

heard :
    (conn_id : ConnectionId) (id : DeviceId) (otp : String) → Keeps.Heard (Online conn_id id otp)
heard conn_id id otp l c tx msg is q = q

announced :
    (conn_id : ConnectionId) (id : DeviceId) (otp : String) (k : Local)
    → k.task.my_device_id ≡ some id
    → Online conn_id id otp
        ((modify (λ s. record s {
          device_online = insert id conn_id s.device_online;
          otp = insert id otp s.otp;
        })
            >> send conn_id (Protocol.device_registered id otp))
          k).1
unfolding modify ◌>>◌ ◌>>=◌
announced conn_id id otp k mine =
    send-Keeps (Online conn_id id otp) (heard conn_id id otp) conn_id _ _
      (mine, (rw (eq_refl id), rw (eq_refl id)))

registered-Online :
    (ext : External) (conn_id : ConnectionId) (draws : Draws) (name : String) (l : Local)
    → (on_register_device ext conn_id draws name l).0 ≡ inr tt
    → (id : DeviceId) × Online conn_id id
        (generate_one_time_password draws.otp_1 draws.otp_2)
        (on_register_device ext conn_id draws name l).1
unfolding on_register_device
registered-Online ext conn_id draws name l done =
    let (account_id, (auth, first)) = bind_inv require_auth _ l tt done in
    let k = (require_auth l).1 in
    let (id, (made, second)) =
      bind_inv (own_device ext conn_id draws account_id name) _ k tt
        (sym (ap (λ r. r.0) first) ∙ done) in
    (
      id,
      subst (λ r. Online conn_id id (generate_one_time_password draws.otp_1 draws.otp_2) r.1)
          (sym (first ∙ second))
          (announced conn_id id _ (own_device ext conn_id draws account_id name k).1
            (own_device-mine conn_id (λ c. none) ext draws account_id name id k made)),
    )

opens_iff :
    (argon : Argon) (otp : Map String) (id : DeviceId) (device : Device) (given pw : String)
    → otp id ≡ some pw
    → (credential_ok argon otp id device (one_time_password given) ≡ true) ↔ (given ≡ pw)
unfolding credential_ok
opens_iff argon otp id device given pw is =
    rw (is, credential_ok) (λ h. sym ((eq_iff pw given).0 h), λ e. (eq_iff pw given).1 (sym e))

-- Once a device is registered, it is online on the connection that registered it, which keeps its id,
-- and the one-time password that opens it is the one just drawn, and no other.
pub on_register_device-credential_ok :
    (ext : External) (conn_id : ConnectionId) (draws : Draws) (name : String) (l : Local)
    → (on_register_device ext conn_id draws name l).0 ≡ inr tt
    → let after = (on_register_device ext conn_id draws name l).1 in
      (id : DeviceId) × ((after.task.my_device_id ≡ some id)
        × ((after.app.device_online id ≡ some conn_id)
            × ((device : Device) (given : String)
                → (credential_ok ext.argon after.app.otp id device (one_time_password given) ≡ true)
                  ↔ (given ≡ generate_one_time_password draws.otp_1 draws.otp_2))))
on_register_device-credential_ok ext conn_id draws name l done =
    let (id, (mine, (online, password))) = registered-Online ext conn_id draws name l done in
    (id, (mine, (online, λ device given. opens_iff ext.argon _ id device given _ password)))
