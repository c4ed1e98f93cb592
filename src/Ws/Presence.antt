-- ===== src/Ws/Presence.antt =====
-- Who is online: the presence and password tables against the tasks of the connections.
use visuara.Prelude.{
  ◌≡◌, ◌∙◌, subst, inl, inr, Option, none, some, String, is_some, str_eq, eq_iff, eq_refl,
  Bool-cases, arith,
}
use visuara.Protocol.{DeviceId}
use visuara.State.{AppState, ConnectionId, Map, insert}
use visuara.Ws.Types.{Task, Local}
use visuara.Ws.Keeps.{Free, Heard}

-- The device that a task, if there is one, has registered.
abbrev pub device_of : Option Task → Option DeviceId
device_of none = none
device_of (some task) = task.my_device_id

-- A connection has a channel while it has a task; a device has a one-time password while it is online;
-- and it is online on the connection that registered it.
pub record Present (app : AppState) (tasks : Map Task) : Type 0 where
  pub channels : (c : ConnectionId) → is_some (app.connections c) ≡ is_some (tasks c)
  pub passwords : (d : DeviceId) → is_some (app.otp d) ≡ is_some (app.device_online d)
  pub owner :
      (d : DeviceId) (c : ConnectionId)
      → app.device_online d ≡ some c
      → device_of (tasks c) ≡ some d

-- The same while the connection's task runs.
abbrev pub Running : ConnectionId → Map Task → Local → Type 0
Running conn_id tasks l = Present l.app (insert conn_id l.task tasks)

pub insert-same : {V : Type 0} (k : String) (v : V) (m : Map V) → insert k v m k ≡ some v
insert-same k v m = rw (eq_refl k)

pub Running-Free : (conn_id : ConnectionId) (tasks : Map Task) → Free (Running conn_id tasks)
Running-Free conn_id tasks l db q = record {
  channels = q.channels;
  passwords = q.passwords;
  owner = q.owner;
}

-- Where a key has a value, another value leaves the same keys.
pub insert-keys :
    {V : Type 0} (k : String) (v w : V) (m : Map V)
    → m k ≡ some v
    → (j : String) → is_some (insert k w m j) ≡ is_some (m j)
insert-keys k v w m is j = elim (Bool-cases (str_eq k j)) [
  | inl same ↦
      let here : m j ≡ some v = subst (λ i. m i ≡ some v) (ground (arith, eq_iff k j)) is in
      rw (same, here)
  | inr other ↦ rw other
]

pub Running-Heard : (conn_id : ConnectionId) (tasks : Map Task) → Heard (Running conn_id tasks)
Running-Heard conn_id tasks l c tx msg is q = record {
  channels = λ j. insert-keys c tx _ l.app.connections is j ∙ q.channels j;
  passwords = q.passwords;
  owner = q.owner;
}
