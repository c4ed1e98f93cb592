-- ===== src/Ws/Reach.antt =====
-- The presence tables are in order in every state that the server comes to.
use visuara.Prelude.{
  ◌≡◌, refl, sym, ap, ◌∙◌, inl, inr, none, some, Option-cases, arith, ◌≢◌, eq_refl,
}
use visuara.Protocol.{DeviceId}
use visuara.State.{ConnectionId}
use visuara.Ws.Types.{External}
use visuara.Ws.Presence.{Present, device_of}
use visuara.Ws.Hub.{World, leave, end_socket, Reachable, start, next}
use visuara.Ws.Steps.{end_socket-Present, step-Present}

-- In every state that the server comes to, whatever connections open and end, whatever arrives on them
-- and whichever sends fail: a connection has a channel exactly while its task runs, a device has a
-- one-time password exactly while it is online, and a device is online only on a connection whose task
-- runs and has registered it.
pub Reachable-Present : (ext : External) (w : World) → Reachable ext w → Present w.app w.tasks
Reachable-Present ext w (start s none_open none_online none_set) = record {
  channels = λ c. rw (none_open c);
  passwords = λ d. rw (none_online d, none_set d);
  owner = λ d c online. absurd (ground (arith, none_online d));
}
Reachable-Present ext w (next e before r fresh) =
    step-Present ext e before fresh (Reachable-Present ext before r)

end_socket-gone : (conn_id : ConnectionId) (w : World) → (end_socket conn_id w).tasks conn_id ≡ none
unfolding end_socket
end_socket-gone conn_id w = elim (Option-cases (w.tasks conn_id)) [
  | inl gone ↦ rw (gone, end_socket) gone
  | inr (task, known) ↦ rw (known, end_socket, eq_refl conn_id)
]

end_socket-own :
    (conn_id : ConnectionId) (w : World) (d : DeviceId)
    → device_of (w.tasks conn_id) ≡ some d
    → ((end_socket conn_id w).app.device_online d ≡ none)
      × ((end_socket conn_id w).app.otp d ≡ none)
unfolding end_socket leave
end_socket-own conn_id w d mine = elim (Option-cases (w.tasks conn_id)) [
  | inl gone ↦ absurd (ground (arith, ap device_of gone))
  | inr (task, known) ↦
      let here : task.my_device_id ≡ some d = sym (ap device_of known) ∙ mine in
      rw (known, here, end_socket, leave, eq_refl d) (refl, refl)
]

-- Once a connection has ended, no device is online on it, and its own device is offline and has no
-- password: nobody is connected to it any more. In a state that the server comes to.
pub end_socket-offline :
    (ext : External) (conn_id : ConnectionId) (w : World)
    → Reachable ext w
    → ((d : DeviceId) → (end_socket conn_id w).app.device_online d ≢ some conn_id)
      × ((d : DeviceId)
          → device_of (w.tasks conn_id) ≡ some d
          → ((end_socket conn_id w).app.device_online d ≡ none)
            × ((end_socket conn_id w).app.otp d ≡ none))
end_socket-offline ext conn_id w r = (
  λ d online. absurd (
      ground (
        arith,
        end_socket-gone conn_id w,
        ap device_of (end_socket-gone conn_id w),
        (end_socket-Present conn_id w (Reachable-Present ext w r)).owner d conn_id online,
      )),
  λ d mine. end_socket-own conn_id w d mine,
)
