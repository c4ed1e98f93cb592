-- ===== src/Ws/Steps.antt =====
-- Each thing that happens to the server leaves the presence tables in order.
use visuara.Prelude.{
  ◌≡◌, sym, subst, ap, ◌∙◌, inl, inr, Option, none, some, String, is_some, str_eq, eq_iff,
  Option-cases, Bool-cases, arith, ◌∷◌,
}
use visuara.Protocol.{DeviceId, ClientMessage, error}
use visuara.State.{AppState, ConnectionId, Map, Channel, insert, remove}
use visuara.Api.Devices.{kick_device, notify}
use visuara.Ws.{handle_message}
use visuara.Ws.Types.{Task, Local, External, Draws}
use visuara.Ws.Keeps.{send-Keeps}
use visuara.Ws.Presence.{Present, Running, Running-Heard, device_of, insert-keys}
use visuara.Ws.Running.{handle_message-Running}
use visuara.Ws.Hub.{
  World, Event, opened, arrived, arrived_malformed, writer_stopped, ended, kicked, stored, Fresh,
  open_socket, error_text, try_send_error, after_message, local, deliver, deliver_malformed,
  stop_writer, leave, end_socket, step,
}

try_send_error-Running :
    (conn_id : ConnectionId) (tasks : Map Task) (message : String) (l : Local)
    → Running conn_id tasks l
    → Running conn_id tasks (try_send_error conn_id message l)
unfolding try_send_error
try_send_error-Running conn_id tasks message l q =
    send-Keeps (Running conn_id tasks) (Running-Heard conn_id tasks) conn_id (error message) l q

after_message-Running :
    (ext : External) (conn_id : ConnectionId) (draws : Draws) (msg : ClientMessage)
    (tasks : Map Task) (l : Local)
    → Running conn_id tasks l
    → Running conn_id tasks (after_message ext conn_id draws msg l)
unfolding after_message
after_message-Running ext conn_id draws msg tasks l q =
    elim (handle_message ext conn_id draws msg l).0
      as (λ r. Running conn_id tasks (elim r as (λ _. Local) [
        | inl e ↦
            try_send_error conn_id (error_text ext e) (handle_message ext conn_id draws msg l).1
        | inr done ↦ (handle_message ext conn_id draws msg l).1
      ])) [
        | inl e ↦
            try_send_error-Running conn_id tasks _ _
              (handle_message-Running conn_id tasks ext draws msg l q)
        | inr done ↦ handle_message-Running conn_id tasks ext draws msg l q
      ]

-- A task that runs finds the tables in order.
resume :
    (conn_id : ConnectionId) (w : World) (task : Task)
    → w.tasks conn_id ≡ some task
    → Present w.app w.tasks
    → Running conn_id w.tasks (local w task)
resume conn_id w task known q = record {
  channels = λ c. q.channels c ∙ sym (insert-keys conn_id task task w.tasks known c);
  passwords = q.passwords;
  owner = λ d c online. elim (Bool-cases (str_eq conn_id c)) [
    | inl same ↦
        let here : conn_id ≡ c = ground (arith, eq_iff conn_id c) in
        let known' : w.tasks c ≡ some task = subst (λ j. w.tasks j ≡ some task) here known in
        rw same (sym (ap device_of known') ∙ q.owner d c online)
    | inr apart ↦ rw apart (q.owner d c online)
  ];
}

-- A connection leaves with its device.
leave-Present :
    (conn_id : ConnectionId) (mine : Option DeviceId) (s : AppState) (tasks : Map Task)
    → device_of (tasks conn_id) ≡ mine
    → Present s tasks
    → Present (leave conn_id mine s) (remove conn_id tasks)
unfolding leave
leave-Present conn_id none s tasks e q = record {
  channels = λ c. elim (Bool-cases (str_eq conn_id c)) [
    | inl same ↦ rw same
    | inr apart ↦ rw apart (q.channels c)
  ];
  passwords = q.passwords;
  owner = λ d c online. elim (Bool-cases (str_eq conn_id c)) [
    | inl same ↦
        let here : c ≡ conn_id = ground (arith, eq_iff conn_id c) in
        absurd (ground (arith, ap (λ j. device_of (tasks j)) here, q.owner d c online))
    | inr apart ↦ rw apart (q.owner d c online)
  ];
}
leave-Present conn_id (some id) s tasks e q = record {
  channels = λ c. elim (Bool-cases (str_eq conn_id c)) [
    | inl same ↦ rw same
    | inr apart ↦ rw apart (q.channels c)
  ];
  passwords = λ d. elim (Bool-cases (str_eq id d)) [
    | inl same ↦ rw same
    | inr apart ↦ rw apart (q.passwords d)
  ];
  owner = λ d c online. elim (Bool-cases (str_eq id d)) [
    | inl same ↦ absurd (ground arith)
    | inr apart ↦
        let before : s.device_online d ≡ some c = ground arith in
        elim (Bool-cases (str_eq conn_id c)) [
          | inl same ↦
              let here : c ≡ conn_id = ground (arith, eq_iff conn_id c) in
              absurd (
                ground (arith, ap (λ j. device_of (tasks j)) here, q.owner d c before, eq_iff id d))
          | inr other ↦ rw other (q.owner d c before)
        ]
  ];
}

pub end_socket-Present :
    (conn_id : ConnectionId) (w : World)
    → Present w.app w.tasks
    → Present (end_socket conn_id w).app (end_socket conn_id w).tasks
unfolding end_socket
end_socket-Present conn_id w q = elim (Option-cases (w.tasks conn_id)) [
  | inl gone ↦ rw (gone, end_socket) q
  | inr (task, known) ↦
      rw (known, end_socket)
        (leave-Present conn_id task.my_device_id w.app w.tasks (ap device_of known) q)
]

notify-keys :
    (conn_id message : String) (m : Map Channel) (c : ConnectionId)
    → is_some (notify conn_id message m c) ≡ is_some (m c)
unfolding notify
notify-keys conn_id message m c = elim (Option-cases (m conn_id)) [
  | inl gone ↦ rw (gone, notify)
  | inr (tx, is) ↦ elim (Bool-cases tx.receiving) [
    | inl alive ↦
        let same : notify conn_id message m
            ≡ insert conn_id (record tx { sent = error message ∷ tx.sent }) m =
          ground arith in
        rw same (insert-keys conn_id tx _ m is c)
    | inr dead ↦ rw (is, dead, notify)
  ]
]

kick-Present :
    (device_id : DeviceId) (message : String) (s : AppState) (tasks : Map Task)
    → Present s tasks
    → Present (kick_device device_id message s) tasks
unfolding kick_device
kick-Present device_id message s tasks q = record {
  channels = λ c. elim (Option-cases (s.device_online device_id)) [
    | inl offline ↦ rw (offline, kick_device) (q.channels c)
    | inr (conn_id, online) ↦
        rw (online, kick_device) (notify-keys conn_id message s.connections c ∙ q.channels c)
  ];
  passwords = λ d. elim (Bool-cases (str_eq device_id d)) [
    | inl same ↦ rw same
    | inr apart ↦ rw apart (q.passwords d)
  ];
  owner = λ d c online. elim (Bool-cases (str_eq device_id d)) [
    | inl same ↦ absurd (ground arith)
    | inr apart ↦ q.owner d c (ground arith)
  ];
}

open_socket-Present :
    (conn_id : ConnectionId) (w : World)
    → w.tasks conn_id ≡ none
    → Present w.app w.tasks
    → Present (open_socket conn_id w).app (open_socket conn_id w).tasks
unfolding open_socket
open_socket-Present conn_id w fresh q = record {
  channels = λ c. elim (Bool-cases (str_eq conn_id c)) [
    | inl same ↦ rw same
    | inr apart ↦ rw apart (q.channels c)
  ];
  passwords = q.passwords;
  owner = λ d c online. elim (Bool-cases (str_eq conn_id c)) [
    | inl same ↦
        let here : c ≡ conn_id = ground (arith, eq_iff conn_id c) in
        absurd (
          ground
            (arith, ap (λ j. device_of (w.tasks j)) here, ap device_of fresh, q.owner d c online))
    | inr apart ↦ rw apart (q.owner d c online)
  ];
}

stop_writer-Present :
    (conn_id : ConnectionId) (w : World)
    → Present w.app w.tasks
    → Present (stop_writer conn_id w).app (stop_writer conn_id w).tasks
unfolding stop_writer
stop_writer-Present conn_id w q = elim (Option-cases (w.app.connections conn_id)) [
  | inl gone ↦ rw (gone, stop_writer) q
  | inr (tx, is) ↦
      rw (is, stop_writer)
        (record {
          channels = λ c. insert-keys conn_id tx _ w.app.connections is c ∙ q.channels c;
          passwords = q.passwords;
          owner = q.owner;
        })
]

pub step-Present :
    (ext : External) (e : Event) (w : World)
    → Fresh e w
    → Present w.app w.tasks
    → Present (step ext e w).app (step ext e w).tasks
unfolding step deliver deliver_malformed
step-Present ext (opened conn_id) w fresh q = open_socket-Present conn_id w fresh q
step-Present ext (arrived conn_id draws msg) w fresh q = elim (Option-cases (w.tasks conn_id)) [
  | inl gone ↦ rw (gone, step, deliver) q
  | inr (task, known) ↦
      rw (known, step, deliver)
        (after_message-Running ext conn_id draws msg w.tasks (local w task)
          (resume conn_id w task known q))
]
step-Present ext (arrived_malformed conn_id text) w fresh q =
    elim (Option-cases (w.tasks conn_id)) [
      | inl gone ↦ rw (gone, step, deliver_malformed) q
      | inr (task, known) ↦
          rw (known, step, deliver_malformed)
            (try_send_error-Running conn_id w.tasks _ (local w task)
              (resume conn_id w task known q))
    ]
step-Present ext (writer_stopped conn_id) w fresh q = stop_writer-Present conn_id w q
step-Present ext (ended conn_id) w fresh q = end_socket-Present conn_id w q
step-Present ext (kicked device_id message) w fresh q =
    kick-Present device_id message w.app w.tasks q
step-Present ext (stored db) w fresh q = record {
  channels = q.channels;
  passwords = q.passwords;
  owner = q.owner;
}
