-- ===== src/Client/Controller/Channel.antt =====
-- visuara-client/src/controller.rs: the messages of the data channel, both ways. A message that does
-- not parse is printed and dropped; the encoding is bincode's, whose error drops the message too.
use visuara.Prelude.{ℕ, ◌≡◌, sym, ap, ◌∙◌, List, [], ◌∷◌, ◌++◌, some, String, append_nil}
use visuara.Control.{
  InputEvent, ClipboardMessage, text_updated, FileTransferMessage, MonitorInfo, MonitorMessage,
  list_request, switch_request, switched, ControlMessage, input, clipboard, file, monitor,
}
use visuara.Control
use mathlib.Core.List.{append_assoc}
use visuara.Client.Host.Channel
use visuara.Client.Host.Channel.{HostSide}

-- What the controller has handed to its clipboard thread, and the lists of monitors it has passed on.
pub record ControllerSide : Type 0 where
  pub clipboard_updates : List String
  pub monitor_updates : List (List MonitorInfo)

on_monitor : MonitorMessage → ControllerSide → ControllerSide
on_monitor (Control.MonitorMessage.list monitors) c = record c {
  monitor_updates = c.monitor_updates ++ monitors ∷ [];
}
on_monitor (switched id) c = c
on_monitor _ c = c

unfoldable pub on_message : ControlMessage → ControllerSide → ControllerSide
unfolding on_monitor
on_message (clipboard (text_updated text)) c = record c {
  clipboard_updates = c.clipboard_updates ++ text ∷ [];
}
on_message (monitor m) c = on_monitor m c
on_message _ c = c

unfoldable pub on_messages : List ControlMessage → ControllerSide → ControllerSide
on_messages [] c = c
on_messages (m ∷ ms) c = on_messages ms (on_message m c)

-- The messages that `send_input`, `request_monitor_list` and `switch_monitor` encode and send.
unfoldable pub send_input : InputEvent → ControlMessage
send_input event = input event

unfoldable pub request_monitor_list : ControlMessage
request_monitor_list = monitor list_request

unfoldable pub switch_monitor : ℕ → ControlMessage
switch_monitor monitor_id = monitor (switch_request monitor_id)

-- The lists of monitors that are due for a traffic: one for each request.
abbrev pub lists_due : List MonitorInfo → List ControlMessage → List (List MonitorInfo)
lists_due monitors [] = []
lists_due monitors (monitor list_request ∷ ms) = monitors ∷ lists_due monitors ms
lists_due monitors (_ ∷ ms) = lists_due monitors ms

-- What the host sends back for a traffic when it can list its monitors.
answers_of : List MonitorInfo → List ControlMessage → List ControlMessage
answers_of monitors [] = []
answers_of monitors (monitor list_request ∷ ms) =
    monitor (Control.MonitorMessage.list monitors) ∷ answers_of monitors ms
answers_of monitors (monitor (switch_request id) ∷ ms) =
    monitor (switched id) ∷ answers_of monitors ms
answers_of monitors (_ ∷ ms) = answers_of monitors ms

replies-answers_of :
    (monitors : List MonitorInfo) (ms : List ControlMessage) (h : HostSide)
    → (Channel.on_messages (some monitors) ms h).replies ≡ h.replies ++ answers_of monitors ms
unfolding Channel.on_messages Channel.on_message answers_of
replies-answers_of monitors [] h = sym (append_nil _)
replies-answers_of monitors (input e ∷ ms) h =
    replies-answers_of monitors ms (Channel.on_message (some monitors) (input e) h)
replies-answers_of monitors (clipboard (text_updated t) ∷ ms) h =
    replies-answers_of monitors ms
      (Channel.on_message (some monitors) (clipboard (text_updated t)) h)
replies-answers_of monitors (file f ∷ ms) h =
    replies-answers_of monitors ms (Channel.on_message (some monitors) (file f) h)
replies-answers_of monitors (monitor list_request ∷ ms) h =
    replies-answers_of monitors ms (Channel.on_message (some monitors) (monitor list_request) h)
    ∙ append_assoc h.replies (monitor (Control.MonitorMessage.list monitors) ∷ [])
        (answers_of monitors ms)
replies-answers_of monitors (monitor (switch_request id) ∷ ms) h =
    replies-answers_of monitors ms
      (Channel.on_message (some monitors) (monitor (switch_request id)) h)
    ∙ append_assoc h.replies (monitor (switched id) ∷ []) (answers_of monitors ms)
replies-answers_of monitors (monitor (switched id) ∷ ms) h =
    replies-answers_of monitors ms (Channel.on_message (some monitors) (monitor (switched id)) h)
replies-answers_of monitors (monitor (Control.MonitorMessage.list l) ∷ ms) h =
    replies-answers_of monitors ms
      (Channel.on_message (some monitors) (monitor (Control.MonitorMessage.list l)) h)

abbrev pub with_lists : List (List MonitorInfo) → ControllerSide → ControllerSide
with_lists lists c = record c { monitor_updates = c.monitor_updates ++ lists }

answers_of-lists_due :
    (monitors : List MonitorInfo) (ms : List ControlMessage) (c : ControllerSide)
    → on_messages (answers_of monitors ms) c ≡ with_lists (lists_due monitors ms) c
unfolding on_messages on_message on_monitor answers_of
answers_of-lists_due monitors [] c = ap (λ l. record c { monitor_updates = l }) (sym (append_nil _))
answers_of-lists_due monitors (input e ∷ ms) c = answers_of-lists_due monitors ms c
answers_of-lists_due monitors (clipboard t ∷ ms) c = answers_of-lists_due monitors ms c
answers_of-lists_due monitors (file f ∷ ms) c = answers_of-lists_due monitors ms c
answers_of-lists_due monitors (monitor list_request ∷ ms) c =
    answers_of-lists_due monitors ms (with_lists (monitors ∷ []) c)
    ∙ ap (λ l. record c { monitor_updates = l })
        (append_assoc c.monitor_updates (monitors ∷ []) (lists_due monitors ms))
answers_of-lists_due monitors (monitor (switch_request id) ∷ ms) c =
    answers_of-lists_due monitors ms c
answers_of-lists_due monitors (monitor (switched id) ∷ ms) c = answers_of-lists_due monitors ms c
answers_of-lists_due monitors (monitor (Control.MonitorMessage.list l) ∷ ms) c =
    answers_of-lists_due monitors ms c

-- Whatever the controller sends over the data channel, what the host sends back gives the controller's
-- window the list of the host's monitors once for each request for it, and nothing else, if the host
-- can list them: its clipboard is not touched.
on_messages-lists_due :
    (monitors : List MonitorInfo) (ms : List ControlMessage) (h : HostSide) (c : ControllerSide)
    → h.replies ≡ []
    → on_messages (Channel.on_messages (some monitors) ms h).replies c
      ≡ record c { monitor_updates = c.monitor_updates ++ lists_due monitors ms }
on_messages-lists_due monitors ms h c new =
    ap (λ l. on_messages l c)
      (replies-answers_of monitors ms h ∙ ap (λ l. l ++ answers_of monitors ms) new)
    ∙ answers_of-lists_due monitors ms c
