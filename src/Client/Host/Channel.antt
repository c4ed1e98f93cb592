-- ===== src/Client/Host/Channel.antt =====
-- visuara-client/src/host.rs: the messages of the data channel, by `on_message`. What `list_monitors`
-- gives is an argument. A call that fails is printed and dropped there, so it leaves no trace here.
pub mod Dispatch
use visuara.Prelude.{ℕ, ◌≡◌, refl, List, [], ◌∷◌, ◌++◌, Option, none, some, String, append_nil}
use visuara.Control.{
  InputEvent, ClipboardMessage, text_updated, FileTransferMessage, MonitorInfo, MonitorMessage,
  list_request, switch_request, switched, ControlMessage, input, clipboard, file, monitor,
}
use visuara.Control
use visuara.Client.FileTransfer.{FileReceiver, handle, receive}

-- What is handed to the input sink, to the clipboard thread and to the capture thread, what is sent
-- back, each in its order, and the file receiver.
pub record HostSide : Type 0 where
  pub inputs : List InputEvent
  pub clipboard_updates : List String
  pub monitor_switches : List ℕ
  pub replies : List ControlMessage
  pub file_receiver : FileReceiver

listed : Option (List MonitorInfo) → HostSide → HostSide
listed none h = h
listed (some monitors) h = record h {
  replies = h.replies ++ monitor (Control.MonitorMessage.list monitors) ∷ [];
}

on_monitor : Option (List MonitorInfo) → MonitorMessage → HostSide → HostSide
on_monitor monitors list_request h = listed monitors h
on_monitor monitors (switch_request id) h = record h {
  monitor_switches = h.monitor_switches ++ id ∷ [];
  replies = h.replies ++ monitor (switched id) ∷ [];
}
on_monitor monitors _ h = h

unfoldable pub on_message : Option (List MonitorInfo) → ControlMessage → HostSide → HostSide
unfolding on_monitor listed
on_message monitors (input event) h = record h { inputs = h.inputs ++ event ∷ [] }
on_message monitors (clipboard (text_updated text)) h = record h {
  clipboard_updates = h.clipboard_updates ++ text ∷ [];
}
on_message monitors (file m) h = record h { file_receiver = (handle m h.file_receiver).1 }
on_message monitors (monitor m) h = on_monitor monitors m h

unfoldable pub on_messages : Option (List MonitorInfo) → List ControlMessage → HostSide → HostSide
on_messages monitors [] h = h
on_messages monitors (m ∷ ms) h = on_messages monitors ms (on_message monitors m h)
