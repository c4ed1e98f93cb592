-- ===== src/Client/Host/Channel/Dispatch.antt =====
-- Each part of the host gets its messages, all of them, in their order (`on_message`).
use mathlib.Core.List.{append_assoc}
use visuara.Prelude.{
  ◌≡◌, refl, sym, ap, ◌∙◌, List, [], ◌∷◌, ◌++◌, Option, none, some, String, append_nil,
}
use visuara.Control.{
  InputEvent, text_updated, FileTransferMessage, MonitorInfo, MonitorMessage, list_request,
  switch_request, ControlMessage, input, clipboard, file, monitor,
}
use visuara.Client.FileTransfer.{receive}
use visuara.Client.Host.Channel.{HostSide, on_monitor, listed, on_message, on_messages}

abbrev pub inputs_of : List ControlMessage → List InputEvent
inputs_of [] = []
inputs_of (input e ∷ ms) = e ∷ inputs_of ms
inputs_of (clipboard c ∷ ms) = inputs_of ms
inputs_of (file f ∷ ms) = inputs_of ms
inputs_of (monitor m ∷ ms) = inputs_of ms

abbrev pub texts_of : List ControlMessage → List String
texts_of [] = []
texts_of (input e ∷ ms) = texts_of ms
texts_of (clipboard (text_updated text) ∷ ms) = text ∷ texts_of ms
texts_of (file f ∷ ms) = texts_of ms
texts_of (monitor m ∷ ms) = texts_of ms

abbrev pub files_of : List ControlMessage → List FileTransferMessage
files_of [] = []
files_of (input e ∷ ms) = files_of ms
files_of (clipboard c ∷ ms) = files_of ms
files_of (file f ∷ ms) = f ∷ files_of ms
files_of (monitor m ∷ ms) = files_of ms

-- What a run has handed to the parts of the host.
abbrev Handed : List ControlMessage → HostSide → HostSide → Type 0
Handed ms h h' =
    (h'.inputs ≡ h.inputs ++ inputs_of ms)
    × (h'.clipboard_updates ≡ h.clipboard_updates ++ texts_of ms)
    × (h'.file_receiver ≡ receive (files_of ms) h.file_receiver)

on_monitor-keeps :
    (monitors : Option (List MonitorInfo)) (m : MonitorMessage) (h : HostSide)
    → ((on_monitor monitors m h).inputs ≡ h.inputs)
      × ((on_monitor monitors m h).clipboard_updates ≡ h.clipboard_updates)
      × ((on_monitor monitors m h).file_receiver ≡ h.file_receiver)
unfolding on_monitor listed
on_monitor-keeps none list_request h = (refl, refl, refl)
on_monitor-keeps (some monitors) list_request h = (refl, refl, refl)
on_monitor-keeps monitors (switch_request id) h = (refl, refl, refl)
on_monitor-keeps monitors _ h = (refl, refl, refl)

-- Whatever the controller sends over the data channel, the input sink gets exactly its input events
-- and the clipboard thread its texts, in their order, and the files are received as the file messages
-- among them alone would be.
pub on_messages-dispatched :
    (monitors : Option (List MonitorInfo)) (ms : List ControlMessage) (h : HostSide)
    → ((on_messages monitors ms h).inputs ≡ h.inputs ++ inputs_of ms)
      × ((on_messages monitors ms h).clipboard_updates ≡ h.clipboard_updates ++ texts_of ms)
      × ((on_messages monitors ms h).file_receiver ≡ receive (files_of ms) h.file_receiver)
unfolding on_messages on_message receive
on_messages-dispatched monitors [] h = (sym (append_nil _), sym (append_nil _), refl)
on_messages-dispatched monitors (input e ∷ ms) h =
    let (a, b, c) = on_messages-dispatched monitors ms (on_message monitors (input e) h) in
    (a ∙ append_assoc h.inputs (e ∷ []) (inputs_of ms), b, c)
on_messages-dispatched monitors (clipboard (text_updated text) ∷ ms) h =
    let (a, b, c) =
      on_messages-dispatched monitors ms (on_message monitors (clipboard (text_updated text)) h) in
    (a, b ∙ append_assoc h.clipboard_updates (text ∷ []) (texts_of ms), c)
on_messages-dispatched monitors (file f ∷ ms) h =
    on_messages-dispatched monitors ms (on_message monitors (file f) h)
on_messages-dispatched monitors (monitor m ∷ ms) h =
    let (a, b, c) = on_messages-dispatched monitors ms (on_message monitors (monitor m) h) in
    let (a', b', c') = on_monitor-keeps monitors m h in
    (
      a ∙ ap (λ x. x ++ inputs_of ms) a',
      b ∙ ap (λ x. x ++ texts_of ms) b',
      c ∙ ap (receive (files_of ms)) c',
    )
