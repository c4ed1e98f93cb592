-- ===== src/Control.antt =====
-- visuara-common/src/control.rs: the messages between two peers of a session. An i32 is a number with
-- a sign, a u32 or u64 a number, a byte a number below 256; bincode is not modelled.
use visuara.Prelude.{ℕ, Bool, List, String}

-- A number with a sign: `negsuc n` is - (n + 1).
pub data ℤ : Type 0 where
  pos negsuc : ℕ → ℤ

pub data KeyCode : Type 0 where
  backspace enter tab escape space delete arrow_up arrow_down arrow_left arrow_right : KeyCode
  shift control alt meta : KeyCode

pub data MouseButton : Type 0 where
  left right middle : MouseButton

pub data InputEvent : Type 0 where
  mouse_move mouse_scroll : ℤ → ℤ → InputEvent
  mouse_button : MouseButton → Bool → InputEvent
  key_event : KeyCode → Bool → InputEvent
  type_text : String → InputEvent

pub data ClipboardMessage : Type 0 where
  text_updated : String → ClipboardMessage

pub data FileTransferMessage : Type 0 where
  offer : String → String → ℕ → FileTransferMessage
  accept reject complete cancel : String → FileTransferMessage
  chunk : String → ℕ → List ℕ → FileTransferMessage

pub record MonitorInfo : Type 0 where
  pub id : ℕ
  pub name : String
  pub width : ℕ
  pub height : ℕ
  pub is_primary : Bool

pub data MonitorMessage : Type 0 where
  list_request : MonitorMessage
  list : List MonitorInfo → MonitorMessage
  switch_request switched : ℕ → MonitorMessage

pub data ControlMessage : Type 0 where
  input : InputEvent → ControlMessage
  clipboard : ClipboardMessage → ControlMessage
  file : FileTransferMessage → ControlMessage
  monitor : MonitorMessage → ControlMessage
