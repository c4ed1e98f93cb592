-- ===== src/Client/Clipboard.antt =====
-- visuara-client/src/clipboard_sync.rs: the polling thread. The clipboard of the system is a text; a
-- call of it can fail, and the thread goes on.
pub mod Echo
mod Tests
use visuara.Prelude.{ℕ, Bool, true, false, List, [], ◌∷◌, String, str_eq, if◌then◌else◌}

-- The text on the clipboard, the text that the thread saw last, and the changes reported to the peer,
-- the latest first.
pub record Sync : Type 0 where
  pub text : String
  pub last_seen : String
  pub reported : List String

-- An update from the peer, and whether `set_text` succeeds on it.
pub record Update : Type 0 where
  pub remote : String
  pub set_ok : Bool

-- `while let Ok(text) = remote_update_rx.try_recv()`
unfoldable pub drain : List Update → Sync → Sync
drain [] s = s
drain (u ∷ us) s =
    drain us (record s { text = if u.set_ok then u.remote else s.text; last_seen = u.remote })

-- `if let Ok(text) = backend.get_text()`
unfoldable pub look : Bool → Sync → Sync
look get_ok s =
    if get_ok
    then if str_eq s.text s.last_seen
      then s
      else record s { last_seen = s.text; reported = s.text ∷ s.reported }
    else s

-- What a turn of the loop finds: the updates that have arrived, and whether `get_text` succeeds.
pub record Turn : Type 0 where
  pub updates : List Update
  pub get_ok : Bool

unfoldable pub turn : Turn → Sync → Sync
turn t s = look t.get_ok (drain t.updates s)

unfoldable pub run : List Turn → Sync → Sync
run [] s = s
run (t ∷ ts) s = run ts (turn t s)
