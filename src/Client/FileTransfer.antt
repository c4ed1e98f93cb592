-- ===== src/Client/FileTransfer.antt =====
-- visuara-client/src/file_transfer.rs: a file sent in chunks, and the receiver that writes incoming
-- files. A method of the receiver gives whether it succeeds and the receiver after it.
pub mod Effects
pub mod Soundness
pub mod Aside
pub mod Received
pub mod Sent
pub mod Pieces
pub mod RoundTrip
pub mod Names
mod Tests
use visuara.Prelude.{
  ℕ, zero, suc, ◌+◌, ◌%◌, ◌^◌, Bool, true, false, Option, none, some, List, [], ◌∷◌, ◌++◌, map,
  String, ◌+s◌, decimal, length, take, drop, unwrap_or, if◌then◌else◌,
}
use visuara.State.{Map, insert, remove}
use visuara.Control.{
  FileTransferMessage, offer, accept, reject, complete, cancel, chunk, ControlMessage, file,
}
use visuara.Client.Paths.{join, path_file_name, stem_and_extension}
use visuara.Client.Disk.{Disk, File, exists, create, write_all, remove_file}

abbrev pub chunk_size : ℕ
chunk_size = 16384

-- `data.chunks(n)`, on fuel that is at least the length.
chunks_from : ℕ → ℕ → List ℕ → List (List ℕ)
chunks_from zero n bytes = []
chunks_from (suc fuel) n [] = []
chunks_from (suc fuel) n (b ∷ bytes) = take n (b ∷ bytes) ∷ chunks_from fuel n (drop n (b ∷ bytes))

unfoldable pub chunks : ℕ → List ℕ → List (List ℕ)
unfolding chunks_from
chunks n bytes = chunks_from (length bytes) n bytes

-- The sequence number is cast to a u32.
unfoldable pub chunk_messages : String → ℕ → List (List ℕ) → List FileTransferMessage
chunk_messages transfer_id sequence [] = []
chunk_messages transfer_id sequence (bytes ∷ rest) =
    chunk transfer_id (sequence % 2 ^ 32) bytes ∷ chunk_messages transfer_id (sequence + 1) rest

-- The messages of one file, in their order.
unfoldable pub file_messages : String → String → List ℕ → List FileTransferMessage
file_messages transfer_id path bytes =
    offer transfer_id (unwrap_or (path_file_name path) "file") (length bytes)
      ∷ chunk_messages transfer_id 0 (chunks chunk_size bytes)
    ++ complete transfer_id ∷ []

-- One `send` after the other, to the first that fails: what has gone out, and whether all did.
unfoldable pub send_each : List Bool → List ControlMessage → List ControlMessage × Bool
send_each outcomes [] = ([], true)
send_each [] (m ∷ ms) = let (sent, whole) = send_each [] ms in (m ∷ sent, whole)
send_each (true ∷ outcomes) (m ∷ ms) =
    let (sent, whole) = send_each outcomes ms in (m ∷ sent, whole)
send_each (false ∷ outcomes) (m ∷ ms) = ([], false)

-- What reading the local file gives, the new id, and for each `send` whether it succeeds; those after
-- the list do.
unfoldable pub send_file :
    Option (List ℕ) → String → String → List Bool → List ControlMessage × Bool
send_file contents path transfer_id outcomes = elim contents [
  | none ↦ ([], false)
  | some bytes ↦ send_each outcomes (map file (file_messages transfer_id path bytes))
]

pub record FileReceiver : Type 0 where
  pub dest_dir : String
  pub in_progress : Map File
  pub disk : Disk

-- What `dirs::download_dir` gives is a parameter.
unfoldable pub default_destination : Option String → String
default_destination download_dir = unwrap_or download_dir "visuara-received"

-- The n-th name to try after the one that was asked for.
unfoldable pub numbered : String → ℕ → String
numbered file_name n =
    let stem : String = elim (path_file_name file_name) [
      | none ↦ ""
      | some name ↦ (stem_and_extension name).0
    ] in
    let ext : Option String = elim (path_file_name file_name) [
      | none ↦ none
      | some name ↦ (stem_and_extension name).1
    ] in
    elim ext [
      | some e ↦ stem +s " (" +s decimal n +s ")." +s e
      | none ↦ stem +s " (" +s decimal n +s ")"
    ]

-- `for n in 1..10_000`, with the count of rounds left.
unfoldable pub try_numbered : Disk → String → String → ℕ → ℕ → String
try_numbered disk dir file_name zero n = join dir file_name
try_numbered disk dir file_name (suc rounds) n =
    elim (exists disk (join dir (numbered file_name n))) [
      | false ↦ join dir (numbered file_name n)
      | true ↦ try_numbered disk dir file_name rounds (n + 1)
    ]

unfoldable pub unique_destination_path : Disk → String → String → String
unique_destination_path disk dir file_name = elim (exists disk (join dir file_name)) [
  | false ↦ join dir file_name
  | true ↦ try_numbered disk dir file_name 9999 1
]

offered : String → Option File × Disk → FileReceiver → Bool × FileReceiver
offered transfer_id (none, disk) r = (false, record r { disk = disk })
offered transfer_id (some f, disk) r =
    (true, record r { in_progress = insert transfer_id f r.in_progress; disk = disk })

unfoldable pub on_offer : String → String → FileReceiver → Bool × FileReceiver
unfolding offered
on_offer transfer_id file_name r =
    offered transfer_id (create (unique_destination_path r.disk r.dest_dir file_name) r.disk) r

chunk_for : Option File → String → List ℕ → FileReceiver → Bool × FileReceiver
chunk_for none transfer_id bytes r = (true, r)
chunk_for (some f) transfer_id bytes r =
    let (done, f', disk) = write_all f bytes r.disk in
    (done, record r { in_progress = insert transfer_id f' r.in_progress; disk = disk })

unfoldable pub on_chunk : String → List ℕ → FileReceiver → Bool × FileReceiver
unfolding chunk_for
on_chunk transfer_id bytes r = chunk_for (r.in_progress transfer_id) transfer_id bytes r

cancel_for : Option File → String → FileReceiver → FileReceiver
cancel_for none transfer_id r = r
cancel_for (some f) transfer_id r = record r {
  in_progress = remove transfer_id r.in_progress;
  disk = remove_file f.path r.disk;
}

unfoldable pub on_cancel : String → FileReceiver → FileReceiver
unfolding cancel_for
on_cancel transfer_id r = cancel_for (r.in_progress transfer_id) transfer_id r

unfoldable pub handle : FileTransferMessage → FileReceiver → Bool × FileReceiver
handle (offer transfer_id file_name size_bytes) r = on_offer transfer_id file_name r
handle (chunk transfer_id sequence bytes) r = on_chunk transfer_id bytes r
handle (complete transfer_id) r =
    (true, record r { in_progress = remove transfer_id r.in_progress })
handle (cancel transfer_id) r = (true, on_cancel transfer_id r)
handle (accept transfer_id) r = (true, r)
handle (reject transfer_id) r = (true, r)

-- The data channel delivers one message after the other; the host prints an error and goes on.
unfoldable pub receive : List FileTransferMessage → FileReceiver → FileReceiver
receive [] r = r
receive (m ∷ ms) r = receive ms (handle m r).1
