-- ===== src/Client/FileTransfer/Effects.antt =====
-- What one message can do to the receiver and its disk, as a step relation (`FileReceiver::handle`).
use visuara.Prelude.{ℕ, ◌≡◌, inl, inr, refl, false, Option, none, some, List, String, is_some-none}
use visuara.State.{insert, remove}
use visuara.Control.{FileTransferMessage, offer, accept, reject, complete, cancel, chunk}
use visuara.Client.Disk.{File, set_contents, next_call, exists, create, write_all}
use visuara.Client.Disk.Calls.{new_file, with_new, without, create-cases, remove_file-cases}
use visuara.Client.FileTransfer.{
  FileReceiver, unique_destination_path, offered, chunk_for, cancel_for, on_offer, on_chunk,
  on_cancel, handle,
}

unfoldable pub transfer_of : FileTransferMessage → String
transfer_of (offer t name size) = t
transfer_of (accept t) = t
transfer_of (reject t) = t
transfer_of (complete t) = t
transfer_of (cancel t) = t
transfer_of (chunk t sequence bytes) = t

-- An offer gets a path where there is nothing, rather than a file to overwrite.
unfoldable pub FindsFree : FileTransferMessage → FileReceiver → Type 0
FindsFree (offer t name size) r =
    exists r.disk (unique_destination_path r.disk r.dest_dir name) ≡ false
FindsFree (accept t) r = Unit
FindsFree (reject t) r = Unit
FindsFree (complete t) r = Unit
FindsFree (cancel t) r = Unit
FindsFree (chunk t sequence bytes) r = Unit

-- What a message of transfer `t` makes of the receiver `r`; the calls may use up outcomes.
pub data Effect (t : String) (r : FileReceiver) : FileReceiver → Type 0 where
  ignored : Effect t r r
  not_opened : Effect t r (record r { disk = next_call r.disk })
  opened :
      (p : String)
      → r.disk.names (r.disk.resolve p) ≡ none
      → Effect t r (record r {
        in_progress = insert t (new_file p r.disk) r.in_progress;
        disk = with_new p (next_call r.disk);
      })
  wrote :
      (f : File) (position : ℕ) (bytes : List ℕ)
      → r.in_progress t ≡ some f
      → Effect t r (record r {
        in_progress = insert t (record f { position = position }) r.in_progress;
        disk = set_contents f.number bytes (next_call r.disk);
      })
  completed : Effect t r (record r { in_progress = remove t r.in_progress })
  not_deleted :
      Effect t r (record r { in_progress = remove t r.in_progress; disk = next_call r.disk })
  deleted :
      (f : File)
      → r.in_progress t ≡ some f
      → Effect t r (record r {
        in_progress = remove t r.in_progress;
        disk = without f.path (next_call r.disk);
      })

offered-Effect :
    (t p : String) (r : FileReceiver)
    → r.disk.names (r.disk.resolve p) ≡ none
    → Effect t r (offered t (create p r.disk) r).1
unfolding offered
offered-Effect t p r free = elim (create-cases p r.disk free) [
  | inl failed ↦ rw (failed, offered) not_opened
  | inr made ↦ rw (made, offered) (opened p free)
]

on_offer-Effect :
    (t name : String) (r : FileReceiver)
    → exists r.disk (unique_destination_path r.disk r.dest_dir name) ≡ false
    → Effect t r (on_offer t name r).1
unfolding on_offer exists
on_offer-Effect t name r free =
    offered-Effect t (unique_destination_path r.disk r.dest_dir name) r (is_some-none _ free)

chunk_for-Effect :
    (o : Option File) (t : String) (bytes : List ℕ) (r : FileReceiver)
    → r.in_progress t ≡ o
    → Effect t r (chunk_for o t bytes r).1
unfolding chunk_for write_all
chunk_for-Effect none t bytes r e = ignored
chunk_for-Effect (some f) t bytes r e = wrote f _ _ e

cancel_for-Effect :
    (o : Option File) (t : String) (r : FileReceiver)
    → r.in_progress t ≡ o
    → Effect t r (cancel_for o t r)
unfolding cancel_for
cancel_for-Effect none t r e = ignored
cancel_for-Effect (some f) t r e = elim (remove_file-cases f.path r.disk) [
  | inl same ↦ rw (same) not_deleted
  | inr gone ↦ rw (gone) (deleted f e)
]

pub handle-Effect :
    (m : FileTransferMessage) (r : FileReceiver)
    → FindsFree m r
    → Effect (transfer_of m) r (handle m r).1
unfolding handle on_chunk on_cancel transfer_of FindsFree
handle-Effect (offer t name size) r free = on_offer-Effect t name r free
handle-Effect (chunk t sequence bytes) r free = chunk_for-Effect (r.in_progress t) t bytes r refl
handle-Effect (complete t) r free = completed
handle-Effect (cancel t) r free = cancel_for-Effect (r.in_progress t) t r refl
handle-Effect (accept t) r free = ignored
handle-Effect (reject t) r free = ignored
