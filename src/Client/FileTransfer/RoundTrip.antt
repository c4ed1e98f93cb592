-- ===== src/Client/FileTransfer/RoundTrip.antt =====
-- A file that the controller sends is the file that the host has in the end (file_transfer.rs).
use visuara.Prelude.{
  ℕ, ◌≡◌, ◌≢◌, ◌<◌, refl, sym, ◌∙◌, ap, arith, Bool, true, Option, none, some, List, [], ◌∷◌, map,
  String, eq_iff, eq_refl, ==_iff, filter, is_some-none,
}
use visuara.Control.{FileTransferMessage, offer, file}
use visuara.Client.Disk.{Node, next_call, exists, read, create}
use visuara.Client.Disk.Calls.{read_at, next_call_steady, create_steady}
use visuara.Client.FileTransfer.{
  FileReceiver, handle, receive, chunks, chunk_size, file_messages, send_file, on_offer, offered,
  unique_destination_path,
}
use visuara.Client.FileTransfer.Effects.{FindsFree, transfer_of}
use visuara.Client.FileTransfer.Soundness.{IsSound, AllFree}
use visuara.Client.FileTransfer.Aside.{receive-resolve}
use visuara.Client.FileTransfer.Received.{
  IsWriting, of_transfer, remaining, receive_rest, taken, tail_eq,
}
use visuara.Client.FileTransfer.Sent.{chunks-concat, send_file-whole}

-- An offer opens a new file.
offer-IsWriting :
    (t p : String) (r : FileReceiver)
    → IsSound r
    → r.disk.failures ≡ []
    → r.disk.names (r.disk.resolve p) ≡ none
    → IsWriting t p (r.disk.resolve p) r.disk.next [] (offered t (create p r.disk) r).1
unfolding offered next_call
offer-IsWriting t p r h steady free =
    rw (create_steady p r.disk steady free, offered)
      (record {
        steady = next_call_steady r.disk steady;
        current = ground (arith, eq_refl t);
        resolves = refl;
        aside = record {
          named = ground (arith, eq_refl (r.disk.resolve p));
          holds = ground (arith, ==_iff r.disk.next r.disk.next);
          known = omega arith;
          others = λ u f differ found.
              let old : r.in_progress u ≡ some f = ground (arith, eq_iff t u) in
              let place = h.held u f old in
              let number : f.number < r.disk.next =
                h.below (r.disk.resolve f.path) f.number place in
              (
                λ same. omega arith,
                λ same. absurd (apart (sym (ap r.disk.names same) ∙ place) free),
              );
        };
      })
  where
    apart : {o : Option Node} {a : Node} → o ≡ some a → o ≢ none
    apart e e' = ground arith

-- A file that was sent, with no `send` failing, is received whole: after the offer and whatever messages
-- follow it, in which those of the transfer are the ones that were sent in their order and those of
-- other transfers may come between and after, the path that was chosen for it reads as the bytes of the
-- file. The receiver is sound at the offer, each offer gets a path where there is nothing, and no call
-- of the disk fails.
pub receive-send_file :
    (bytes : List ℕ) (path t : String) (outcomes : List Bool) (sent : List FileTransferMessage)
    (name : String) (size : ℕ) (ms : List FileTransferMessage) (r : FileReceiver)
    → send_file (some bytes) path t outcomes ≡ (map file sent, true)
    → filter (of_transfer t) (offer t name size ∷ ms) ≡ sent
    → IsSound r
    → r.disk.failures ≡ []
    → AllFree (offer t name size ∷ ms) r
    → read
        (receive (offer t name size ∷ ms) r).disk
        (unique_destination_path r.disk r.dest_dir name)
      ≡ some bytes
unfolding receive handle on_offer FindsFree exists file_messages transfer_of
receive-send_file bytes path t outcomes sent name size ms r out arrived h steady (free, rest) =
    let p : String = unique_destination_path r.disk r.dest_dir name in
    let clear : r.disk.names (r.disk.resolve p) ≡ none = is_some-none _ free in
    let due : filter (of_transfer t) ms ≡ remaining t 0 (chunks chunk_size bytes) = tail_eq (
      sym (taken t (offer t name size) ms (eq_refl t))
      ∙ arrived
      ∙ send_file-whole bytes path t outcomes sent out) in
    let after =
      receive_rest t p (r.disk.resolve p) r.disk.next [] 0 (chunks chunk_size bytes) ms _ rest due
        (offer-IsWriting t p r h steady clear) in
    let end : FileReceiver = receive (offer t name size ∷ ms) r in
    let place = receive-resolve (offer t name size ∷ ms) r (free, rest) in
    read_at end.disk p r.disk.next (ap (λ f. end.disk.names (f p)) place ∙ after.named)
    ∙ ap some (after.holds ∙ chunks-concat chunk_size bytes (omega arith))
