-- ===== src/Client/FileTransfer/Aside.antt =====
-- A file that the transfers in progress do not write stays as it is (`FileReceiver::handle`).
use visuara.Prelude.{
  ℕ, ◌≡◌, ◌≢◌, inl, inr, ◌<◌, refl, sym, ◌∙◌, ap, subst, arith, Option, none, some, List, [], ◌∷◌,
  All, String, eq_iff, ==_iff,
}
use visuara.Control.{FileTransferMessage}
use visuara.Client.Disk.{file_at, File, next_call, read}
use visuara.Client.Disk.Calls.{new_file, read_at, file_of}
use visuara.Client.FileTransfer.{FileReceiver, receive}
use visuara.Client.FileTransfer.Effects.{
  Effect, ignored, not_opened, opened, wrote, completed, not_deleted, deleted, transfer_of,
  handle-Effect,
}
use visuara.Client.FileTransfer.Soundness.{IsSound, AllFree, insert-cases, remove-some}

-- The file `i` stands at `q` with the bytes `bytes`, and the open files of the transfers for which
-- `Other` holds are other files, at other paths.
pub record IsAside (Other : String → Type 0) (q : String) (i : ℕ) (bytes : List ℕ)
    (r : FileReceiver) : Type 0 where
  pub named : r.disk.names q ≡ some (file_at i)
  pub holds : r.disk.contents i ≡ bytes
  pub known : i < r.disk.next
  pub others :
      (u : String) (f : File)
      → Other u
      → r.in_progress u ≡ some f
      → (f.number ≢ i) × (r.disk.resolve f.path ≢ q)

none≢some : {A : Type 0} {o : Option A} {a : A} → o ≡ none → o ≢ some a
none≢some e e' = ground arith

module _ (Other : String → Type 0) (q : String) (i : ℕ) (bytes : List ℕ) where
  pub Effect-IsAside :
      (t : String) (r r' : FileReceiver)
      → Effect t r r'
      → Other t
      → IsAside Other q i bytes r
      → IsAside Other q i bytes r'
  unfolding next_call
  Effect-IsAside t r _ ignored o h = h
  Effect-IsAside t r _ not_opened o h = record {
    named = h.named;
    holds = h.holds;
    known = h.known;
    others = h.others;
  }
  Effect-IsAside t r _ (opened p free) o h = record {
    named = ground (arith, h.named, eq_iff (r.disk.resolve p) q);
    holds = ground (arith, h.holds, h.known, ==_iff r.disk.next i);
    known = ground (arith, h.known);
    others = λ u f other e. elim (insert-cases t u (new_file p r.disk) f r.in_progress e) [
      | inl new ↦
          let number : r.disk.next ≡ f.number = ap File.number new.1 in
          let path : p ≡ f.path = ap File.path new.1 in
          let below : i < r.disk.next = h.known in
          (
            λ same. omega arith,
            rw (← path) (λ same. none≢some (subst (λ x. r.disk.names x ≡ none) same free) h.named),
          )
      | inr old ↦ h.others u f other old
    ];
  }
  Effect-IsAside t r _ (wrote f position new found) o h = record {
    named = h.named;
    holds = ground (arith, h.holds, ==_iff f.number i, h.others t f o found);
    known = h.known;
    others = λ u g other e.
        elim (insert-cases t u (record f { position = position }) g r.in_progress e) [
          | inl new ↦
              let number : f.number ≡ g.number = ap File.number new.1 in
              let path : f.path ≡ g.path = ap File.path new.1 in
              rw (← number, ← path) (h.others t f o found)
          | inr old ↦ h.others u g other old
        ];
  }
  Effect-IsAside t r _ completed o h = record {
    named = h.named;
    holds = h.holds;
    known = h.known;
    others = λ u f other e. h.others u f other (remove-some t u f r.in_progress e).1;
  }
  Effect-IsAside t r _ not_deleted o h = record {
    named = h.named;
    holds = h.holds;
    known = h.known;
    others = λ u f other e. h.others u f other (remove-some t u f r.in_progress e).1;
  }
  Effect-IsAside t r _ (deleted f found) o h = record {
    named = ground (arith, h.named, eq_iff (r.disk.resolve f.path) q, h.others t f o found);
    holds = h.holds;
    known = h.known;
    others = λ u g other e. h.others u g other (remove-some t u g r.in_progress e).1;
  }

module _ (Other : String → Type 0) (q : String) (i : ℕ) (bytes : List ℕ) where
  pub receive-IsAside :
      (ms : List FileTransferMessage) (r : FileReceiver)
      → All (λ m. Other (transfer_of m)) ms
      → AllFree ms r
      → IsAside Other q i bytes r
      → IsAside Other q i bytes (receive ms r)
  unfolding receive
  receive-IsAside [] r o free h = h
  receive-IsAside (m ∷ ms) r (o, os) (free, rest) h =
      receive-IsAside ms _ os rest
        (Effect-IsAside Other q i bytes (transfer_of m) r _ (handle-Effect m r free) o h)

pub Effect-resolve :
    (t : String) (r r' : FileReceiver) → Effect t r r' → r'.disk.resolve ≡ r.disk.resolve
unfolding next_call
Effect-resolve t r _ ignored = refl
Effect-resolve t r _ not_opened = refl
Effect-resolve t r _ (opened p free) = refl
Effect-resolve t r _ (wrote f position bytes found) = refl
Effect-resolve t r _ completed = refl
Effect-resolve t r _ not_deleted = refl
Effect-resolve t r _ (deleted f found) = refl

pub receive-resolve :
    (ms : List FileTransferMessage) (r : FileReceiver)
    → AllFree ms r
    → (receive ms r).disk.resolve ≡ r.disk.resolve
unfolding receive
receive-resolve [] r free = refl
receive-resolve (m ∷ ms) r (free, rest) =
    receive-resolve ms _ rest ∙ Effect-resolve (transfer_of m) r _ (handle-Effect m r free)

every_unit : (ms : List FileTransferMessage) → All {0, 0} (λ m. Unit) ms
every_unit [] = tt
every_unit (m ∷ ms) = (tt, every_unit ms)

-- Whatever messages arrive, of whatever transfers, a file of the host that no transfer has open keeps
-- its bytes and its place, if each offer gets a path where there is nothing; the calls of the disk may
-- fail.
pub receive-untouched :
    (ms : List FileTransferMessage) (r : FileReceiver) (p : String) (bytes : List ℕ)
    → IsSound r
    → AllFree ms r
    → read r.disk p ≡ some bytes
    → ((u : String) (f : File)
        → r.in_progress u ≡ some f
        → r.disk.names (r.disk.resolve p) ≢ some (file_at f.number))
    → read (receive ms r).disk p ≡ some bytes
receive-untouched ms r p bytes h free e shut =
    let (i, named, holds) = file_of r.disk p bytes e in
    let q : String = r.disk.resolve p in
    let start : IsAside (λ u. Unit) q i bytes r = record {
      named = named;
      holds = holds;
      known = h.below q i named;
      others = λ u f other found. (
        λ same. shut u f found (named ∙ ap (λ j. some (file_at j)) (sym same)),
        λ same. shut u f found (ap r.disk.names (sym same) ∙ h.held u f found),
      );
    } in
    let after = receive-IsAside (λ u. Unit) q i bytes ms r (every_unit ms) free start in
    read_at (receive ms r).disk p i
      (ap (λ f. (receive ms r).disk.names (f p)) (receive-resolve ms r free) ∙ after.named)
    ∙ ap some after.holds
