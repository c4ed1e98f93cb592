-- ===== src/Client/Disk/Calls.antt =====
-- What the calls of the disk come to: the disk is left alone or changed.
use visuara.Prelude.{
  ℕ, suc, ◌≡◌, ◌⊎◌, inl, inr, refl, ap, ◌∙◌, ◌+◌, ◌-◌, ◌++◌, drop, drop_all, take_all, append_nil,
  true, length, arith, Option, none, some, List, [], String,
}
use visuara.State.{insert, remove}
use visuara.Client.Disk.{
  Node, directory, file_at, Disk, File, set, next_call, open_node, open_after, create, unlink_node,
  unlink_after, remove_file, outcome, rest, overwrite, set_contents, write_after, write_all,
  read_node, read,
}

abbrev pub new_file : String → Disk → File
new_file p d = record { path = p; number = d.next; position = 0 }

abbrev pub with_new : String → Disk → Disk
with_new p d = record d {
  names = insert (d.resolve p) (file_at d.next) d.names;
  contents = set d.next [] d.contents;
  next = suc d.next;
}

abbrev pub without : String → Disk → Disk
without p d = record d { names = remove (d.resolve p) d.names }

pub next_call_steady : (d : Disk) → d.failures ≡ [] → (next_call d).failures ≡ []
unfolding next_call
next_call_steady d e = ap rest e

-- A call that does not fail.
pub create_steady :
    (p : String) (d : Disk)
    → d.failures ≡ []
    → d.names (d.resolve p) ≡ none
    → create p d ≡ (some (new_file p d), with_new p (next_call d))
unfolding create open_after open_node next_call
create_steady p d e free =
    ap (λ o. open_after (outcome o) p (next_call d)) e ∙ ap (λ o. open_node o p (next_call d)) free

pub write_all_steady :
    (f : File) (bytes : List ℕ) (d : Disk)
    → d.failures ≡ []
    → write_all f bytes d ≡ (
      true,
      record f { position = f.position + length bytes },
      set_contents f.number (overwrite f.position bytes (d.contents f.number)) (next_call d),
    )
unfolding write_all write_after next_call
write_all_steady f bytes d e = ap (λ o. write_after (outcome o) f bytes (next_call d)) e

open_after-cases :
    (o : Option ℕ) (p : String) (d : Disk)
    → d.names (d.resolve p) ≡ none
    → (open_after o p d ≡ (none, d)) ⊎ (open_after o p d ≡ (some (new_file p d), with_new p d))
unfolding open_after open_node
open_after-cases none p d free = inr (rw (free, open_node))
open_after-cases (some n) p d free = inl refl

-- Where there is nothing, `create` fails or makes a new file.
pub create-cases :
    (p : String) (d : Disk)
    → d.names (d.resolve p) ≡ none
    → (create p d ≡ (none, next_call d))
      ⊎ (create p d ≡ (some (new_file p d), with_new p (next_call d)))
unfolding create next_call
create-cases p d free = open_after-cases (outcome d.failures) p (next_call d) free

unlink_node-cases :
    (o : Option Node) (p : String) (d : Disk)
    → (unlink_node o p d ≡ d) ⊎ (unlink_node o p d ≡ without p d)
unfolding unlink_node
unlink_node-cases none p d = inl refl
unlink_node-cases (some directory) p d = inl refl
unlink_node-cases (some (file_at i)) p d = inr refl

unlink_after-cases :
    (o : Option ℕ) (p : String) (d : Disk)
    → (unlink_after o p d ≡ d) ⊎ (unlink_after o p d ≡ without p d)
unfolding unlink_after
unlink_after-cases none p d = unlink_node-cases (d.names (d.resolve p)) p d
unlink_after-cases (some n) p d = inl refl

pub remove_file-cases :
    (p : String) (d : Disk)
    → (remove_file p d ≡ next_call d) ⊎ (remove_file p d ≡ without p (next_call d))
unfolding remove_file
remove_file-cases p d = unlink_after-cases (outcome d.failures) p (next_call d)

-- What a path reads as, when its file is known.
pub read_at :
    (d : Disk) (p : String) (i : ℕ)
    → d.names (d.resolve p) ≡ some (file_at i)
    → read d p ≡ some (d.contents i)
unfolding read
read_at d p i e = ap (λ o. read_node o d.contents) e

node_of :
    (o : Option Node) (contents : ℕ → List ℕ) (bytes : List ℕ)
    → read_node o contents ≡ some bytes
    → (i : ℕ) × (o ≡ some (file_at i)) × (contents i ≡ bytes)
unfolding read_node
node_of none contents bytes e = absurd (ground arith)
node_of (some directory) contents bytes e = absurd (ground arith)
node_of (some (file_at i)) contents bytes e = (i, refl, ground arith)

pub file_of :
    (d : Disk) (p : String) (bytes : List ℕ)
    → read d p ≡ some bytes
    → (i : ℕ) × (d.names (d.resolve p) ≡ some (file_at i)) × (d.contents i ≡ bytes)
unfolding read
file_of d p bytes e = node_of (d.names (d.resolve p)) d.contents bytes e

-- Bytes written at the end of a file.
pub overwrite_end : (bytes new : List ℕ) → overwrite (length bytes) new bytes ≡ bytes ++ new
unfolding overwrite
overwrite_end bytes new =
    let none_missing : length bytes - length bytes ≡ 0 = omega arith in
    let nothing_after : drop (length bytes + length new) bytes ≡ [] =
      drop_all (length bytes + length new) bytes (omega arith) in
    rw (none_missing, nothing_after, take_all bytes)
      (append_nil (bytes ++ [] ++ new) ∙ ap (λ x. x ++ new) (append_nil bytes))
