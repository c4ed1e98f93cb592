-- ===== src/Client/Disk/Whole.antt =====
-- A file that is written as a whole reads as what was written (`std::fs::write`, `std::fs::read`).
use visuara.Prelude.{
  ℕ, ◌≡◌, ◌≢◌, refl, ap, ◌∙◌, true, arith, ==_iff, eq_refl, Option, none, some, List, [], String,
  not, is_some,
}
use visuara.Client.Disk.{
  Node, directory, file_at, Disk, File, next_call, open_node, open_after, create, read, write_all,
  filled, write_file, exists, read_file, outcome, whole, other_call,
}
use visuara.Client.Disk.Calls.{next_call_steady, write_all_steady, overwrite_end, read_at, file_of}

-- An empty file that is written from its start.
fill_empty :
    (f : File) (bytes : List ℕ) (d : Disk)
    → d.failures ≡ []
    → d.names (d.resolve f.path) ≡ some (file_at f.number)
    → d.contents f.number ≡ []
    → f.position ≡ 0
    → (read (write_all f bytes d).2 f.path ≡ some bytes)
      × ((write_all f bytes d).2.failures ≡ [])
      × ((write_all f bytes d).0 ≡ true)
unfolding next_call
fill_empty f bytes d steady named empty start =
    rw (write_all_steady f bytes d steady, empty, start, overwrite_end [] bytes)
      (
        read_at _ f.path f.number named ∙ ap some (ground (arith, ==_iff f.number f.number)),
        next_call_steady d steady,
        refl,
      )

fill_node :
    (o : Option Node) (p : String) (bytes : List ℕ) (d : Disk)
    → d.failures ≡ []
    → d.names (d.resolve p) ≡ o
    → o ≢ some directory
    → (read (filled (open_node o p d) bytes).1 p ≡ some bytes)
      × ((filled (open_node o p d) bytes).1.failures ≡ [])
      × ((filled (open_node o p d) bytes).0 ≡ true)
unfolding open_node filled
fill_node none p bytes d steady e file =
    fill_empty (record { path = p; number = d.next; position = 0 }) bytes _ steady
      (ground (arith, eq_refl (d.resolve p))) (ground (arith, ==_iff d.next d.next)) refl
fill_node (some directory) p bytes d steady e file = absurd (file refl)
fill_node (some (file_at i)) p bytes d steady e file =
    fill_empty (record { path = p; number = i; position = 0 }) bytes _ steady e
      (ground (arith, ==_iff i i)) refl

-- When no call fails and there is no directory at the path, the file holds what is written.
pub write_file-read :
    (p : String) (bytes : List ℕ) (d : Disk)
    → d.failures ≡ []
    → d.names (d.resolve p) ≢ some directory
    → (read (write_file p bytes d).1 p ≡ some bytes)
      × ((write_file p bytes d).1.failures ≡ [])
      × ((write_file p bytes d).0 ≡ true)
unfolding write_file create open_after next_call
write_file-read p bytes d steady file =
    let opened : create p d ≡ open_node (d.names (d.resolve p)) p (next_call d) =
      ap (λ o. open_after (outcome o) p (next_call d)) steady in
    rw (opened) (
      fill_node (d.names (d.resolve p)) p bytes (next_call d) (next_call_steady d steady) refl file)

-- Reading a file that is there, when no call fails.
pub read_file_steady :
    (p : String) (d : Disk) → d.failures ≡ [] → read_file p d ≡ (read d p, next_call d)
unfolding read_file whole next_call
read_file_steady p d steady = ap (λ o. (whole (outcome o) (read d p), next_call d)) steady

pub read-exists :
    (p : String) (bytes : List ℕ) (d : Disk) → read d p ≡ some bytes → exists d p ≡ true
unfolding exists
read-exists p bytes d e = let (i, named, _) = file_of d p bytes e in rw (named)

pub other_call_steady : (d : Disk) → d.failures ≡ [] → other_call d ≡ (true, next_call d)
unfolding other_call
other_call_steady d steady = ap (λ o. (not (is_some (outcome o)), next_call d)) steady
