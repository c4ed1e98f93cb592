-- ===== src/Client/Disk.antt =====
-- The parts of std::fs that visuara-client/src/file_transfer.rs calls. `resolve` is what the system
-- makes of a path (symbolic links, dots and double separators). A file has a number, and an open file
-- writes on to it whatever becomes of its name. For each coming call that can fail, `failures` says
-- whether it does, and how much it wrote before; when it is used up, calls succeed.
pub mod Calls
pub mod Whole
pub mod Replace
use visuara.Prelude.{
  ℕ, suc, ◌+◌, ◌-◌, Bool, true, false, not, Option, none, some, List, [], ◌∷◌, ◌++◌, String,
  is_some, ◌==◌, length, take, drop, replicate, if◌then◌else◌,
}
use visuara.State.{Map, insert, remove}

pub data Node : Type 0 where
  directory : Node
  file_at : ℕ → Node

pub record Disk : Type 0 where
  pub resolve : String → String
  pub names : Map Node
  pub contents : ℕ → List ℕ
  pub next : ℕ
  pub failures : List (Option ℕ)

-- `Path::exists`
unfoldable pub exists : Disk → String → Bool
exists d p = is_some (d.names (d.resolve p))

read_node : Option Node → (ℕ → List ℕ) → Option (List ℕ)
read_node none contents = none
read_node (some directory) contents = none
read_node (some (file_at i)) contents = some (contents i)

-- What reading the file gives, if there is one at the path.
unfoldable pub read : Disk → String → Option (List ℕ)
unfolding read_node
read d p = read_node (d.names (d.resolve p)) d.contents

-- The outcome of the next call that can fail, and those of the calls after it.
abbrev outcome : List (Option ℕ) → Option ℕ
outcome [] = none
outcome (o ∷ os) = o

abbrev rest : List (Option ℕ) → List (Option ℕ)
rest [] = []
rest (o ∷ os) = os

unfoldable pub next_call : Disk → Disk
next_call d = record d { failures = rest d.failures }

-- An open file: its path, its number and the position of the next write.
pub record File : Type 0 where
  pub path : String
  pub number : ℕ
  pub position : ℕ

abbrev pub set : {V : Type 0} → ℕ → V → (ℕ → V) → ℕ → V
set i v f j = if i == j then v else f j

open_node : Option Node → String → Disk → Option File × Disk
open_node none p d = (
  some (record { path = p; number = d.next; position = 0 }),
  record d {
    names = insert (d.resolve p) (file_at d.next) d.names;
    contents = set d.next [] d.contents;
    next = suc d.next;
  },
)
open_node (some directory) p d = (none, d)
open_node (some (file_at i)) p d = (
  some (record { path = p; number = i; position = 0 }),
  record d { contents = set i [] d.contents },
)

open_after : Option ℕ → String → Disk → Option File × Disk
open_after none p d = open_node (d.names (d.resolve p)) p d
open_after (some n) p d = (none, d)

-- `File::create`: the file at the path with nothing in it, or a new file.
unfoldable pub create : String → Disk → Option File × Disk
unfolding open_after open_node next_call
create p d = open_after (outcome d.failures) p (next_call d)

-- Bytes written at a position, over what is there and after zeros where nothing is.
unfoldable pub overwrite : ℕ → List ℕ → List ℕ → List ℕ
overwrite at bytes old =
    take at old ++ replicate (at - length old) 0 ++ bytes ++ drop (at + length bytes) old

abbrev written : Option ℕ → List ℕ → List ℕ
written none bytes = bytes
written (some n) bytes = take n bytes

abbrev pub set_contents : ℕ → List ℕ → Disk → Disk
set_contents i bytes d = record d { contents = set i bytes d.contents }

write_after : Option ℕ → File → List ℕ → Disk → Bool × File × Disk
write_after o f bytes d = (
  not (is_some o),
  record f { position = f.position + length (written o bytes) },
  set_contents f.number (overwrite f.position (written o bytes) (d.contents f.number)) d,
)

-- `Write::write_all`, and whether it succeeds.
unfoldable pub write_all : File → List ℕ → Disk → Bool × File × Disk
unfolding write_after next_call
write_all f bytes d = write_after (outcome d.failures) f bytes (next_call d)

unlink_node : Option Node → String → Disk → Disk
unlink_node none p d = d
unlink_node (some directory) p d = d
unlink_node (some (file_at i)) p d = record d { names = remove (d.resolve p) d.names }

unlink_after : Option ℕ → String → Disk → Disk
unlink_after none p d = unlink_node (d.names (d.resolve p)) p d
unlink_after (some n) p d = d

-- `std::fs::remove_file`, its result ignored: a directory stays.
unfoldable pub remove_file : String → Disk → Disk
unfolding unlink_after unlink_node next_call
remove_file p d = unlink_after (outcome d.failures) p (next_call d)

-- `std::fs::remove_file`, and whether it succeeds.
unlink : Option ℕ → Option Node → String → Disk → Bool × Disk
unlink none (some (file_at i)) p d = (true, record d { names = remove (d.resolve p) d.names })
unlink none (some directory) p d = (false, d)
unlink none none p d = (false, d)
unlink (some n) found p d = (false, d)

unfoldable pub try_remove_file : String → Disk → Bool × Disk
unfolding unlink next_call
try_remove_file p d = unlink (outcome d.failures) (d.names (d.resolve p)) p (next_call d)

-- `std::fs::rename` of a file, and whether it succeeds: the new name takes the file, in one step.
renamed : Option Node → Option Node → String → String → Disk → Bool × Disk
renamed (some (file_at i)) (some directory) from to d = (false, d)
renamed (some (file_at i)) target from to d =
    (true, record d { names = insert (d.resolve to) (file_at i) (remove (d.resolve from) d.names) })
renamed source target from to d = (false, d)

rename_after : Option ℕ → String → String → Disk → Bool × Disk
rename_after none from to d = renamed (d.names (d.resolve from)) (d.names (d.resolve to)) from to d
rename_after (some n) from to d = (false, d)

unfoldable pub rename : String → String → Disk → Bool × Disk
unfolding rename_after renamed next_call
rename from to d = rename_after (outcome d.failures) from to (next_call d)

-- A call that makes directories, changes permissions or starts a program: it succeeds or not, and
-- changes no file.
unfoldable pub other_call : Disk → Bool × Disk
other_call d = (not (is_some (outcome d.failures)), next_call d)

-- `std::fs::write`, and whether it succeeds: when the write fails, what it wrote before stays.
filled : Option File × Disk → List ℕ → Bool × Disk
filled (none, d) bytes = (false, d)
filled (some f, d) bytes = let (done, f', d') = write_all f bytes d in (done, d')

unfoldable pub write_file : String → List ℕ → Disk → Bool × Disk
unfolding filled
write_file p bytes d = filled (create p d) bytes

-- `std::fs::read`
whole : Option ℕ → Option (List ℕ) → Option (List ℕ)
whole none contents = contents
whole (some n) contents = none

unfoldable pub read_file : String → Disk → Option (List ℕ) × Disk
unfolding whole next_call
read_file p d = (whole (outcome d.failures) (read d p), next_call d)
