-- ===== src/Client/Disk/Replace.antt =====
-- A file that is written beside another and then takes its name (`std::fs::write`, `std::fs::rename`),
-- whichever calls fail.
use visuara.Prelude.{
  ℕ, ◌≡◌, ◌≢◌, ◌⊎◌, inl, inr, refl, sym, ap, ◌∙◌, true, false, arith, ==_iff, eq_refl, str_eq,
  Option, none, some, List, [], String, unwrap_or,
}
use visuara.State.{insert, remove}
use visuara.Client.Disk.{
  Node, directory, file_at, Disk, File, next_call, open_node, open_after, create, read, read_node,
  write_all, write_after, set_contents, filled, write_file, outcome, renamed, rename_after, rename,
}
use visuara.Client.Disk.Calls.{new_file, with_new, overwrite_end, read_at}

-- The file at `q`, if there is one, is neither the file at `p` nor the next new file.
abbrev pub Unshared : String → String → Disk → Type 0
Unshared p q d =
    (i : ℕ)
    → d.names (d.resolve q) ≡ some (file_at i)
    → (d.next ≢ i) × (d.names (d.resolve p) ≢ some (file_at i))

name_beside_new :
    (p q : String) (d : Disk)
    → str_eq (d.resolve p) (d.resolve q) ≡ false
    → (with_new p d).names (d.resolve q) ≡ d.names (d.resolve q)
name_beside_new p q d apart = rw (apart)

read_node_same :
    (o : Option Node) (contents contents' : ℕ → List ℕ)
    → ((i : ℕ) → o ≡ some (file_at i) → contents' i ≡ contents i)
    → read_node o contents' ≡ read_node o contents
unfolding read_node
read_node_same none contents contents' h = refl
read_node_same (some directory) contents contents' h = refl
read_node_same (some (file_at i)) contents contents' h = ap some (h i refl)

-- Writing an open file changes no other file.
write_after_keeps :
    (o : Option ℕ) (f : File) (bytes : List ℕ) (q : String) (d : Disk)
    → ((i : ℕ) → d.names (d.resolve q) ≡ some (file_at i) → f.number ≢ i)
    → read (write_after o f bytes d).2 q ≡ read d q
unfolding write_after read
write_after_keeps o f bytes q d other =
    read_node_same (d.names (d.resolve q)) d.contents _
      (λ i e. ground (arith, ==_iff f.number i, other i e))

-- A new file changes no other file.
read_beside_new :
    (p q : String) (d : Disk)
    → str_eq (d.resolve p) (d.resolve q) ≡ false
    → Unshared p q d
    → read (with_new p d) q ≡ read d q
unfolding read
read_beside_new p q d apart other =
    ap (λ o. read_node o (with_new p d).contents) (name_beside_new p q d apart)
    ∙ read_node_same (d.names (d.resolve q)) d.contents (with_new p d).contents
        (λ i e. ground (arith, ==_iff d.next i, (other i e).0))

-- An existing file that is emptied changes no other file.
read_beside_emptied :
    (j : ℕ) (q : String) (d : Disk)
    → ((i : ℕ) → d.names (d.resolve q) ≡ some (file_at i) → j ≢ i)
    → read (set_contents j [] d) q ≡ read d q
unfolding read
read_beside_emptied j q d different =
    read_node_same (d.names (d.resolve q)) d.contents (set_contents j [] d).contents
      (λ i e. ground (arith, ==_iff j i, different i e))

open_keeps :
    (o : Option Node) (p : String) (bytes : List ℕ) (q : String) (d : Disk)
    → d.names (d.resolve p) ≡ o
    → str_eq (d.resolve p) (d.resolve q) ≡ false
    → Unshared p q d
    → read (filled (open_node o p d) bytes).1 q ≡ read d q
unfolding open_node filled write_all next_call read
open_keeps none p bytes q d at_p apart other =
    write_after_keeps (outcome d.failures) (new_file p d) bytes q (next_call (with_new p d))
      (λ i e. (other i (sym (name_beside_new p q d apart) ∙ e)).0)
    ∙ read_beside_new p q d apart other
open_keeps (some directory) p bytes q d at_p apart other = refl
open_keeps (some (file_at j)) p bytes q d at_p apart other =
    write_after_keeps (outcome d.failures) (record { path = p; number = j; position = 0 }) bytes q
      (next_call (set_contents j [] d)) different
    ∙ read_beside_emptied j q d different
  where
    different : (i : ℕ) → d.names (d.resolve q) ≡ some (file_at i) → j ≢ i
    different i e same = (other i e).1 (at_p ∙ ap (λ n. some (file_at n)) same)

-- Writing a file keeps one at another place.
pub write_file_keeps :
    (p : String) (bytes : List ℕ) (q : String) (d : Disk)
    → str_eq (d.resolve p) (d.resolve q) ≡ false
    → Unshared p q d
    → read (write_file p bytes d).1 q ≡ read d q
unfolding write_file create next_call read open_after filled
write_file_keeps p bytes q d apart other = created (outcome d.failures)
  where
    created : (o : Option ℕ) → read (filled (open_after o p (next_call d)) bytes).1 q ≡ read d q
    created none = open_keeps (d.names (d.resolve p)) p bytes q (next_call d) refl apart other
    created (some n) = refl

-- A write to an empty file that succeeds leaves the file with what was written.
write_after_ok :
    (o : Option ℕ) (f : File) (bytes : List ℕ) (d : Disk)
    → d.names (d.resolve f.path) ≡ some (file_at f.number)
    → d.contents f.number ≡ []
    → f.position ≡ 0
    → (write_after o f bytes d).0 ≡ true
    → read (write_after o f bytes d).2 f.path ≡ some bytes
unfolding write_after
write_after_ok none f bytes d named empty start done =
    read_at _ f.path f.number named
    ∙ ap some (rw (empty, start, overwrite_end [] bytes) (ground (arith, ==_iff f.number f.number)))
write_after_ok (some n) f bytes d named empty start done = absurd (ground arith)

open_ok :
    (o : Option Node) (p : String) (bytes : List ℕ) (d : Disk)
    → d.names (d.resolve p) ≡ o
    → (filled (open_node o p d) bytes).0 ≡ true
    → read (filled (open_node o p d) bytes).1 p ≡ some bytes
unfolding open_node filled write_all next_call read
open_ok none p bytes d at_p done =
    write_after_ok (outcome d.failures) (new_file p d) bytes (next_call (with_new p d))
      (rw (eq_refl (d.resolve p))) (ground (arith, ==_iff d.next d.next)) refl done
open_ok (some directory) p bytes d at_p done = absurd (ground arith)
open_ok (some (file_at j)) p bytes d at_p done =
    write_after_ok (outcome d.failures) (record { path = p; number = j; position = 0 }) bytes
      (next_call (set_contents j [] d)) at_p (ground (arith, ==_iff j j)) refl done

-- A whole write that succeeds leaves what was written.
pub write_file_ok :
    (p : String) (bytes : List ℕ) (d : Disk)
    → (write_file p bytes d).0 ≡ true
    → read (write_file p bytes d).1 p ≡ some bytes
unfolding write_file create next_call open_after filled
write_file_ok p bytes d done = created (outcome d.failures) done
  where
    created :
        (o : Option ℕ)
        → (filled (open_after o p (next_call d)) bytes).0 ≡ true
        → read (filled (open_after o p (next_call d)) bytes).1 p ≡ some bytes
    created none done = open_ok (d.names (d.resolve p)) p bytes (next_call d) refl done
    created (some n) done = absurd (ground arith)

-- The disk once the file `i` has gone from one name to another.
abbrev moved_to : ℕ → String → String → Disk → Disk
moved_to i from to d = record d {
  names = insert (d.resolve to) (file_at i) (remove (d.resolve from) d.names);
}

renamed-cases :
    (source target : Option Node) (from to : String) (d : Disk)
    → (renamed source target from to d ≡ (false, d))
      ⊎ ((i : ℕ) × (source ≡ some (file_at i))
          × (renamed source target from to d ≡ (true, moved_to i from to d)))
unfolding renamed
renamed-cases none target from to d = inl refl
renamed-cases (some directory) target from to d = inl refl
renamed-cases (some (file_at i)) (some directory) from to d = inl refl
renamed-cases (some (file_at i)) none from to d = inr (i, refl, refl)
renamed-cases (some (file_at i)) (some (file_at j)) from to d = inr (i, refl, refl)

-- A file that is renamed reads under its new name as it did, and if the call fails the new name reads
-- as before.
pub rename-cases :
    (from to : String) (bytes : List ℕ) (d : Disk)
    → read d from ≡ some bytes
    → (((rename from to d).0 ≡ false) × (read (rename from to d).1 to ≡ read d to))
      ⊎ (((rename from to d).0 ≡ true) × (read (rename from to d).1 to ≡ some bytes))
unfolding rename rename_after next_call read
rename-cases from to bytes d there = tried (outcome d.failures)
  where
    moved : (i : ℕ) → d.names (d.resolve from) ≡ some (file_at i) → d.contents i ≡ bytes
    moved i e = ap (λ o. unwrap_or o []) (sym (read_at d from i e) ∙ there)

    tried :
        (o : Option ℕ)
        → (((rename_after o from to (next_call d)).0 ≡ false)
            × (read (rename_after o from to (next_call d)).1 to ≡ read d to))
          ⊎ (((rename_after o from to (next_call d)).0 ≡ true)
              × (read (rename_after o from to (next_call d)).1 to ≡ some bytes))
    tried (some n) = inl (refl, refl)
    tried none =
        elim (renamed-cases (d.names (d.resolve from)) (d.names (d.resolve to)) from to
          (next_call d)) [
            | inl failed ↦ inl (ap (λ r. r.0) failed, ap (λ r. read r.1 to) failed)
            | inr (i, source, done) ↦ inr (
              ap (λ r. r.0) done,
              ap (λ r. read r.1 to) done
                  ∙ read_at (moved_to i from to (next_call d)) to i (rw (eq_refl (d.resolve to)))
                  ∙ ap some (moved i source),
            )
          ]
