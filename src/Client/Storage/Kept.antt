-- ===== src/Client/Storage/Kept.antt =====
-- What is saved is loaded again (`save` and `load` of local_settings.rs and saved_credentials.rs).
use visuara.Prelude.{◌≡◌, ◌≢◌, refl, arith, Bool, true, false, some, List, [], ℕ, String}
use visuara.Client.Disk.{directory, Disk, next_call, read, write_file}
use visuara.Client.Disk.Calls.{next_call_steady}
use visuara.Client.Disk.Whole.{write_file-read, read_file_steady, read-exists, other_call_steady}
use visuara.Client.Storage.{
  Json, write_restricted, written_into, restricted, save_at, save_json, load_at, load_present,
  parsed,
}

-- No call of the disk is going to fail.
abbrev pub Steady : Disk → Type 0
Steady d = d.failures ≡ []

abbrev pub Holds : String → List ℕ → Disk → Type 0
Holds path bytes d = (read d path ≡ some bytes) × Steady d

next_call-Holds :
    (path : String) (bytes : List ℕ) (d : Disk)
    → Holds path bytes d
    → Holds path bytes (next_call d)
unfolding read next_call
next_call-Holds path bytes d (reads, steady) = (reads, next_call_steady d steady)

restricted-Holds :
    (path : String) (bytes : List ℕ) (r : Bool × Disk)
    → r.0 ≡ true
    → Holds path bytes r.1
    → ((restricted r).0 ≡ true) × Holds path bytes (restricted r).1
unfolding restricted
restricted-Holds path bytes (false, d) e h = absurd (ground arith)
restricted-Holds path bytes (true, d) e (reads, steady) =
    rw (other_call_steady d steady) (refl, next_call-Holds path bytes d (reads, steady))

write_restricted-Holds :
    (path : String) (bytes : List ℕ) (d : Disk)
    → Steady d
    → d.names (d.resolve path) ≢ some directory
    → ((write_restricted path bytes d).0 ≡ true)
      × Holds path bytes (write_restricted path bytes d).1
unfolding write_restricted written_into next_call
write_restricted-Holds path bytes d steady file =
    let (reads, still, done) =
      write_file-read path bytes (next_call d) (next_call_steady d steady) file in
    rw (other_call_steady d steady, written_into)
      (restricted-Holds path bytes (write_file path bytes (next_call d)) done (reads, still))

module _ {A : Type 0} (codec : Json A) (path : String) where
  -- A save succeeds when serde_json can write the value, no call of the disk fails and there is no
  -- directory at the path.
  pub save_at-Holds :
      (a : A) (json : List ℕ) (d : Disk)
      → Steady d
      → d.names (d.resolve path) ≢ some directory
      → codec.to_vec a ≡ some json
      → ((save_at codec (some path) a d).0 ≡ true)
        × Holds path json (save_at codec (some path) a d).1
  unfolding save_at save_json
  save_at-Holds a json d steady file e =
      rw (e, save_json) (write_restricted-Holds path json d steady file)

  pub load_at_read :
      (a : A) (bytes : List ℕ) (d : Disk)
      → Holds path bytes d
      → codec.from_slice bytes ≡ some a
      → (load_at codec (some path) d).0 ≡ some (some a)
  unfolding load_at load_present parsed
  load_at_read a bytes d (reads, steady) e = rw (
    read-exists path bytes d reads,
    load_present,
    read_file_steady path d steady,
    reads,
    parsed,
    e,
  )

-- What is saved is what is loaded next, where serde_json can write it, there is no directory at its
-- path, and no call of the disk fails; and the save succeeds.
pub load_at-save_at :
    {A : Type 0} (codec : Json A) (path : String) (a : A) (json : List ℕ) (d : Disk)
    → d.failures ≡ []
    → d.names (d.resolve path) ≢ some directory
    → codec.to_vec a ≡ some json
    → ((save_at codec (some path) a d).0 ≡ true)
      × ((load_at codec (some path) (save_at codec (some path) a d).1).0 ≡ some (some a))
load_at-save_at codec path a json d steady file e =
    let (done, held) = save_at-Holds codec path a json d steady file e in
    (done, load_at_read codec path a json _ held (codec.from_slice-to_vec a json e))
