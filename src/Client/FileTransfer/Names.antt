-- ===== src/Client/FileTransfer/Names.antt =====
-- The path that an offer gets (`unique_destination_path`).
use visuara.Prelude.{
  ℕ, zero, suc, ◌+◌, ◌≡◌, ◌≤◌, ◌<◌, ◌⊎◌, inl, inr, sym, subst, arith, true, false, String,
  Bool-cases, is_some-none, ==_iff, eq_refl, none, some, [], ap, ◌∙◌,
}
use native.Mathlib.Decide.{ℕ_discrete}
use visuara.Client.Paths.{join, is_absolute}
use visuara.Client.Disk.{Disk, exists, read, next_call}
use visuara.Client.Disk.Calls.{with_new, create_steady, read_at}
use visuara.Client.FileTransfer.{
  FileReceiver, on_offer, offered, numbered, try_numbered, unique_destination_path,
}

-- The names with the numbers from `n` on, `rounds` of them, are all taken.
abbrev AllTaken : Disk → String → String → ℕ → ℕ → Type 0
AllTaken disk dir name rounds n =
    (k : ℕ) → n ≤ k → k < n + rounds → exists disk (join dir (numbered name k)) ≡ true

try_numbered-cases :
    (disk : Disk) (dir name : String) (rounds n : ℕ)
    → (exists disk (try_numbered disk dir name rounds n) ≡ false) ⊎ AllTaken disk dir name rounds n
unfolding try_numbered
try_numbered-cases disk dir name zero n = inr (λ k a b. absurd (omega arith))
try_numbered-cases disk dir name (suc rounds) n =
    elim (Bool-cases (exists disk (join dir (numbered name n)))) [
      | inr free ↦ inl (rw (try_numbered, free) free)
      | inl taken ↦ elim (try_numbered-cases disk dir name rounds (n + 1)) [
        | inl free ↦ inl (rw (try_numbered, taken) free)
        | inr all ↦ inr (λ k a b. elim (ℕ_discrete k n) [
          | yes same ↦ subst (λ j. exists disk (join dir (numbered name j)) ≡ true) (sym same) taken
          | no other ↦ all k (omega arith) (omega arith)
        ])
      ]
    ]

-- The path that an offer gets has nothing at it, or else the name that was asked for and its variants
-- with the numbers from 1 to 9999 are all taken.
unique_destination_path-cases :
    (disk : Disk) (dir name : String)
    → (exists disk (unique_destination_path disk dir name) ≡ false)
      ⊎ ((exists disk (join dir name) ≡ true)
          × ((k : ℕ) → 1 ≤ k → k < 10000 → exists disk (join dir (numbered name k)) ≡ true))
unfolding unique_destination_path
unique_destination_path-cases disk dir name = elim (Bool-cases (exists disk (join dir name))) [
  | inr free ↦ inl (rw (unique_destination_path, free) free)
  | inl taken ↦ elim (try_numbered-cases disk dir name 9999 1) [
    | inl free ↦ inl (rw (unique_destination_path, taken) free)
    | inr all ↦ inr (taken, λ k a b. all k a (omega arith))
  ]
]

join_absolute : (dir name : String) → is_absolute name ≡ true → join dir name ≡ name
unfolding join
join_absolute dir name e = rw (e)

asked_for :
    (disk : Disk) (dir name : String)
    → is_absolute name ≡ true
    → exists disk name ≡ false
    → unique_destination_path disk dir name ≡ name
unfolding unique_destination_path
asked_for disk dir name absolute free =
    let there = join_absolute dir name absolute in rw (unique_destination_path, there, free) there

-- An offer of an absolute path where there is nothing makes a file at that very path, whatever the
-- directory for received files is, when no call of the disk fails.
pub on_offer-absolute :
    (t name : String) (r : FileReceiver)
    → is_absolute name ≡ true
    → exists r.disk name ≡ false
    → r.disk.failures ≡ []
    → read (on_offer t name r).1.disk name ≡ some []
unfolding on_offer offered exists next_call
on_offer-absolute t name r absolute free steady =
    let chosen : unique_destination_path r.disk r.dest_dir name ≡ name =
      asked_for r.disk r.dest_dir name absolute free in
    let clear : r.disk.names (r.disk.resolve name) ≡ none = is_some-none _ free in
    rw (chosen, create_steady name r.disk steady clear, offered)
      (read_at (with_new name (next_call r.disk)) name r.disk.next
          (ground (arith, eq_refl (r.disk.resolve name)))
        ∙ ap some (ground (arith, ==_iff r.disk.next r.disk.next)))
