-- ===== src/Db/Listing.antt =====
-- The list of all accounts, in the order of their creation (`Db::list_all_accounts`).
use mathlib.Core.List.{Perm}
use mathlib.Core.List.Perm
use visuara.Prelude.{
  ℕ, ◌≡◌, ◌≤◌, refl, sym, subst, arith, List, [], ◌∷◌, map, leb, All, Bool-cases, inl, inr,
}
use visuara.Db.{
  AccountRow, AccountSummary, Tables, Db, ok, from_column, reads, locked, insert_by_created_at,
  order_by_created_at, list_all_accounts,
}

-- What the list says of a row.
abbrev pub summary_of : AccountRow → AccountSummary
summary_of r = record {
  id = r.id;
  email = r.email;
  created_at = r.created_at;
  role = from_column r.role;
}

-- Each account is no younger than those after it.
abbrev pub Ordered : List AccountSummary → Type 0
Ordered [] = Unit
Ordered (a ∷ bs) = All (λ b. a.created_at ≤ b.created_at) bs × Ordered bs

insert-All :
    (t : ℕ) (a : AccountSummary) (bs : List AccountSummary)
    → t ≤ a.created_at
    → All (λ b. t ≤ b.created_at) bs
    → All (λ b. t ≤ b.created_at) (insert_by_created_at a bs)
unfolding insert_by_created_at
insert-All t a [] h k = (h, tt)
insert-All t a (b ∷ bs) h (here, k) = elim (Bool-cases (leb a.created_at b.created_at)) [
  | inl le ↦ rw (le) (h, (here, k))
  | inr gt ↦ rw (gt) (here, insert-All t a bs h k)
]

All-le :
    (t u : ℕ) (bs : List AccountSummary)
    → t ≤ u
    → All (λ b. u ≤ b.created_at) bs
    → All (λ b. t ≤ b.created_at) bs
All-le t u [] h k = tt
All-le t u (b ∷ bs) h (here, k) = (omega arith, All-le t u bs h k)

insert-Ordered :
    (a : AccountSummary) (bs : List AccountSummary)
    → Ordered bs
    → Ordered (insert_by_created_at a bs)
unfolding insert_by_created_at
insert-Ordered a [] o = (tt, tt)
insert-Ordered a (b ∷ bs) (here, o) = elim (Bool-cases (leb a.created_at b.created_at)) [
  | inl le ↦
      rw (le) ((ground arith, All-le a.created_at b.created_at bs (ground arith) here), (here, o))
  | inr gt ↦ rw (gt) (insert-All b.created_at a bs (ground arith) here, insert-Ordered a bs o)
]

order-Ordered : (rs : List AccountRow) → Ordered (order_by_created_at rs)
unfolding order_by_created_at
order-Ordered [] = tt
order-Ordered (r ∷ rs) = insert-Ordered (summary_of r) (order_by_created_at rs) (order-Ordered rs)

insert-Perm :
    (a : AccountSummary) (bs : List AccountSummary) → Perm (insert_by_created_at a bs) (a ∷ bs)
unfolding insert_by_created_at
insert-Perm a [] = Perm.refl _
insert-Perm a (b ∷ bs) = elim (Bool-cases (leb a.created_at b.created_at)) [
  | inl le ↦ rw (le) (Perm.refl _)
  | inr gt ↦ rw (gt) (Perm.trans (Perm.cons b (insert-Perm a bs)) (Perm.swap a b bs))
]

order-Perm : (rs : List AccountRow) → Perm (order_by_created_at rs) (map summary_of rs)
unfolding order_by_created_at
order-Perm [] = Perm.refl _
order-Perm (r ∷ rs) =
    Perm.trans (insert-Perm (summary_of r) (order_by_created_at rs))
      (Perm.cons (summary_of r) (order-Perm rs))

-- A read that does not fail.
pub reads_fine :
    {A : Type 0} (f : Tables → A) (db : Db) → db.faults ≡ [] → reads f db ≡ (ok (f db.tables), db)
unfolding reads locked
reads_fine f db e =
    subst
      (λ fs.
        reads f
          (record { tables = db.tables; now = db.now; foreign_keys = db.foreign_keys; faults = fs })
        ≡ (
          ok (f db.tables),
          record { tables = db.tables; now = db.now; foreign_keys = db.foreign_keys; faults = fs },
        ))
      (sym e) refl

-- The list of all accounts has what there is to say of every row, once each, and no account in it is
-- younger than one after it, while no call fails for an outside reason; the database is not changed.
list_all_accounts-Ordered :
    (db : Db)
    → db.faults ≡ []
    → (found : List AccountSummary) × (list_all_accounts db ≡ (ok found, db))
      × Ordered found
      × Perm found (map summary_of db.tables.accounts)
unfolding list_all_accounts
list_all_accounts-Ordered db fine = (
  order_by_created_at db.tables.accounts,
  reads_fine (λ t. order_by_created_at t.accounts) db fine,
  order-Ordered db.tables.accounts,
  order-Perm db.tables.accounts,
)
