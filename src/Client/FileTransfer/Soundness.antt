-- ===== src/Client/FileTransfer/Soundness.antt =====
-- Open files of the receiver are distinct files that stand at their paths (`FileReceiver`).
use visuara.Prelude.{
  ℕ, ◌≡◌, ◌≢◌, ◌⊎◌, inl, inr, ◌<◌, sym, ap, ◌∙◌, subst, refl, arith, false, none, some, List, [],
  ◌∷◌, String, str_eq, eq_iff, eq_refl, Bool-cases,
}
use visuara.State.{Map, insert, remove}
use visuara.Control.{FileTransferMessage}
use visuara.Client.Disk.{file_at, Disk, File, next_call, set_contents}
use visuara.Client.Disk.Calls.{new_file, with_new, without}
use visuara.Client.FileTransfer.{FileReceiver, handle, receive}
use visuara.Client.FileTransfer.Effects.{
  Effect, ignored, not_opened, opened, wrote, completed, not_deleted, deleted, transfer_of,
  FindsFree, handle-Effect,
}

-- Every file has a number that was given out, every open file stands at its path, and two transfers
-- do not share one.
pub record IsSound (r : FileReceiver) : Type 0 where
  pub below : (q : String) (i : ℕ) → r.disk.names q ≡ some (file_at i) → i < r.disk.next
  pub held :
      (u : String) (f : File)
      → r.in_progress u ≡ some f
      → r.disk.names (r.disk.resolve f.path) ≡ some (file_at f.number)
  pub apart :
      (u v : String) (f g : File)
      → u ≢ v
      → r.in_progress u ≡ some f
      → r.in_progress v ≡ some g
      → f.number ≢ g.number

-- Every offer among the messages gets a path where there is nothing.
abbrev pub AllFree : List FileTransferMessage → FileReceiver → Type 0
AllFree [] r = Unit
AllFree (m ∷ ms) r = FindsFree m r × AllFree ms (handle m r).1

pub insert-cases :
    {V : Type 0} (k j : String) (v w : V) (m : Map V)
    → insert k v m j ≡ some w
    → ((k ≡ j) × (v ≡ w)) ⊎ (m j ≡ some w)
insert-cases k j v w m e = elim (Bool-cases (str_eq k j)) [
  | inl same ↦ inl ((eq_iff k j).0 same, ground arith)
  | inr other ↦ inr (ground arith)
]

pub remove-some :
    {V : Type 0} (k j : String) (w : V) (m : Map V)
    → remove k m j ≡ some w
    → (str_eq k j ≡ false) × (m j ≡ some w)
remove-some k j w m e = ground arith

pub apart_of : (a b : String) → str_eq a b ≡ false → a ≢ b
apart_of a b e same = ground (arith, eq_iff a b)

opened-IsSound :
    (t p : String) (r : FileReceiver)
    → r.disk.names (r.disk.resolve p) ≡ none
    → IsSound r
    → IsSound (record r {
      in_progress = insert t (new_file p r.disk) r.in_progress;
      disk = with_new p (next_call r.disk);
    })
unfolding next_call
opened-IsSound t p r free h = record {
  below = λ q i e. ground (arith, h.below q i);
  held = λ u f e. elim (insert-cases t u (new_file p r.disk) f r.in_progress e) [
    | inl new ↦ rw (← new.1, eq_refl (r.disk.resolve p)) refl
    | inr old ↦ ground (arith, h.held u f old, eq_iff (r.disk.resolve p) (r.disk.resolve f.path))
  ];
  apart = λ u v f g differ e e'.
      numbers u v f g differ (insert-cases t u (new_file p r.disk) f r.in_progress e)
        (insert-cases t v (new_file p r.disk) g r.in_progress e');
}
  where
    number_below : (u : String) (f : File) → r.in_progress u ≡ some f → f.number < r.disk.next
    number_below u f e = h.below (r.disk.resolve f.path) f.number (h.held u f e)

    numbers :
        (u v : String) (f g : File)
        → u ≢ v
        → ((t ≡ u) × (new_file p r.disk ≡ f)) ⊎ (r.in_progress u ≡ some f)
        → ((t ≡ v) × (new_file p r.disk ≡ g)) ⊎ (r.in_progress v ≡ some g)
        → f.number ≢ g.number
    numbers u v f g differ (inl (e, _)) (inl (e', _)) = absurd (differ (sym e ∙ e'))
    numbers u v f g differ (inl (_, e)) (inr old) =
        let bound : g.number < r.disk.next = number_below v g old in
        let number : r.disk.next ≡ f.number = ap File.number e in omega arith
    numbers u v f g differ (inr old) (inl (_, e)) =
        let bound : f.number < r.disk.next = number_below u f old in
        let number : r.disk.next ≡ g.number = ap File.number e in omega arith
    numbers u v f g differ (inr old) (inr old') = h.apart u v f g differ old old'

wrote-IsSound :
    (t : String) (f : File) (position : ℕ) (bytes : List ℕ) (r : FileReceiver)
    → r.in_progress t ≡ some f
    → IsSound r
    → IsSound (record r {
      in_progress = insert t (record f { position = position }) r.in_progress;
      disk = set_contents f.number bytes (next_call r.disk);
    })
unfolding next_call
wrote-IsSound t f position bytes r found h = record {
  below = h.below;
  held = λ u g e. let (g', e', path, number) = before u g e in rw (path, number) (h.held u g' e');
  apart = λ u v g k differ e e'.
      let (g', was, _, number) = before u g e in
      let (k', was', _, number') = before v k e' in
      rw (number, number') (h.apart u v g' k' differ was was');
}
  where
    before :
        (u : String) (g : File)
        → insert t (record f { position = position }) r.in_progress u ≡ some g
        → (g' : File) × (r.in_progress u ≡ some g') × (g.path ≡ g'.path) × (g.number ≡ g'.number)
    before u g e = elim (insert-cases t u (record f { position = position }) g r.in_progress e) [
      | inl (same, new) ↦ (
        f,
        subst (λ x. r.in_progress x ≡ some f) same found,
        ap File.path (sym new),
        ap File.number (sym new),
      )
      | inr old ↦ (g, old, refl, refl)
    ]

-- A transfer that is no longer in progress, whatever becomes of the names of other files.
removed-IsSound :
    (t : String) (d : Disk) (r : FileReceiver)
    → d.next ≡ r.disk.next
    → ((q : String) (i : ℕ) → d.names q ≡ some (file_at i) → r.disk.names q ≡ some (file_at i))
    → ((u : String) (f : File)
        → t ≢ u
        → r.in_progress u ≡ some f
        → d.names (d.resolve f.path) ≡ some (file_at f.number))
    → IsSound r
    → IsSound (record r { in_progress = remove t r.in_progress; disk = d })
removed-IsSound t d r next names stays h = record {
  below = λ q i e. rw (next) (h.below q i (names q i e));
  held = λ u f e.
      let (other, old) = remove-some t u f r.in_progress e in stays u f (apart_of t u other) old;
  apart = λ u v f g differ e e'.
      h.apart u v f g differ (remove-some t u f r.in_progress e).1
        (remove-some t v g r.in_progress e').1;
}

pub Effect-IsSound : (t : String) (r r' : FileReceiver) → Effect t r r' → IsSound r → IsSound r'
unfolding next_call
Effect-IsSound t r _ ignored h = h
Effect-IsSound t r _ not_opened h = record { below = h.below; held = h.held; apart = h.apart }
Effect-IsSound t r _ (opened p free) h = opened-IsSound t p r free h
Effect-IsSound t r _ (wrote f position bytes found) h = wrote-IsSound t f position bytes r found h
Effect-IsSound t r _ completed h =
    removed-IsSound t r.disk r refl (λ q i e. e) (λ u f _ e. h.held u f e) h
Effect-IsSound t r _ not_deleted h =
    removed-IsSound t (next_call r.disk) r refl (λ q i e. e) (λ u f _ e. h.held u f e) h
Effect-IsSound t r _ (deleted f found) h =
    removed-IsSound t (without f.path (next_call r.disk)) r refl
      (λ q i e. (remove-some (r.disk.resolve f.path) q (file_at i) r.disk.names e).1)
      (λ u g differ e. ground (
        arith,
        h.held t f found,
        h.held u g e,
        h.apart t u f g differ found e,
        eq_iff (r.disk.resolve f.path) (r.disk.resolve g.path),
      ))
      h

-- Whatever messages arrive, of whatever transfers, if each offer gets a path where there is nothing,
-- then open files stay distinct files that stand at their paths, also when calls of the disk fail.
pub receive-IsSound :
    (ms : List FileTransferMessage) (r : FileReceiver)
    → AllFree ms r
    → IsSound r
    → IsSound (receive ms r)
unfolding receive
receive-IsSound [] r free h = h
receive-IsSound (m ∷ ms) r (free, rest) h =
    receive-IsSound ms _ rest (Effect-IsSound (transfer_of m) r _ (handle-Effect m r free) h)
