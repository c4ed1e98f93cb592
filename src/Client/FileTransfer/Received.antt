-- ===== src/Client/FileTransfer/Received.antt =====
-- What the host receives of a file is the file that was sent (file_transfer.rs).
use mathlib.Core.List.{append_assoc}
use visuara.Prelude.{
  ℕ, ◌+◌, ◌%◌, ◌^◌, ◌≡◌, ◌≢◌, ◌⊎◌, inl, inr, refl, sym, ◌∙◌, ap, subst, arith, Bool, true, some,
  List, [], ◌∷◌, ◌++◌, All, String, str_eq, eq_iff, eq_refl, ==_iff, Bool-cases, filter, length,
  append_nil, length-append,
}
use visuara.Control.{FileTransferMessage, chunk, complete}
use visuara.Client.Disk.{next_call}
use visuara.Client.Disk.Calls.{next_call_steady, overwrite_end, write_all_steady}
use visuara.Client.FileTransfer.{FileReceiver, handle, receive, chunk_messages, on_chunk, chunk_for}
use visuara.Client.FileTransfer.Effects.{
  Effect, ignored, not_opened, opened, wrote, completed, not_deleted, deleted, transfer_of,
  handle-Effect,
}
use visuara.Client.FileTransfer.Soundness.{AllFree, remove-some}
use visuara.Client.FileTransfer.Aside.{IsAside, Effect-IsAside, receive-IsAside, Effect-resolve}

abbrev pub of_transfer : String → FileTransferMessage → Bool
of_transfer t m = str_eq (transfer_of m) t

-- The transfer `t` has the file `i` open at its end, the file stands at `p`, which resolves to `q`,
-- and holds `bytes`, and no call of the disk is going to fail.
pub record IsWriting (t p q : String) (i : ℕ) (bytes : List ℕ) (r : FileReceiver) : Type 0 where
  pub steady : r.disk.failures ≡ []
  pub current : r.in_progress t ≡ some (record { path = p; number = i; position = length bytes })
  pub resolves : r.disk.resolve p ≡ q
  pub aside : IsAside (λ u. u ≢ t) q i bytes r

Effect-steady :
    (t : String) (r r' : FileReceiver)
    → Effect t r r'
    → r.disk.failures ≡ []
    → r'.disk.failures ≡ []
Effect-steady t r _ ignored e = e
Effect-steady t r _ not_opened e = next_call_steady r.disk e
Effect-steady t r _ (opened p free) e = next_call_steady r.disk e
Effect-steady t r _ (wrote f position bytes found) e = next_call_steady r.disk e
Effect-steady t r _ completed e = e
Effect-steady t r _ not_deleted e = next_call_steady r.disk e
Effect-steady t r _ (deleted f found) e = next_call_steady r.disk e

Effect-other :
    (u t : String) (r r' : FileReceiver)
    → Effect u r r'
    → u ≢ t
    → r'.in_progress t ≡ r.in_progress t
Effect-other u t r _ ignored o = refl
Effect-other u t r _ not_opened o = refl
Effect-other u t r _ (opened p free) o = ground (arith, eq_iff u t)
Effect-other u t r _ (wrote f position bytes found) o = ground (arith, eq_iff u t)
Effect-other u t r _ completed o = ground (arith, eq_iff u t)
Effect-other u t r _ not_deleted o = ground (arith, eq_iff u t)
Effect-other u t r _ (deleted f found) o = ground (arith, eq_iff u t)

-- A message of another transfer.
other-IsWriting :
    (t p q : String) (i : ℕ) (bytes : List ℕ) (u : String) (r r' : FileReceiver)
    → Effect u r r'
    → u ≢ t
    → IsWriting t p q i bytes r
    → IsWriting t p q i bytes r'
other-IsWriting t p q i bytes u r r' effect other h = record {
  steady = Effect-steady u r r' effect h.steady;
  current = Effect-other u t r r' effect other ∙ h.current;
  resolves = ap (λ f. f p) (Effect-resolve u r r' effect) ∙ h.resolves;
  aside = Effect-IsAside (λ v. v ≢ t) q i bytes u r r' effect other h.aside;
}

-- A chunk of the transfer.
chunk-IsWriting :
    (t p q : String) (i : ℕ) (bytes new : List ℕ) (r : FileReceiver)
    → IsWriting t p q i bytes r
    → IsWriting t p q i (bytes ++ new) (on_chunk t new r).1
unfolding on_chunk chunk_for next_call
chunk-IsWriting t p q i bytes new r h =
    let end : length bytes + length new ≡ length (bytes ++ new) = sym (length-append bytes new) in
    rw
      (
        h.current,
        chunk_for,
        write_all_steady (record { path = p; number = i; position = length bytes }) new r.disk
            h.steady,
        end,
        h.aside.holds,
        overwrite_end bytes new,
      )
      (record {
        steady = next_call_steady r.disk h.steady;
        current = ground (arith, eq_refl t);
        resolves = h.resolves;
        aside = record {
          named = h.aside.named;
          holds = ground (arith, ==_iff i i);
          known = h.aside.known;
          others = λ u f differ found. h.aside.others u f differ (ground (arith, eq_iff t u));
        };
      })

abbrev pub concat : List (List ℕ) → List ℕ
concat [] = []
concat (c ∷ cs) = c ++ concat cs

pub head_eq : {A : Type 0} {x y : A} {xs ys : List A} → x ∷ xs ≡ y ∷ ys → x ≡ y
head_eq e = ground arith

pub tail_eq : {A : Type 0} {x y : A} {xs ys : List A} → x ∷ xs ≡ y ∷ ys → xs ≡ ys
tail_eq e = ground arith

-- What is left of a transfer after `sequence` chunks.
abbrev pub remaining : String → ℕ → List (List ℕ) → List FileTransferMessage
remaining t sequence cs = chunk_messages t sequence cs ++ complete t ∷ []

-- No message of the transfer is left.
no_more_own :
    (t : String) (ms : List FileTransferMessage)
    → filter (of_transfer t) ms ≡ []
    → All (λ m. transfer_of m ≢ t) ms
unfolding filter
no_more_own t [] e = tt
no_more_own t (m ∷ ms) e = elim (Bool-cases (of_transfer t m)) [
  | inl same ↦ absurd (ground arith)
  | inr other ↦ (λ same. ground (arith, eq_iff (transfer_of m) t), no_more_own t ms (ground arith))
]

finish :
    (t p q : String) (i : ℕ) (bytes : List ℕ) (ms : List FileTransferMessage) (r : FileReceiver)
    → AllFree (complete t ∷ ms) r
    → filter (of_transfer t) ms ≡ []
    → IsWriting t p q i bytes r
    → IsAside (λ u. u ≢ t) q i bytes (receive (complete t ∷ ms) r)
unfolding receive handle
finish t p q i bytes ms r (_, free) e h =
    receive-IsAside (λ u. u ≢ t) q i bytes ms _ (no_more_own t ms e) free
      (record {
        named = h.aside.named;
        holds = h.aside.holds;
        known = h.aside.known;
        others =
            λ u f differ found. h.aside.others u f differ (remove-some t u f r.in_progress found).1;
      })

-- The next message of the transfer is the one that is due.
next_message :
    (t : String) (sequence : ℕ) (cs : List (List ℕ)) (m : FileTransferMessage)
    (ms : List FileTransferMessage)
    → m ∷ ms ≡ remaining t sequence cs
    → ((m ≡ complete t) × (cs ≡ []) × (ms ≡ []))
      ⊎ ((c : List ℕ) × (cs' : List (List ℕ)) × (cs ≡ c ∷ cs')
          × (m ≡ chunk t (sequence % 2 ^ 32) c)
          × (ms ≡ remaining t (sequence + 1) cs'))
unfolding chunk_messages
next_message t sequence [] m ms e = inl (head_eq e, refl, tail_eq e)
next_message t sequence (c ∷ cs) m ms e = inr (c, cs, refl, head_eq e, tail_eq e)

pub taken :
    (t : String) (m : FileTransferMessage) (ms : List FileTransferMessage)
    → of_transfer t m ≡ true
    → filter (of_transfer t) (m ∷ ms) ≡ m ∷ filter (of_transfer t) ms
unfolding filter
taken t m ms same = rw (same)

unfinished : (t : String) (sequence : ℕ) (cs : List (List ℕ)) → [] ≢ remaining t sequence cs
unfolding chunk_messages
unfinished t sequence [] e = ground arith
unfinished t sequence (c ∷ cs) e = ground arith

-- A message of the transfer itself, when the messages after it are dealt with.
own_message :
    (t p q : String) (i : ℕ) (bytes : List ℕ) (sequence : ℕ) (cs : List (List ℕ))
    (m : FileTransferMessage) (ms : List FileTransferMessage) (r : FileReceiver)
    → ((later : List ℕ) (cs' : List (List ℕ)) (r' : FileReceiver)
        → AllFree ms r'
        → filter (of_transfer t) ms ≡ remaining t (sequence + 1) cs'
        → IsWriting t p q i later r'
        → IsAside (λ u. u ≢ t) q i (later ++ concat cs') (receive ms r'))
    → AllFree (m ∷ ms) r
    → m ∷ filter (of_transfer t) ms ≡ remaining t sequence cs
    → IsWriting t p q i bytes r
    → IsAside (λ u. u ≢ t) q i (bytes ++ concat cs) (receive (m ∷ ms) r)
unfolding receive handle
own_message t p q i bytes sequence cs m ms r go free e h =
    elim (next_message t sequence cs m (filter (of_transfer t) ms) e) [
      | inl end ↦
          let (last, none_left, rest) = end in
          rw (none_left, append_nil bytes)
            (subst (λ x. AllFree (x ∷ ms) r → IsAside (λ u. u ≢ t) q i bytes (receive (x ∷ ms) r))
              (sym last) (λ f. finish t p q i bytes ms r f rest h) free)
      | inr due ↦
          let (c, cs', split, chunk_due, rest) = due in
          rw (split, ← append_assoc bytes c (concat cs'))
            (subst
              (λ x.
                AllFree (x ∷ ms) r
                → IsAside (λ u. u ≢ t) q i (bytes ++ c ++ concat cs') (receive (x ∷ ms) r))
              (sym chunk_due)
              (λ f.
                go (bytes ++ c) cs' (on_chunk t c r).1 f.1 rest
                  (chunk-IsWriting t p q i bytes c r h))
              free)
    ]

pub receive_rest :
    (t p q : String) (i : ℕ) (bytes : List ℕ) (sequence : ℕ) (cs : List (List ℕ))
    (ms : List FileTransferMessage) (r : FileReceiver)
    → AllFree ms r
    → filter (of_transfer t) ms ≡ remaining t sequence cs
    → IsWriting t p q i bytes r
    → IsAside (λ u. u ≢ t) q i (bytes ++ concat cs) (receive ms r)
unfolding receive filter
receive_rest t p q i bytes sequence cs [] r free e h = absurd (unfinished t sequence cs e)
receive_rest t p q i bytes sequence cs (m ∷ ms) r (here, free) e h =
    elim (Bool-cases (of_transfer t m)) [
      | inr other ↦ receive_rest t p q i bytes sequence cs ms (handle m r).1 free (ground arith) (
          other-IsWriting t p q i bytes (transfer_of m) r _ (handle-Effect m r here)
            (λ same. ground (arith, eq_iff (transfer_of m) t)) h)
      | inl same ↦
          own_message t p q i bytes sequence cs m ms r
            (λ later cs' r' f e' h'. receive_rest t p q i later (sequence + 1) cs' ms r' f e' h')
            (here, free) (sym (taken t m ms same) ∙ e) h
    ]
