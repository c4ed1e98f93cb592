-- ===== src/Client/FileTransfer/Pieces.antt =====
-- Which message goes out at which place (`send_file`).
use mathlib.Core.Option
use native.Mathlib.Nat.{zero-mul}
use visuara.Prelude.{
  ℕ, zero, suc, ◌+◌, ◌*◌, ◌%◌, ◌^◌, ◌≡◌, ◌≤◌, refl, sym, ap, ◌∙◌, arith, Bool, true, false, ltb,
  Option, none, some, List, [], ◌∷◌, ◌++◌, map, String, length, take, drop, length-drop,
  if◌then◌else◌, Bool-cases, inl, inr, unwrap_or, drop_all,
}
use visuara.Control.{FileTransferMessage, offer, complete, chunk, ControlMessage, file}
use visuara.Client.Paths.{path_file_name}
use visuara.Client.FileTransfer.{
  chunk_size, chunks_from, chunks, chunk_messages, file_messages, send_each, send_file,
}

abbrev pub get_elem? {ℓ} : {A : Type ℓ} → List A → ℕ → Option A
get_elem? [] i = none
get_elem? (x ∷ xs) zero = some x
get_elem? (x ∷ xs) (suc i) = get_elem? xs i

-- Whether the sends up to the i-th all succeed.
abbrev pub goes_out : List Bool → ℕ → Bool
goes_out [] i = true
goes_out (false ∷ outcomes) i = false
goes_out (true ∷ outcomes) zero = true
goes_out (true ∷ outcomes) (suc i) = goes_out outcomes i

-- Whether every piece before the i-th has a byte of the file.
abbrev begins : ℕ → List ℕ → ℕ → Bool
begins n bytes zero = true
begins n bytes (suc i) = ltb (i * n) (length bytes)

-- After the offer: the i-th piece of n bytes, as far as the file goes, numbered by a u32 from k on; then
-- the end; then nothing.
pub piece : String → ℕ → ℕ → List ℕ → ℕ → Option FileTransferMessage
piece t n k bytes i =
    if ltb (i * n) (length bytes)
    then some (chunk t ((k + i) % 2 ^ 32) (take n (drop (i * n) bytes)))
    else if begins n bytes i
    then some (complete t)
    else none

-- The i-th message of a file.
pub expected : String → String → List ℕ → ℕ → Option FileTransferMessage
expected t path bytes zero = some (offer t (unwrap_or (path_file_name path) "file") (length bytes))
expected t path bytes (suc i) = piece t chunk_size 0 bytes i

drop-drop : (m n : ℕ) (xs : List ℕ) → drop m (drop n xs) ≡ drop (n + m) xs
drop-drop m zero xs = ap (λ k. drop k xs) (omega arith)
drop-drop m (suc n) [] = drop_all m [] (omega arith) ∙ sym (drop_all (suc n + m) [] (omega arith))
drop-drop m (suc n) (x ∷ xs) = drop-drop m n xs ∙ ap (λ k. drop k (x ∷ xs)) (the_same n m)
  where
    the_same : (a c : ℕ) → suc (a + c) ≡ suc a + c
    the_same a c = omega arith

next_place : (i n : ℕ) → suc i * n ≡ n + i * n
next_place i n = omega arith

ltb-drop : (n p : ℕ) (bytes : List ℕ) → ltb p (length (drop n bytes)) ≡ ltb (n + p) (length bytes)
ltb-drop n p bytes = ground (arith, length-drop n bytes)

sent_at :
    (outcomes : List Bool) (ms : List ControlMessage) (i : ℕ)
    → get_elem? (send_each outcomes ms).0 i ≡ (if goes_out outcomes i then get_elem? ms i else none)
unfolding send_each
sent_at [] [] i = refl
sent_at (true ∷ outcomes) [] zero = refl
sent_at (true ∷ outcomes) [] (suc i) = elim (Bool-cases (goes_out outcomes i)) [
  | inl out ↦ rw (out)
  | inr failed ↦ rw (failed)
]
sent_at (false ∷ outcomes) [] i = refl
sent_at [] (m ∷ ms) zero = refl
sent_at [] (m ∷ ms) (suc i) = sent_at [] ms i
sent_at (true ∷ outcomes) (m ∷ ms) zero = refl
sent_at (true ∷ outcomes) (m ∷ ms) (suc i) = sent_at outcomes ms i
sent_at (false ∷ outcomes) (m ∷ ms) i = refl

get_elem?-map :
    (ms : List FileTransferMessage) (i : ℕ)
    → get_elem? (map file ms) i ≡ Option.map file (get_elem? ms i)
get_elem?-map [] i = refl
get_elem?-map (m ∷ ms) zero = refl
get_elem?-map (m ∷ ms) (suc i) = get_elem?-map ms i

-- One piece further on is the same piece of the rest.
piece-drop :
    (t : String) (n k : ℕ) (bytes : List ℕ) (i : ℕ)
    → 1 ≤ length bytes
    → piece t n (k + 1) (drop n bytes) i ≡ piece t n k bytes (suc i)
unfolding piece
piece-drop t n k bytes i some_bytes =
    rw (place, next_place i n, number, drop-drop (i * n) n bytes, begun i)
  where
    place : ltb (i * n) (length (drop n bytes)) ≡ ltb (n + i * n) (length bytes)
    place = ltb-drop n (i * n) bytes

    number : k + 1 + i ≡ k + suc i
    number = omega arith

    begun : (j : ℕ) → begins n (drop n bytes) j ≡ ltb (j * n) (length bytes)
    begun zero = sym (ground (arith, zero-mul n))
    begun (suc j) = ltb-drop n (j * n) bytes ∙ ap (λ p. ltb p (length bytes)) (sym (next_place j n))

below_nothing : (p : ℕ) → ltb p 0 ≡ false
below_nothing p = ground arith

no_pieces : (t : String) (n k i : ℕ) → get_elem? (complete t ∷ []) i ≡ piece t n k [] i
unfolding piece
no_pieces t n k zero = rw (below_nothing (0 * n))
no_pieces t n k (suc i) = rw (below_nothing (suc i * n), below_nothing (i * n))

first_piece :
    (t : String) (n k b : ℕ) (bytes : List ℕ)
    → some (chunk t (k % 2 ^ 32) (take n (b ∷ bytes))) ≡ piece t n k (b ∷ bytes) 0
unfolding piece
first_piece t n k b bytes = rw (zero-mul n, starts, no_more)
  where
    starts : ltb 0 (suc (length bytes)) ≡ true
    starts = ground arith

    no_more : k + 0 ≡ k
    no_more = omega arith

pieces :
    (fuel n k : ℕ) (t : String) (bytes : List ℕ) (i : ℕ)
    → 1 ≤ n
    → length bytes ≤ fuel
    → get_elem? (chunk_messages t k (chunks_from fuel n bytes) ++ complete t ∷ []) i
      ≡ piece t n k bytes i
unfolding chunk_messages chunks_from piece
pieces zero n k t (b ∷ bytes) i h fits = absurd (omega arith)
pieces zero n k t [] i h fits = no_pieces t n k i
pieces (suc fuel) n k t [] i h fits = no_pieces t n k i
pieces (suc fuel) n k t (b ∷ bytes) zero h fits = first_piece t n k b bytes
pieces (suc fuel) n k t (b ∷ bytes) (suc i) h fits =
    pieces fuel n (k + 1) t (drop n (b ∷ bytes)) i h (omega (arith, length-drop n (b ∷ bytes)))
    ∙ piece-drop t n k (b ∷ bytes) i (omega arith)

-- Whatever file is sent and whichever sends fail, the i-th message that goes out is the one due there,
-- if no send up to it fails, and there is none otherwise: first the offer, with the file's name and its
-- length, then the pieces of chunk_size bytes in their order, the last with what is left, each numbered
-- by its place as a u32, then the end, and nothing after it.
pub send_file-expected :
    (bytes : List ℕ) (path t : String) (outcomes : List Bool) (i : ℕ)
    → get_elem? (send_file (some bytes) path t outcomes).0 i
      ≡ (if goes_out outcomes i then Option.map file (expected t path bytes i) else none)
unfolding send_file file_messages chunks expected
send_file-expected bytes path t outcomes i =
    sent_at outcomes (map file (file_messages t path bytes)) i
    ∙ ap (λ o. if goes_out outcomes i then o else none)
        (get_elem?-map (file_messages t path bytes) i ∙ ap (Option.map file) (due i))
  where
    due : (j : ℕ) → get_elem? (file_messages t path bytes) j ≡ expected t path bytes j
    due zero = refl
    due (suc j) = pieces (length bytes) chunk_size 0 t bytes j (omega arith) (omega arith)
