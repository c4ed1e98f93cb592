-- ===== src/Client/FileTransfer/Sent.antt =====
-- The chunks of a file and the messages that go out (`send_file`).
use visuara.Prelude.{
  ℕ, zero, suc, ◌≡◌, ◌≤◌, refl, sym, ap, ◌∙◌, arith, Bool, true, false, some, List, [], ◌∷◌, map,
  String, length, drop, length-drop, take-append-drop,
}
use visuara.Control.{FileTransferMessage, ControlMessage, file}
use visuara.Client.FileTransfer.{chunks_from, chunks, file_messages, send_each, send_file}
use visuara.Client.FileTransfer.Received.{concat, tail_eq}

chunks_from-concat :
    (fuel n : ℕ) (bytes : List ℕ)
    → 1 ≤ n
    → length bytes ≤ fuel
    → concat (chunks_from fuel n bytes) ≡ bytes
unfolding chunks_from
chunks_from-concat zero n [] h k = refl
chunks_from-concat zero n (b ∷ bytes) h k = absurd (omega arith)
chunks_from-concat (suc fuel) n [] h k = refl
chunks_from-concat (suc fuel) n (b ∷ bytes) h k =
    rw (chunks_from-concat fuel n (drop n (b ∷ bytes)) h (omega (arith, length-drop n (b ∷ bytes))))
      (take-append-drop n (b ∷ bytes))

-- The chunks put one after the other are the bytes.
pub chunks-concat : (n : ℕ) (bytes : List ℕ) → 1 ≤ n → concat (chunks n bytes) ≡ bytes
unfolding chunks
chunks-concat n bytes h = chunks_from-concat (length bytes) n bytes h (omega arith)

send_each-whole :
    (outcomes : List Bool) (ms : List ControlMessage)
    → (send_each outcomes ms).1 ≡ true
    → (send_each outcomes ms).0 ≡ ms
unfolding send_each
send_each-whole outcomes [] e = refl
send_each-whole [] (m ∷ ms) e = ap (◌∷◌ m) (send_each-whole [] ms e)
send_each-whole (true ∷ outcomes) (m ∷ ms) e = ap (◌∷◌ m) (send_each-whole outcomes ms e)
send_each-whole (false ∷ outcomes) (m ∷ ms) e = absurd (ground arith)

map-file_injective : (xs ys : List FileTransferMessage) → map file xs ≡ map file ys → xs ≡ ys
map-file_injective [] [] e = refl
map-file_injective [] (y ∷ ys) e = absurd (ground arith)
map-file_injective (x ∷ xs) [] e = absurd (ground arith)
map-file_injective (x ∷ xs) (y ∷ ys) e =
    let same : x ≡ y = ground arith in rw (same, map-file_injective xs ys (tail_eq e))

-- A send that succeeds has sent all the messages of the file.
pub send_file-whole :
    (bytes : List ℕ) (path t : String) (outcomes : List Bool) (sent : List FileTransferMessage)
    → send_file (some bytes) path t outcomes ≡ (map file sent, true)
    → sent ≡ file_messages t path bytes
unfolding send_file
send_file-whole bytes path t outcomes sent e =
    map-file_injective sent (file_messages t path bytes)
      (sym (ap (λ x. x.0) e) ∙ send_each-whole outcomes _ (ap (λ x. x.1) e))
