-- ===== src/Client/Clipboard/Echo.antt =====
-- An update from the peer is not sent back, and a local change is sent once (clipboard_sync.rs).
use visuara.Prelude.{
  ◌≡◌, ◌≢◌, refl, inl, inr, Bool, true, false, List, [], ◌∷◌, All, String, str_eq, eq_iff,
  Bool-cases,
}
use visuara.Client.Clipboard.{Sync, Update, Turn, drain, look, turn, run}

-- The thread has seen what is on the clipboard, and has reported `r`.
abbrev Quiet : List String → Sync → Type 0
Quiet r s = (s.text ≡ s.last_seen) × (s.reported ≡ r)

abbrev pub Lands : Update → Type 0
Lands u = u.set_ok ≡ true

drain-Quiet :
    (r : List String) (us : List Update) (s : Sync)
    → All Lands us
    → Quiet r s
    → Quiet r (drain us s)
unfolding drain
drain-Quiet r [] s lands q = q
drain-Quiet r (u ∷ us) s (here, lands) (same, kept) = drain-Quiet r us _ lands (rw here, kept)

look-Quiet : (r : List String) (get_ok : Bool) (s : Sync) → Quiet r s → Quiet r (look get_ok s)
unfolding look
look-Quiet r false s q = q
look-Quiet r true s (same, kept) =
    let equal : str_eq s.text s.last_seen ≡ true = (eq_iff s.text s.last_seen).1 same in
    rw (equal, look) (same, kept)

turns-Quiet :
    (r : List String) (ts : List Turn) (s : Sync)
    → All (λ t. All Lands t.updates) ts
    → Quiet r s
    → Quiet r (run ts s)
unfolding run turn
turns-Quiet r [] s lands q = q
turns-Quiet r (t ∷ ts) s (here, lands) q =
    turns-Quiet r ts (turn t s) lands (look-Quiet r t.get_ok _ (drain-Quiet r t.updates s here q))

-- While nobody changes the clipboard here, whatever updates arrive from the peer and whichever reads of
-- the clipboard fail, the thread reports nothing, and the clipboard is what it saw last, provided that
-- this holds at first and every write to the clipboard succeeds.
pub run-Quiet :
    (ts : List Turn) (s : Sync)
    → All (λ t. All Lands t.updates) ts
    → s.text ≡ s.last_seen
    → ((run ts s).text ≡ (run ts s).last_seen) × ((run ts s).reported ≡ s.reported)
run-Quiet ts s lands same = turns-Quiet s.reported ts s lands (same, refl)

changed : (a b : String) → a ≢ b → str_eq a b ≡ false
changed a b ne = elim (Bool-cases (str_eq a b)) [
  | inl same ↦ absurd (ne ((eq_iff a b).0 same))
  | inr apart ↦ apart
]

-- A change of the clipboard here is reported exactly once: the next turn that reads the clipboard, with
-- no update from the peer before it, reports it, and later turns report nothing more, as long as every
-- write of an update to the clipboard succeeds and nobody changes it again.
run-changed :
    (text : String) (ts : List Turn) (s : Sync)
    → text ≢ s.last_seen
    → All (λ t. All Lands t.updates) ts
    → (run (record { updates = []; get_ok = true } ∷ ts) (record s { text = text })).reported
      ≡ text ∷ s.reported
unfolding run turn drain look
run-changed text ts s new lands =
    (turns-Quiet (text ∷ s.reported) ts
      (turn (record { updates = []; get_ok = true }) (record s { text = text })) lands
      (rw (changed text s.last_seen new, turn, look) (refl, refl))).1

-- When writing an update to the clipboard fails, the next read finds the old text, takes it for a
-- change made here, and sends it back to the peer.
turn-echo :
    (remote : String) (s : Sync)
    → s.text ≢ remote
    → (turn
        (record { updates = record { remote = remote; set_ok = false } ∷ []; get_ok = true })
        s).reported
      ≡ s.text ∷ s.reported
unfolding turn drain look
turn-echo remote s differs = rw (changed s.text remote differs, turn, look)
