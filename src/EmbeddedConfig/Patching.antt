-- ===== src/EmbeddedConfig/Patching.antt =====
-- Patching a client binary and reading the configuration back (embedded_config.rs).
use mathlib.Core.List.{append_assoc}
use visuara.Prelude.{
  ℕ, ◌+◌, ◌-◌, ◌≤◌, ◌≡◌, refl, ap, sym, ◌∙◌, List, ◌++◌, some, length, take, drop, arith,
  length-append, length-drop, drop-append_add, take-append_length, drop-append_length, min,
}
use visuara.EmbeddedConfig.Bytes.{
  find_subslice, copy_into, copy_into-append, zeroed, drop-zeroed, before_nul-append_zeroed,
  length-zeroed,
}
use visuara.EmbeddedConfig.Search.{find_subslice_sound, find_subslice_stable}
use visuara.EmbeddedConfig.{
  EmbeddedConfig, ConfigJson, config_magic, config_slot_size, ok, to_slot_bytes, from_slot_bytes,
  find_in_binary, patch_binary, ◌>>=◌,
}

module _ (codec : ConfigJson) where
  to_slot_bytes_fits :
      (c : EmbeddedConfig) (json : List ℕ)
      → codec.to_vec c ≡ some json
      → length json ≤ config_slot_size
      → to_slot_bytes codec c ≡ ok (json ++ zeroed (config_slot_size - length json))
  unfolding to_slot_bytes copy_into
  to_slot_bytes_fits c json e h = rw e (
      ground (
        arith,
        drop-zeroed (0 + length json) config_slot_size (config_slot_size - length json)
            (omega arith),
      ))

  length-slot :
      (json : List ℕ)
      → length json ≤ config_slot_size
      → length (json ++ zeroed (config_slot_size - length json)) ≡ config_slot_size
  length-slot json h = omega (
    arith,
    length-append json (zeroed (config_slot_size - length json)),
    length-zeroed (config_slot_size - length json),
  )

  pub find_in_binary_slot :
      (b slot a : List ℕ)
      → find_subslice (b ++ (config_magic ++ (slot ++ a))) config_magic ≡ some (length b)
      → length slot ≡ config_slot_size
      → find_in_binary codec (b ++ (config_magic ++ (slot ++ a)))
        ≡ (from_slot_bytes codec slot >>= λ c. ok (some c))
  unfolding find_in_binary
  find_in_binary_slot b slot a e h = ground (arith, e, ends, skipped, kept)
    where
      whole : List ℕ
      whole = b ++ (config_magic ++ (slot ++ a))

      start : ℕ
      start = length b + length config_magic

      ends : min (start + config_slot_size) (length whole) ≡ start + config_slot_size
      ends = omega (
        arith,
        length-append b (config_magic ++ (slot ++ a)),
        length-append config_magic (slot ++ a),
        length-append slot a,
      )

      skipped : drop start whole ≡ slot ++ a
      skipped = drop-append_add (length b) (length config_magic) b _ refl

      kept : take (start + config_slot_size - start) (slot ++ a) ≡ slot
      kept = take-append_length _ slot a (omega arith)

  patch_binary_split :
      (c : EmbeddedConfig) (json b r : List ℕ)
      → find_subslice (b ++ (config_magic ++ r)) config_magic ≡ some (length b)
      → config_slot_size ≤ length r
      → codec.to_vec c ≡ some json
      → length json ≤ config_slot_size
      → let slot = json ++ zeroed (config_slot_size - length json) in
        patch_binary codec c (b ++ (config_magic ++ r))
        ≡ ok (b ++ (config_magic ++ (slot ++ drop config_slot_size r)))
  unfolding patch_binary
  patch_binary_split c json b r e room enc fits = ground (
    arith,
    e,
    to_slot_bytes_fits c json enc fits,
    length-slot json fits,
    copied,
    length-append b (config_magic ++ r),
  )
    where
      slot : List ℕ
      slot = json ++ zeroed (config_slot_size - length json)

      copied :
          copy_into (b ++ (config_magic ++ r)) (length b + length config_magic) slot
          ≡ b ++ (config_magic ++ (slot ++ drop config_slot_size r))
      copied =
          copy_into-append b config_magic r slot
          ∙ ap (λ n. b ++ (config_magic ++ (slot ++ drop n r))) (length-slot json fits)

  find_in_binary_patched :
      (c : EmbeddedConfig) (json b a r : List ℕ)
      → find_subslice (b ++ (config_magic ++ r)) config_magic ≡ some (length b)
      → codec.to_vec c ≡ some json
      → length json ≤ config_slot_size
      → let slot = json ++ zeroed (config_slot_size - length json) in
        find_in_binary codec (b ++ (config_magic ++ (slot ++ a))) ≡ ok (some c)
  unfolding from_slot_bytes
  find_in_binary_patched c json b a r e enc fits =
      rw
        (find_in_binary_slot b _ a (find_subslice_stable b config_magic r _ (omega arith) e)
          (length-slot json fits))
        (rw (
          before_nul-append_zeroed json _ (codec.to_vec-no_nul c json enc),
          codec.from_slice-to_vec c json enc,
        ))

  Patches : EmbeddedConfig → List ℕ → ℕ → Type 0
  Patches c template pos =
      let start = pos + length config_magic in
      (patched : List ℕ) × (patch_binary codec c template ≡ ok patched)
      × (find_in_binary codec patched ≡ ok (some c))
      × (length patched ≡ length template)
      × (take start patched ≡ take start template)
      × (drop (start + config_slot_size) patched ≡ drop (start + config_slot_size) template)

  Patches-split :
      (c : EmbeddedConfig) (json b r : List ℕ)
      → find_subslice (b ++ (config_magic ++ r)) config_magic ≡ some (length b)
      → config_slot_size ≤ length r
      → codec.to_vec c ≡ some json
      → length json ≤ config_slot_size
      → Patches c (b ++ (config_magic ++ r)) (length b)
  unfolding Patches
  Patches-split c json b r found room enc fits = (
    b ++ (config_magic ++ (slot ++ drop config_slot_size r)),
    patch_binary_split c json b r found room enc fits,
    find_in_binary_patched c json b _ r found enc fits,
    omega (
      arith,
      length-append b (config_magic ++ (slot ++ drop config_slot_size r)),
      length-append b (config_magic ++ r),
      length-append slot (drop config_slot_size r),
      length-drop config_slot_size r,
      size,
    ),
    same_front (slot ++ drop config_slot_size r) ∙ sym (same_front r),
    tail_of (slot ++ drop config_slot_size r)
        ∙ drop-append_length config_slot_size slot _ (sym size)
        ∙ sym (tail_of r),
  )
    where
      slot : List ℕ
      slot = json ++ zeroed (config_slot_size - length json)

      size : length slot ≡ config_slot_size
      size = length-slot json fits

      same_front :
          (x : List ℕ)
          → take (length b + length config_magic) (b ++ (config_magic ++ x)) ≡ b ++ config_magic
      same_front x =
          rw (← append_assoc b config_magic x) (
            take-append_length _ (b ++ config_magic) x
              (omega (arith, length-append b config_magic)))

      tail_of :
          (x : List ℕ)
          → drop (length b + length config_magic + config_slot_size) (b ++ (config_magic ++ x))
            ≡ drop config_slot_size x
      tail_of x = rw (← append_assoc b config_magic x) (
          drop-append_add (length b + length config_magic) config_slot_size (b ++ config_magic) x
            (omega (arith, length-append b config_magic)))

  Patches-at :
      (c : EmbeddedConfig) (json b r template : List ℕ) (pos : ℕ)
      → length b ≡ pos
      → template ≡ b ++ (config_magic ++ r)
      → find_subslice template config_magic ≡ some pos
      → pos + length config_magic + config_slot_size ≤ length template
      → codec.to_vec c ≡ some json
      → length json ≤ config_slot_size
      → Patches c template pos
  Patches-at c json b r template pos size split found room enc fits =
      rw (split, ← size)
        (Patches-split c json b r (rw (split, ← size) at found)
          (omega (arith, length-append b (config_magic ++ r), ap length split)) enc fits)

  -- Where a template has the marker and room for the slot, and the configuration's JSON fits it,
  -- patching succeeds and the patched file gives the same configuration back. Patching keeps the
  -- template's length, and every byte up to the slot and behind it.
  pub find_in_binary-patch_binary :
      (c : EmbeddedConfig) (json template : List ℕ) (pos : ℕ)
      → find_subslice template config_magic ≡ some pos
      → pos + length config_magic + config_slot_size ≤ length template
      → codec.to_vec c ≡ some json
      → length json ≤ config_slot_size
      → let start = pos + length config_magic in
        (patched : List ℕ) × (patch_binary codec c template ≡ ok patched)
        × (find_in_binary codec patched ≡ ok (some c))
        × (length patched ≡ length template)
        × (take start patched ≡ take start template)
        × (drop (start + config_slot_size) patched ≡ drop (start + config_slot_size) template)
  unfolding Patches
  find_in_binary-patch_binary c json template pos found room enc fits =
      let (b, r, size, split) = find_subslice_sound template config_magic pos found in
      Patches-at c json b r template pos size split found room enc fits
