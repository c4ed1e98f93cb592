-- ===== src/EmbeddedConfig/Refusals.antt =====
-- When patching fails, and what an unpatched build reads (embedded_config.rs).
use visuara.Prelude.{
  ◌∙◌, [], ℕ, ◌+◌, ◌≤◌, ◌≡◌, ◌↔◌, List, ◌++◌, some, length, arith, inl, inr, Option-cases,
}
use visuara.EmbeddedConfig.Bytes.{find_subslice, zeroed, length-zeroed, before_nul-append_zeroed}
use visuara.EmbeddedConfig.Patching.{find_in_binary_slot, find_in_binary-patch_binary}
use visuara.EmbeddedConfig.{
  EmbeddedConfig, ConfigJson, config_magic, config_slot_size, ok, err, parse, to_slot_bytes,
  from_slot_bytes, find_in_binary, read_from_current_exe, patch_binary, startup_config,
  default_config,
}

module _ (codec : ConfigJson) where
  -- Patching succeeds exactly when the template has the marker, with the whole slot behind it, and
  -- the configuration's JSON exists and fits the slot.
  patch_binary-ok_iff :
      (c : EmbeddedConfig) (template : List ℕ)
      → ((patched : List ℕ) × (patch_binary codec c template ≡ ok patched)) ↔ (
          (pos : ℕ) × (json : List ℕ) × (find_subslice template config_magic ≡ some pos)
          × (pos + length config_magic + config_slot_size ≤ length template)
          × (codec.to_vec c ≡ some json)
          × (length json ≤ config_slot_size))
  unfolding patch_binary to_slot_bytes
  patch_binary-ok_iff c template = (only_if, if_so)
    where
      only_if :
          ((patched : List ℕ) × (patch_binary codec c template ≡ ok patched))
          → ((pos : ℕ) × (json : List ℕ) × (find_subslice template config_magic ≡ some pos)
              × (pos + length config_magic + config_slot_size ≤ length template)
              × (codec.to_vec c ≡ some json)
              × (length json ≤ config_slot_size))
      only_if (patched, e) = elim (Option-cases (find_subslice template config_magic)) [
        | inl none_found ↦ absurd (ground arith)
        | inr (pos, found) ↦ elim (Option-cases (codec.to_vec c)) [
          | inl no_json ↦ absurd (ground arith)
          | inr (json, enc) ↦ (pos, json, found, ground arith, enc, ground arith)
        ]
      ]

      if_so :
          ((pos : ℕ) × (json : List ℕ) × (find_subslice template config_magic ≡ some pos)
            × (pos + length config_magic + config_slot_size ≤ length template)
            × (codec.to_vec c ≡ some json)
            × (length json ≤ config_slot_size))
          → ((patched : List ℕ) × (patch_binary codec c template ≡ ok patched))
      if_so (pos, json, found, room, enc, fits) =
          let done = find_in_binary-patch_binary codec c json template pos found room enc fits in
          (done.0, done.1)

  -- An executable that was never patched has the marker with a slot of NUL bytes. Reading it is an
  -- error, not "no configuration", and the client then starts with the default configuration.
  pub unpatched_build :
      (b a : List ℕ)
      → find_subslice (b ++ (config_magic ++ (zeroed config_slot_size ++ a))) config_magic
        ≡ some (length b)
      → let exe = b ++ (config_magic ++ (zeroed config_slot_size ++ a)) in
        (find_in_binary codec exe ≡ err parse) × (startup_config codec (some exe) ≡ default_config)
  unfolding startup_config read_from_current_exe from_slot_bytes
  unpatched_build b a found = (refused, rw (refused, startup_config))
    where
      refused :
          find_in_binary codec (b ++ (config_magic ++ (zeroed config_slot_size ++ a))) ≡ err parse
      refused =
          find_in_binary_slot codec b (zeroed config_slot_size) a found
            (length-zeroed config_slot_size)
          ∙ rw (before_nul-append_zeroed [] config_slot_size tt, codec.from_slice-empty)
