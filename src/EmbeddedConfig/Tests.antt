-- ===== src/EmbeddedConfig/Tests.antt =====
-- Runs of the search, and the theorems at concrete binaries.
use visuara.Prelude.{ℕ, ◌≡◌, refl, List, [], ◌∷◌, ◌++◌, some, length, take, drop, arith}
use visuara.EmbeddedConfig.Bytes.{find_subslice, zeroed}
use visuara.EmbeddedConfig.Patching.{find_in_binary-patch_binary}
use visuara.EmbeddedConfig.Refusals.{unpatched_build}
use visuara.EmbeddedConfig.{
  config_magic, config_slot_size, default_config, ok, err, parse, find_in_binary, patch_binary,
  startup_config,
}
use visuara.EmbeddedConfig.Samples.{encode, braces, template, template_marker, template_room}

find_in_binary-patch_binary_example :
    (patched : List ℕ) × (patch_binary braces default_config template ≡ ok patched)
    × (find_in_binary braces patched ≡ ok (some default_config))
    × (length patched ≡ length template)
    × (take 28 patched ≡ take 28 template)
    × (drop 4124 patched ≡ drop 4124 template)
unfolding encode braces
find_in_binary-patch_binary_example =
    find_in_binary-patch_binary braces default_config (b'{' ∷ b'}' ∷ []) template 1 template_marker
      template_room refl (omega arith)

unpatched_build_example :
    (find_in_binary braces (7 ∷ (config_magic ++ (zeroed config_slot_size ++ []))) ≡ err parse)
    × (startup_config braces (some (7 ∷ (config_magic ++ (zeroed config_slot_size ++ []))))
        ≡ default_config)
unfolding find_subslice
unpatched_build_example = unpatched_build braces (7 ∷ []) [] refl
