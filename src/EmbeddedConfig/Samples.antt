-- ===== src/EmbeddedConfig/Samples.antt =====
-- A small JSON codec and a client binary with an empty slot, for tests.
use visuara.Prelude.{
  ℕ, ◌+◌, ◌≤◌, ◌≡◌, ◌≢◌, refl, List, [], ◌∷◌, ◌++◌, Option, some, none, String, length, All, arith,
  length-append,
}
use visuara.EmbeddedConfig.Bytes.{find_subslice, zeroed, length-zeroed}
use visuara.EmbeddedConfig.{
  EmbeddedConfig, ConfigJson, config_magic, config_slot_size, default_config,
}

-- It writes only the configuration with no value, as `{}`.
unfoldable pub encode : Option String → Option String → Option (List ℕ)
encode none none = some (b'{' ∷ b'}' ∷ [])
encode _ _ = none

unfoldable pub decode : List ℕ → Option EmbeddedConfig
decode [] = none
decode (b ∷ bs) = some default_config

pub decode-encode :
    (u d : Option String) (json : List ℕ)
    → encode u d ≡ some json
    → decode json ≡ some (record { server_url = u; device_name = d })
unfolding encode decode
decode-encode none none [] e = absurd (ground arith)
decode-encode none none (b ∷ bs) e = refl
decode-encode _ _ _ e = absurd (ground arith)

pub encode-no_nul :
    (u d : Option String) (json : List ℕ) → encode u d ≡ some json → All (λ b. b ≢ 0) json
unfolding encode
encode-no_nul none none [] e = tt
encode-no_nul none none (b ∷ []) e = absurd (ground arith)
encode-no_nul none none (b ∷ (c ∷ [])) e = ground arith
encode-no_nul none none (b ∷ (c ∷ (d ∷ r))) e = absurd (ground arith)
encode-no_nul _ _ _ e = absurd (ground arith)

unfoldable pub braces : ConfigJson
unfolding decode
braces = record {
  to_vec = λ c. encode c.server_url c.device_name;
  from_slice = decode;
  from_slice-to_vec = λ c. decode-encode c.server_url c.device_name;
  to_vec-no_nul = λ c. encode-no_nul c.server_url c.device_name;
  from_slice-empty = refl;
}

-- One byte of code, the marker with an empty slot, one byte of code.
unfoldable pub template : List ℕ
template = 7 ∷ (config_magic ++ (zeroed config_slot_size ++ 9 ∷ []))

pub template_marker : find_subslice template config_magic ≡ some 1
unfolding template find_subslice
template_marker = refl

pub template_room : 1 + length config_magic + config_slot_size ≤ length template
unfolding template
template_room =
    omega (arith, length-append (zeroed config_slot_size) (9 ∷ []), length-zeroed config_slot_size)
