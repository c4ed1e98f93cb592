-- ===== src/EmbeddedConfig.antt =====
-- visuara-common/src/embedded_config.rs: the configuration that the server writes into a fixed
-- slot of a client binary, and that the client reads back from its own executable.
-- A byte is a number; a file is the list of its bytes. serde_json is the parameter `ConfigJson`.
pub mod Bytes
pub mod Search
pub mod Patching
pub mod Refusals
pub mod Samples
mod Tests
use mathlib.Core.Option
use visuara.Prelude.{
  ℕ, zero, suc, ◌+◌, ◌-◌, ◌≡◌, ◌≢◌, Bool, List, [], ◌∷◌, ◌++◌, Option, none, some, String, length,
  take, drop, All, leb, ◌==◌, if◌then◌else◌, min,
}
use visuara.EmbeddedConfig.Bytes.{find_subslice, copy_into, zeroed, before_nul}

-- b"VISUARA_EMBEDDED_CONFIG_V1\0"
abbrev pub config_magic : List ℕ
config_magic =
    b'V' ∷ b'I' ∷ b'S' ∷ b'U' ∷ b'A' ∷ b'R' ∷ b'A' ∷ b'_' ∷ b'E' ∷ b'M' ∷ b'B' ∷ b'E' ∷ b'D' ∷ b'D'
    ∷ b'E' ∷ b'D' ∷ b'_' ∷ b'C' ∷ b'O' ∷ b'N' ∷ b'F' ∷ b'I' ∷ b'G' ∷ b'_' ∷ b'V' ∷ b'1' ∷ 0 ∷ []

abbrev pub config_slot_size : ℕ
config_slot_size = 4096

pub record EmbeddedConfig : Type 0 where
  pub server_url : Option String
  pub device_name : Option String

-- `EmbeddedConfig::default()`
abbrev pub default_config : EmbeddedConfig
default_config = record { server_url = none; device_name = none }

-- What the code relies on in serde_json: writing and reading are inverse, control characters are
-- escaped in the output, and the empty input is no JSON text.
pub record ConfigJson : Type 0 where
  pub to_vec : EmbeddedConfig → Option (List ℕ)
  pub from_slice : List ℕ → Option EmbeddedConfig
  pub from_slice-to_vec :
      (c : EmbeddedConfig) (json : List ℕ) → to_vec c ≡ some json → from_slice json ≡ some c
  pub to_vec-no_nul :
      (c : EmbeddedConfig) (json : List ℕ) → to_vec c ≡ some json → All (λ b. b ≢ 0) json
  pub from_slice-empty : from_slice [] ≡ none

pub data ConfigError : Type 0 where
  serialize parse no_marker truncated read_exe : ConfigError
  too_large : ℕ → ConfigError

pub data Result {ℓ} (A : Type ℓ) : Type ℓ where
  ok : A → Result A
  err : ConfigError → Result A

-- `.context(e)` on a fallible call.
abbrev pub context {ℓ} : {A : Type ℓ} → Option A → ConfigError → Result A
context none e = err e
context (some a) e = ok a

infixl 5 ◌>>=◌
abbrev pub ◌>>=◌ {ℓ κ} : {A : Type ℓ} {B : Type κ} → Result A → (A → Result B) → Result B
ok a >>= f = f a
err e >>= f = err e

module _ (codec : ConfigJson) where
  unfoldable pub to_slot_bytes : EmbeddedConfig → Result (List ℕ)
  to_slot_bytes c = do
    json ← context (codec.to_vec c) serialize
    if leb (length json) config_slot_size
        then ok (copy_into (zeroed config_slot_size) 0 json)
        else err (too_large (length json))

  unfoldable pub from_slot_bytes : List ℕ → Result EmbeddedConfig
  from_slot_bytes bytes = context (codec.from_slice (before_nul bytes)) parse

  unfoldable pub find_in_binary : List ℕ → Result (Option EmbeddedConfig)
  find_in_binary bytes = elim (find_subslice bytes config_magic) [
    | none ↦ ok none
    | some pos ↦
        let start = pos + length config_magic in
        let end = min (start + config_slot_size) (length bytes) in
        if leb end start
        then ok none
        else (from_slot_bytes (take (end - start) (drop start bytes)) >>= λ c. ok (some c))
  ]

  -- The file system gives the bytes of the running executable, or fails.
  unfoldable pub read_from_current_exe : Option (List ℕ) → Result (Option EmbeddedConfig)
  read_from_current_exe exe = do bytes ← context exe read_exe; find_in_binary bytes

  -- `read_from_current_exe().ok().flatten().unwrap_or_default()`, the first lines of `main`.
  unfoldable pub startup_config : Option (List ℕ) → EmbeddedConfig
  startup_config exe = elim (read_from_current_exe exe) [
    | ok none ↦ default_config
    | ok (some c) ↦ c
    | err e ↦ default_config
  ]

  unfoldable pub patch_binary : EmbeddedConfig → List ℕ → Result (List ℕ)
  patch_binary c template = do
    pos ← context (find_subslice template config_magic) no_marker
    let start = pos + length config_magic
    if leb (start + config_slot_size) (length template)
        then (to_slot_bytes c >>= λ slot. ok (copy_into template start slot))
        else err truncated

-- `build_marker_slot`: the static array of an unpatched build.
unfoldable pub build_marker_slot : List ℕ
build_marker_slot = copy_into (zeroed (length config_magic + config_slot_size)) 0 config_magic
