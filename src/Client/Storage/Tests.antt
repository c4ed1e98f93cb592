-- ===== src/Client/Storage/Tests.antt =====
-- The properties of the settings at a concrete disk, with a small codec in the place of JSON.
use visuara.Prelude.{
  ◌≡◌, refl, arith, true, false, Option, none, some, List, [], ◌∷◌, ℕ, zero, suc, ap, ◌∙◌, String,
  str_eq, eq_iff, if◌then◌else◌,
}
use visuara.Fixtures.{empty_disk}
use visuara.EmbeddedConfig.{default_config}
use visuara.Client.Paths.{join}
use visuara.Client.Disk.{Disk, exists}
use visuara.Client.Storage.{
  Json, LocalSettings, RememberedLogin, StartFields, default_settings, load_at, settings_path,
  config_file, settings_or_default, load_settings, autosave_local_settings, remember_login,
  clear_remembered_login, start_fields,
}
use visuara.Client.Storage.Start.{CanSave, current, start_fields-saved}

abbrev login : RememberedLogin
login = record { email = "e"; password = "p" }

-- It writes the settings whose values are "u", "n" and `login`, as three bits.
abbrev bit : String → Option String → Option ℕ
bit s none = some 0
bit s (some t) = if str_eq s t then some 1 else none

abbrev login_bit : Option RememberedLogin → Option ℕ
login_bit none = some 0
login_bit (some l) =
    if str_eq "e" l.email then (if str_eq "p" l.password then some 1 else none) else none

abbrev bits : Option ℕ → Option ℕ → Option ℕ → Option (List ℕ)
bits (some a) (some b) (some c) = some (a ∷ b ∷ c ∷ [])
bits _ _ _ = none

abbrev unbit : {A : Type 0} → ℕ → A → Option A
unbit n a = elim n [ zero ↦ none | suc k ↦ some a ]

bit-unbit : (s : String) (o : Option String) (k : ℕ) → bit s o ≡ some k → unbit k s ≡ o
bit-unbit s none zero e = refl
bit-unbit s none (suc k) e = absurd (ground arith)
bit-unbit s (some t) zero e = absurd (ground arith)
bit-unbit s (some t) (suc k) e = ground (arith, eq_iff s t)

login_bit-unbit : (o : Option RememberedLogin) (k : ℕ) → login_bit o ≡ some k → unbit k login ≡ o
login_bit-unbit none zero e = refl
login_bit-unbit none (suc k) e = absurd (ground arith)
login_bit-unbit (some l) zero e = absurd (ground arith)
login_bit-unbit (some l) (suc k) e =
    let email : "e" ≡ l.email = (eq_iff "e" l.email).0 (ground arith) in
    let password : "p" ≡ l.password = (eq_iff "p" l.password).0 (ground arith) in
    ap (λ a. some (record { email = a; password = "p" })) email
    ∙ ap (λ a. some (record { email = l.email; password = a })) password

abbrev decode : List ℕ → Option LocalSettings
decode [] = none
decode (a ∷ []) = none
decode (a ∷ (b ∷ [])) = none
decode (a ∷ (b ∷ (c ∷ r))) = some (record {
  server_url = unbit a "u";
  device_name = unbit b "n";
  remembered_login = unbit c login;
})

decode-bits :
    (a b c : Option ℕ) (s : LocalSettings) (json : List ℕ)
    → ((k : ℕ) → a ≡ some k → unbit k "u" ≡ s.server_url)
    → ((k : ℕ) → b ≡ some k → unbit k "n" ≡ s.device_name)
    → ((k : ℕ) → c ≡ some k → unbit k login ≡ s.remembered_login)
    → bits a b c ≡ some json
    → decode json ≡ some s
decode-bits (some a) (some b) (some c) s json ha hb hc e =
    let json_is : a ∷ b ∷ c ∷ [] ≡ json = ground arith in
    rw (← json_is, ha a refl, hb b refl, hc c refl)
decode-bits none b c s json ha hb hc e = absurd (ground arith)
decode-bits (some a) none c s json ha hb hc e = absurd (ground arith)
decode-bits (some a) (some b) none s json ha hb hc e = absurd (ground arith)

abbrev settings_json : Json LocalSettings
settings_json = record {
  to_vec = λ s. bits (bit "u" s.server_url) (bit "n" s.device_name) (login_bit s.remembered_login);
  from_slice = decode;
  from_slice-to_vec = λ s json e.
      decode-bits _ _ _ s json (λ k. bit-unbit "u" s.server_url k)
        (λ k. bit-unbit "n" s.device_name k) (λ k. login_bit-unbit s.remembered_login k) e;
}

abbrev kept : LocalSettings
kept = record { server_url = some "u"; device_name = none; remembered_login = some login }

empty_disk-CanSave : CanSave (some "/c") empty_disk
unfolding settings_path config_file join
empty_disk-CanSave = record {
  path = "/c/visuara/local-settings.json";
  path_is = refl;
  steady = refl;
  file = λ e. ground arith;
}

nothing_saved : current settings_json (some "/c") empty_disk ≡ default_settings
unfolding settings_or_default load_settings settings_path config_file load_at exists
nothing_saved = refl

abbrev shown : Disk → StartFields
shown d = start_fields (load_settings settings_json (some "/c") d).0 default_config

start_fields-saved_example :
    (shown (autosave_local_settings settings_json (some "/c") "u" "n" empty_disk)
      ≡ record (shown empty_disk) { server_url = "u"; device_name = "n" })
    × (shown (remember_login settings_json (some "/c") login empty_disk)
        ≡ record (shown empty_disk) { email = "e"; password = "p"; remember_me = true })
    × (shown (clear_remembered_login settings_json (some "/c") empty_disk).1
        ≡ record (shown empty_disk) { email = ""; password = ""; remember_me = false })
start_fields-saved_example =
    start_fields-saved settings_json (some "/c") empty_disk default_config "u" "n" login
      empty_disk-CanSave (1 ∷ 1 ∷ 0 ∷ [], rw (nothing_saved)) (0 ∷ 0 ∷ 1 ∷ [], rw (nothing_saved))
      (0 ∷ 0 ∷ 0 ∷ [], rw (nothing_saved))
