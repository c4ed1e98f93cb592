-- ===== src/Client/Storage/Start.antt =====
-- What the next launch shows after settings were saved (`VisuaraApp::new` of gui.rs).
use visuara.Prelude.{
  ◌≡◌, ◌≢◌, ◌⊎◌, inl, inr, sym, refl, ap, ◌∙◌, Bool, true, false, Option, none, some, List, ℕ,
  String, Bool-cases,
}
use visuara.EmbeddedConfig.{EmbeddedConfig}
use visuara.Client.Disk.{directory, Disk, next_call, exists, read}
use visuara.Client.Disk.Calls.{next_call_steady}
use visuara.Client.Disk.Whole.{read_file_steady}
use visuara.Client.Storage.{
  Json, LocalSettings, RememberedLogin, settings_path, settings_or_default, load_at, load_present,
  parsed, save_settings, load_settings, clear_remembered_login, forget, forget_login, login_fields,
  autosave_local_settings, remember_login, with_names, with_login, without_login, start_fields,
}
use visuara.Client.Storage.Kept.{Steady, load_at-save_at}

module _ {A : Type 0} (codec : Json A) (path : String) where
  view : Bool → Option (List ℕ) → Option (Option A)
  view false contents = some none
  view true contents = parsed codec contents

  -- Without a failure, a load depends on no more than the file, and leaves it alone.
  load_at_calm :
      (d : Disk)
      → Steady d
      → ((load_at codec (some path) d).0 ≡ view (exists d path) (read d path))
        × (((load_at codec (some path) d).1 ≡ d) ⊎ ((load_at codec (some path) d).1 ≡ next_call d))
  unfolding load_at load_present view
  load_at_calm d steady = elim (Bool-cases (exists d path)) [
    | inr absent ↦ (rw (absent, load_present, view), inl (rw (absent, load_present)))
    | inl present ↦ (
      rw (present, load_present, view, read_file_steady path d steady),
      inr (rw (present, load_present, read_file_steady path d steady)),
    )
  ]

-- A disk on which the settings can be saved: the configuration directory is known, no call fails, and
-- there is no directory at the path of the settings.
pub record CanSave (config_dir : Option String) (d : Disk) : Type 0 where
  pub path : String
  pub path_is : settings_path config_dir ≡ some path
  pub steady : Steady d
  pub file : d.names (d.resolve path) ≢ some directory

-- serde_json can write the value.
abbrev pub Writes : Json LocalSettings → LocalSettings → Type 0
Writes codec s = (json : List ℕ) × (codec.to_vec s ≡ some json)

module _ (codec : Json LocalSettings) (config_dir : Option String) where
  saved_loads :
      (s : LocalSettings) (d : Disk)
      → CanSave config_dir d
      → Writes codec s
      → (load_settings codec config_dir (save_settings codec config_dir s d).1).0 ≡ some (some s)
  unfolding load_settings save_settings
  saved_loads s d can (json, e) =
      rw (can.path_is) (load_at-save_at codec can.path s json d can.steady can.file e).1

  next_call-CanSave : (d : Disk) → CanSave config_dir d → CanSave config_dir (next_call d)
  unfolding next_call
  next_call-CanSave d can = record {
    path = can.path;
    path_is = can.path_is;
    steady = next_call_steady d can.steady;
    file = can.file;
  }

  -- A load leaves the settings as they are, and can be repeated.
  loaded :
      (d : Disk)
      → CanSave config_dir d
      → CanSave config_dir (load_settings codec config_dir d).1
        × ((load_settings codec config_dir (load_settings codec config_dir d).1).0
            ≡ (load_settings codec config_dir d).0)
  unfolding load_settings exists read next_call
  loaded d can =
      let (shown, disk) = load_at_calm codec can.path d can.steady in
      let (shown', _) = load_at_calm codec can.path (next_call d) (next_call_steady d can.steady) in
      rw (can.path_is) (elim disk [
        | inl same ↦ rw (same) (can, refl)
        | inr next ↦ rw (next) (next_call-CanSave d can, shown' ∙ sym shown)
      ])

  forget_login-start :
      (o : Option RememberedLogin) (s : LocalSettings) (embedded : EmbeddedConfig) (d : Disk)
      → CanSave config_dir d
      → s.remembered_login ≡ o
      → (load_settings codec config_dir d).0 ≡ some (some s)
      → Writes codec (without_login s)
      → start_fields
          (load_settings codec config_dir (forget_login codec config_dir o s d).1).0
          embedded
        ≡ record (start_fields (some (some s)) embedded) {
          email = "";
          password = "";
          remember_me = false;
        }
  unfolding forget_login start_fields settings_or_default login_fields
  forget_login-start none s embedded d can e same w =
      rw (same, start_fields, settings_or_default, e, login_fields)
  forget_login-start (some login) s embedded d can e same w =
      ap (λ f. start_fields f embedded) (saved_loads (without_login s) d can w)

  forget-start :
      (found : Option (Option LocalSettings)) (embedded : EmbeddedConfig) (d : Disk)
      → CanSave config_dir d
      → (load_settings codec config_dir d).0 ≡ found
      → Writes codec (without_login (settings_or_default found))
      → start_fields (load_settings codec config_dir (forget codec config_dir found d).1).0 embedded
        ≡ record (start_fields found embedded) { email = ""; password = ""; remember_me = false }
  unfolding forget start_fields settings_or_default
  forget-start none embedded d can same w = rw (same)
  forget-start (some none) embedded d can same w = rw (same)
  forget-start (some (some s)) embedded d can same w =
      forget_login-start s.remembered_login s embedded d can refl same w

-- The settings on the disk, or the default ones.
abbrev pub current : Json LocalSettings → Option String → Disk → LocalSettings
current codec config_dir d = settings_or_default (load_settings codec config_dir d).0

-- What the next launch shows after each of the ways to save settings, where settings can be saved and serde_json
-- can write them:
-- the autosave changes the server and the device name to the given ones, remembering a login changes
-- the email and the password to the given ones and ticks the box, and forgetting the login empties
-- them and clears the box. Nothing else that the window shows at the start changes.
pub start_fields-saved :
    (codec : Json LocalSettings) (config_dir : Option String) (d : Disk) (embedded : EmbeddedConfig)
    (server_url device_name : String) (login : RememberedLogin)
    → CanSave config_dir d
    → Writes codec (with_names server_url device_name (current codec config_dir d))
    → Writes codec (with_login login (current codec config_dir d))
    → Writes codec (without_login (current codec config_dir d))
    → (start_fields
          (load_settings codec config_dir
            (autosave_local_settings codec config_dir server_url device_name d)).0
          embedded
        ≡ record (start_fields (load_settings codec config_dir d).0 embedded) {
          server_url = server_url;
          device_name = device_name;
        })
      × (start_fields
            (load_settings codec config_dir (remember_login codec config_dir login d)).0
            embedded
          ≡ record (start_fields (load_settings codec config_dir d).0 embedded) {
            email = login.email;
            password = login.password;
            remember_me = true;
          })
      × (start_fields
            (load_settings codec config_dir (clear_remembered_login codec config_dir d).1).0
            embedded
          ≡ record (start_fields (load_settings codec config_dir d).0 embedded) {
            email = "";
            password = "";
            remember_me = false;
          })
unfolding autosave_local_settings remember_login clear_remembered_login start_fields
    settings_or_default
start_fields-saved codec config_dir d embedded server_url device_name login can names_w login_w
      forget_w =
    let (can', again) = loaded codec config_dir d can in
    (
      ap (λ f. start_fields f embedded) (saved_loads codec config_dir _ _ can' names_w),
      ap (λ f. start_fields f embedded) (saved_loads codec config_dir _ _ can' login_w),
      forget-start codec config_dir (load_settings codec config_dir d).0 embedded _ can' again
          forget_w,
    )
