-- ===== src/Client/Cli/Tests.antt =====
-- Launches at an empty disk, with a small codec in the place of JSON.
use visuara.Prelude.{
  ◌≡◌, refl, arith, true, false, Option, none, some, List, [], ◌∷◌, ℕ, ap, String, str_eq, eq_iff,
  if◌then◌else◌,
}
use visuara.EmbeddedConfig.Samples.{braces}
use visuara.Fixtures.{empty_disk}
use visuara.Client.Paths.{join}
use visuara.Client.Disk.{Disk, create, write_all, write_file, other_call, exists}
use visuara.Client.Disk.Replace.{Unshared}
use visuara.Client.FileTransfer.{default_destination}
use visuara.Client.Storage.{
  Json, SavedCredentials, save_at, write_restricted, credentials_path, config_file,
}
use visuara.Client.Autostart.{unit_path, is_enabled, toggle}
use visuara.Client.Cli.{host_autostart, serve, main}
use visuara.Client.Cli.Autostarted.{main-toggle}

abbrev kept : SavedCredentials
kept = record { server_url = "u"; email = "e"; password = "p"; device_name = "n" }

-- It writes these credentials and no others.
abbrev write : SavedCredentials → Option (List ℕ)
write c =
    if str_eq "u" c.server_url
    then (if str_eq "e" c.email
        then (if str_eq "p" c.password
            then (if str_eq "n" c.device_name then some (1 ∷ []) else none)
            else none)
        else none)
    else none

write-kept : (c : SavedCredentials) (json : List ℕ) → write c ≡ some json → kept ≡ c
write-kept c json e = ground (
  arith,
  eq_iff "u" c.server_url,
  eq_iff "e" c.email,
  eq_iff "p" c.password,
  eq_iff "n" c.device_name,
)

abbrev credentials_json : Json SavedCredentials
credentials_json = record {
  to_vec = write;
  from_slice = λ bytes. some kept;
  from_slice-to_vec = λ c json e. ap some (write-kept c json e);
}

abbrev no_text : String → List ℕ
no_text s = []

abbrev saved : Disk
saved = (save_at credentials_json (some "/c/visuara/unattended-credentials.json") kept empty_disk).1

abbrev unit : String
unit = "/c/systemd/user/visuara-host.service"

off : is_enabled no_text (some "/c") empty_disk ≡ false
unfolding is_enabled unit_path join exists
off = refl

at_path : credentials_path (some "/c") ≡ some "/c/visuara/unattended-credentials.json"
unfolding credentials_path config_file join
at_path = refl

at_unit : unit_path (some "/c") ≡ some unit
unfolding unit_path join
at_unit = refl

unit_free : saved.names (saved.resolve unit) ≡ none
unfolding save_at write_restricted other_call write_file create write_all
unit_free = refl

apart : str_eq (saved.resolve unit) (saved.resolve "/c/visuara/unattended-credentials.json") ≡ false
unfolding save_at write_restricted other_call write_file create write_all
apart = refl

unshared : Unshared unit "/c/visuara/unattended-credentials.json" saved
unfolding save_at write_restricted other_call write_file create write_all
unshared i e = (λ h. ground arith, λ h. ground arith)

main-toggle_example :
    let after =
      (toggle no_text (some "/c") credentials_json kept (some "/bin/v") (some true) empty_disk).1 in
    (main credentials_json (some "/c") none braces none (some host_autostart) after).0
    ≡ serve kept (default_destination none)
main-toggle_example =
    main-toggle credentials_json no_text (some "/c") none "/c/visuara/unattended-credentials.json"
      unit "/bin/v" (some true) kept (1 ∷ []) braces none empty_disk off at_path at_unit refl refl
      (λ e. ground arith) (λ e. ground (arith, unit_free)) apart unshared
