-- ===== src/Fixtures.antt =====
-- Concrete states and packages that the tests of several modules share.
use visuara.Prelude.{◌≡◌, refl, true, [], none, some, String, str_eq, ◌+s◌, eq_iff, arith}
use visuara.Auth.{Argon}
use visuara.Db.{Tables, Db}
use visuara.Db.Keys.{IsKeyed}
use visuara.State.{AppState}
use visuara.Client.Disk.{Disk}
use visuara.Ws.Types.{External, Draws}

pub plain_verifies : (salt pw h : String) → some pw ≡ some h → str_eq pw h ≡ true
plain_verifies salt pw h e = ground (arith, eq_iff pw h)

-- A hash that is the password itself.
abbrev pub plain : Argon
plain = record {
  hash = λ salt pw. some pw;
  is_hash = λ h. true;
  verify = str_eq;
  hash_parses = λ salt pw h e. refl;
  hash_verifies = plain_verifies;
}

abbrev pub no_tables : Tables
no_tables = record { accounts = []; devices = []; settings = λ k. none; sessions = []; last_id = 0 }

abbrev pub new_db : Db
new_db = record { tables = no_tables; now = 0; foreign_keys = true; faults = [] }

abbrev pub no_tables-IsKeyed : IsKeyed no_tables
no_tables-IsKeyed = record { ids = tt; emails = tt; below = tt; devices = tt; tokens = tt }

abbrev pub idle : AppState
idle = record {
  db = new_db;
  turn = record { urls = []; shared_secret = "secret" };
  connections = λ c. none;
  device_online = λ d. none;
  otp = λ d. none;
  sessions = λ s. none;
  client_templates_dir = "client-templates";
  fetched_templates_dir = "fetched";
}

-- A disk with nothing on it.
abbrev pub empty_disk : Disk
empty_disk = record {
  resolve = λ p. p;
  names = λ p. none;
  contents = λ i. [];
  next = 0;
  failures = [];
}

abbrev pub ext : External
ext = record {
  argon = plain;
  hmac = λ secret text. secret +s text;
  database_text = λ e. "database error";
  hashing_text = "hashing error";
  closed_text = "channel closed";
  malformed_text = λ text. text;
}

abbrev pub draws : Draws
draws = record {
  salt = "salt";
  session_token = "token";
  session_id = "s1";
  device_1 = 111;
  device_2 = 222;
  device_3 = 333;
  otp_1 = 1234;
  otp_2 = 5678;
  now_secs = 0;
}
