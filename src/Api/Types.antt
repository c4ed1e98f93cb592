-- ===== src/Api/Types.antt =====
-- visuara-signaling/src/api/mod.rs: responses, and how a handler runs. A handler is a chain of steps
-- on the shared state, each of which goes on with a value or replies. serde_json's rendering of a
-- body, and anyhow's of an error's cause, are not modelled: a body is the value that is rendered.
use visuara.Prelude.{Bool, List, Option, none, String, ◌⊎◌, inl, inr}
use visuara.Protocol.{DeviceSummary}
use visuara.Db.{DbError, AccountSummary, Db}
use visuara.Session.{AuthedAccount, Status}
use visuara.State.{AppState}

-- A fixed text, or a text followed by the rendering of an error.
pub data ErrorText : Type 0 where
  text : String → ErrorText
  caused : String → DbError → ErrorText

pub data Body : Type 0 where
  empty : Body
  error : ErrorText → Body
  account_view : AuthedAccount → Body
  registration_status : Bool → Body
  device_list : List DeviceSummary → Body
  settings_view : String → String → Body
  account_list : List AccountSummary → Body
  account_detail : AuthedAccount → List DeviceSummary → Body

pub record Response : Type 0 where
  pub status : Status
  pub set_cookie : Option String
  pub body : Body

-- `status.into_response()`
abbrev pub bare : Status → Response
bare status = record { status = status; set_cookie = none; body = empty }

abbrev pub with_body : Status → Body → Response
with_body status body = record { status = status; set_cookie = none; body = body }

abbrev pub error_response : Status → ErrorText → Response
error_response status message = with_body status (error message)

abbrev pub H : Type 0 → Type 0
H A = AppState → (Response ⊎ A) × AppState

-- What comes after a step, from its outcome.
abbrev pub and_then : {A B : Type 0} → (A → H B) → Response ⊎ A → H B
and_then f (inl response) s = (inl response, s)
and_then f (inr a) s = f a s

infixl 5 ◌>>=◌ ◌>>◌
unfoldable pub ◌>>=◌ : {A B : Type 0} → H A → (A → H B) → H B
◌>>=◌ m f s = and_then f (m s).0 (m s).1

unfoldable pub ◌>>◌ : {B : Type 0} → H (Unit {0}) → H B → H B
m >> k = m >>= λ _. k

abbrev pub reply : {A : Type 0} → Response → H A
reply response s = (inl response, s)

abbrev pub give : {A : Type 0} → A → H A
give a s = (inr a, s)

-- A call of the database, whose result the handler looks at.
unfoldable pub on_db : {A : Type 0} → (Db → A × Db) → H A
on_db call s = let (a, db') = call s.db in (inr a, record s { db = db' })

unfoldable pub modify : (AppState → AppState) → H (Unit {0})
modify f s = (inr tt, f s)

-- `match session::require_…(&headers, &state).await { Ok(a) => a, Err(status) => return … }`
unfoldable pub require : (Db → (Status ⊎ AuthedAccount) × Db) → H AuthedAccount
require check = do
  who ← on_db check
  elim who [ inl status ↦ reply (bare status) | inr account ↦ give account ]
