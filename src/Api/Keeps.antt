-- ===== src/Api/Keeps.antt =====
-- What a chain of handler steps keeps true of the database.
use visuara.Prelude.{
  ◌≡◌, arith, ◌⊎◌, inl, inr, String, Bool, true, false, if◌then◌else◌, Option-cases, Bool, true,
  false, if◌then◌else◌, Option, none, some,
}
use visuara.Db.{Db, find_session}
use visuara.Session.{
  Headers, Status, AuthedAccount, cookie_value, session_cookie, current_account, require_account,
  require_admin,
}
use visuara.State.{AppState}
use visuara.Api.Types.{Response, and_then, H, ◌>>=◌, on_db, modify, require, give, reply}

-- The handler keeps `Q`, and so does the database call.
abbrev pub Keeps : {A : Type 0} → (Db → Type 0) → H A → Type 0
Keeps Q m = (s : AppState) → Q s.db → Q (m s).1.db

abbrev pub Kept : {A : Type 0} → (Db → Type 0) → (Db → A × Db) → Type 0
Kept Q call = (db : Db) → Q db → Q (call db).1

module _ (Q : Db → Type 0) where
  pub bind_at :
      {A B : Type 0} (m : H A) (f : A → H B) (s : AppState)
      → Q (m s).1.db
      → ((a : A) → Keeps Q (f a))
      → Q ((m >>= f) s).1.db
  unfolding ◌>>=◌
  bind_at m f s q k = elim (m s).0 as (λ r. Q (and_then f r (m s).1).1.db) [
    | inl response ↦ q
    | inr a ↦ k a (m s).1 q
  ]

  pub bind-Keeps :
      {A B : Type 0} (m : H A) (f : A → H B)
      → Keeps Q m
      → ((a : A) → Keeps Q (f a))
      → Keeps Q (m >>= f)
  bind-Keeps m f h k s q = bind_at m f s (h s q) k

  -- A step that replies, or gives, without a call.
  pub reply-Keeps : {A B : Type 0} (r : Response) (f : A → H B) → Keeps Q (reply r >>= f)
  unfolding ◌>>=◌
  reply-Keeps r f s q = q

  pub give-Keeps : {A B : Type 0} (a : A) (f : A → H B) → Keeps Q (f a) → Keeps Q (give a >>= f)
  unfolding ◌>>=◌
  give-Keeps a f h = h

  pub option-Keeps :
      {A : Type 0} (o : Option A) (r : Response)
      → Keeps Q (elim o as (λ _. H A) [ none ↦ reply r | some a ↦ give a ])
  option-Keeps none r s q = q
  option-Keeps (some a) r s q = q

  -- A database call that keeps `Q` here, and what follows it.
  pub call_at :
      {A B : Type 0} (call : Db → A × Db) (f : A → H B) (s : AppState)
      → Q (call s.db).1
      → ((a : A) → Keeps Q (f a))
      → Q ((on_db call >>= f) s).1.db
  unfolding on_db
  call_at call f s q k = bind_at (on_db call) f s q k

  pub on_db-Keeps : {A : Type 0} (call : Db → A × Db) → Kept Q call → Keeps Q (on_db call)
  unfolding on_db
  on_db-Keeps call h s q = h s.db q

  -- A database call and what follows it.
  pub call-Keeps :
      {A B : Type 0} (call : Db → A × Db) (f : A → H B)
      → Kept Q call
      → ((a : A) → Keeps Q (f a))
      → Keeps Q (on_db call >>= f)
  call-Keeps call f h k = bind-Keeps (on_db call) f (on_db-Keeps call h) k

  pub require-Keeps :
      (check : Db → (Status ⊎ AuthedAccount) × Db) → Kept Q check → Keeps Q (require check)
  unfolding require
  require-Keeps check h =
      call-Keeps check _ h (elim [ inl status ↦ λ s q. q | inr account ↦ λ s q. q ])

  pub if-Keeps :
      {A : Type 0} (b : Bool) (m n : H A) → Keeps Q m → Keeps Q n → Keeps Q (if b then m else n)
  if-Keeps true m n h k = h
  if-Keeps false m n h k = k

  pub modify-Keeps :
      (f : AppState → AppState) → ((s : AppState) → (f s).db ≡ s.db) → Keeps Q (modify f)
  unfolding modify
  modify-Keeps f same s q = rw (same s) q

  -- The checks of who calls make one read at most.
  module _ (read : (token : String) → Kept Q (find_session token)) where
    pub current_account-Kept : (headers : Headers) → Kept Q (current_account headers)
    unfolding current_account
    current_account-Kept headers db q = elim (Option-cases (cookie_value headers session_cookie)) [
      | inl e ↦ rw (e, current_account) q
      | inr (token, e) ↦
          let same : (current_account headers db).1 ≡ (find_session token db).1 = ground arith in
          rw same (read token db q)
    ]

    pub require_account-Keeps : (headers : Headers) → Keeps Q (require (require_account headers))
    unfolding require_account
    require_account-Keeps headers = require-Keeps (require_account headers) λ db q.
        let same : (require_account headers db).1 ≡ (current_account headers db).1 = ground arith in
        rw same (current_account-Kept headers db q)

    pub require_admin-Keeps : (headers : Headers) → Keeps Q (require (require_admin headers))
    unfolding require_admin require_account
    require_admin-Keeps headers = require-Keeps (require_admin headers) λ db q.
        let same : (require_admin headers db).1 ≡ (current_account headers db).1 = ground arith in
        rw same (current_account-Kept headers db q)
