-- ===== src/Ws/Keeps.antt =====
-- What a chain of steps on a message keeps true of the shared state and of the connection's task.
use visuara.Prelude.{
  ◌≡◌, refl, ap, sym, ◌∙◌, ◌⊎◌, inl, inr, Bool, true, false, ◌∷◌, Option, none, some, String,
  Option-cases, if◌then◌else◌, arith,
}
use visuara.Protocol.{ServerMessage}
use visuara.Db.{Db, Result, ok, err}
use visuara.State.{ConnectionId, Channel, insert}
use visuara.Ws.Types.{
  Local, WsError, W, proceed, ◌>>=◌, ◌>>◌, on_db, raise, ask, or_bail, send, send_to, send_if_open,
  require_auth,
}

abbrev pub Keeps : {A : Type 0} → (Local → Type 0) → W A → Type 0
Keeps Q m = (l : Local) → Q l → Q (m l).1

-- `Q` does not look at the database.
abbrev pub Free : (Local → Type 0) → Type 0
Free Q = (l : Local) (db : Db) → Q l → Q (record l { app = record l.app { db = db } })

-- A message on an open channel does no harm to `Q`.
abbrev pub Heard : (Local → Type 0) → Type 0
Heard Q =
    (l : Local) (c : ConnectionId) (tx : Channel) (msg : ServerMessage)
    → l.app.connections c ≡ some tx
    → Q l
    → Q (record l {
      app = record l.app {
        connections = insert c (record tx { sent = msg ∷ tx.sent }) l.app.connections;
      };
    })

-- A chain that succeeds has succeeded step by step.
pub bind_inv :
    {A B : Type 0} (m : W A) (f : A → W B) (l : Local) (b : B)
    → ((m >>= f) l).0 ≡ inr b
    → (a : A) × (((m l).0 ≡ inr a) × ((m >>= f) l ≡ f a (m l).1))
unfolding ◌>>=◌
bind_inv {A} {B} m f l b e = go (m l).0 refl
  where
    go :
        (r : WsError ⊎ A)
        → (m l).0 ≡ r
        → (a : A) × (((m l).0 ≡ inr a) × ((m >>= f) l ≡ f a (m l).1))
    go (inl why) same = absurd (ground (arith, sym (ap (λ x. (proceed f x (m l).1).0) same) ∙ e))
    go (inr a) same = (a, (same, ap (λ x. proceed f x (m l).1) same))

module _ (Q : Local → Type 0) where
  pub bind_at :
      {A B : Type 0} (m : W A) (f : A → W B) (l : Local)
      → Q (m l).1
      → ((a : A) → (m l).0 ≡ inr a → Q (m l).1 → Q (f a (m l).1).1)
      → Q ((m >>= f) l).1
  unfolding ◌>>=◌
  bind_at {A} m f l q k = go (m l).0 refl
    where
      go : (r : WsError ⊎ A) → (m l).0 ≡ r → Q (proceed f r (m l).1).1
      go (inl e) same = q
      go (inr a) same = k a same q

  pub bind-Keeps :
      {A B : Type 0} (m : W A) (f : A → W B)
      → Keeps Q m
      → ((a : A) → Keeps Q (f a))
      → Keeps Q (m >>= f)
  bind-Keeps m f h k l q = bind_at m f l (h l q) (λ a same. k a (m l).1)

  pub then-Keeps :
      {B : Type 0} (m : W (Unit {0})) (k : W B) → Keeps Q m → Keeps Q k → Keeps Q (m >> k)
  unfolding ◌>>◌
  then-Keeps m k h h' = bind-Keeps m (λ _. k) h (λ _. h')

  pub if-Keeps :
      {A : Type 0} (b : Bool) (m n : W A) → Keeps Q m → Keeps Q n → Keeps Q (if b then m else n)
  if-Keeps true m n h k = h
  if-Keeps false m n h k = k

  if_at : {A : Type 0} (b : Bool) (p r : A × Local) → Q p.1 → Q r.1 → Q (if b then p else r).1
  if_at true p r h k = h
  if_at false p r h k = k

  pub or_bail-Keeps : {A : Type 0} (o : Option A) (why : String) → Keeps Q (or_bail o why)
  or_bail-Keeps none why l q = q
  or_bail-Keeps (some a) why l q = q

  pub require_auth-Keeps : Keeps Q require_auth
  unfolding require_auth
  require_auth-Keeps l q = let same : (require_auth l).1 ≡ l = ground arith in rw same q

  module _ (free : Free Q) where
    pub on_db-Keeps : {A : Type 0} (call : Db → A × Db) → Keeps Q (on_db call)
    unfolding on_db
    on_db-Keeps call l q = free l (call l.app.db).1 q

    pub ask-Keeps : {A : Type 0} (call : Db → Result A × Db) → Keeps Q (ask call)
    unfolding ask
    ask-Keeps call =
        bind-Keeps (on_db call) raise (on_db-Keeps call)
          (elim [ ok a ↦ λ l q. q | err e ↦ λ l q. q ])

  module _ (heard : Heard Q) where
    pub send_to-Keeps :
        (c : ConnectionId) (tx : Channel) (msg : ServerMessage) (l : Local)
        → l.app.connections c ≡ some tx
        → Q l
        → Q (send_to c tx msg l).1
    unfolding send_to
    send_to-Keeps c tx msg l is q = if_at tx.receiving _ _ (heard l c tx msg is q) q

    pub send-Keeps : (c : ConnectionId) (msg : ServerMessage) → Keeps Q (send c msg)
    unfolding send
    send-Keeps c msg l q = elim (Option-cases (l.app.connections c)) [
      | inl gone ↦ rw (gone, send) q
      | inr (tx, is) ↦ rw (is, send) (send_to-Keeps c tx msg l is q)
    ]

    pub send_if_open-Keeps : (c : ConnectionId) (msg : ServerMessage) → Keeps Q (send_if_open c msg)
    unfolding send_if_open
    send_if_open-Keeps c msg l q = elim (Option-cases (l.app.connections c)) [
      | inl gone ↦ rw (gone, send_if_open) q
      | inr (tx, is) ↦ rw (is, send_if_open) (send_to-Keeps c tx msg l is q)
    ]
