-- ===== src/Turn.antt =====
-- visuara-signaling/src/turn.rs: short-lived TURN credentials. HMAC-SHA1 in base64 is a parameter,
-- the clock an argument.
use visuara.Prelude.{ℕ, ◌+◌, List, String, decimal, ◌+s◌}

pub record TurnConfig : Type 0 where
  pub urls : List String
  pub shared_secret : String

-- base64(HMAC-SHA1(secret, message))
abbrev pub Hmac : Type 0
Hmac = String → String → String

unfoldable pub mint_credentials : Hmac → ℕ → TurnConfig → String → ℕ → String × String
mint_credentials hmac now_secs cfg label ttl_secs =
    let expiry = now_secs + ttl_secs in
    let username = decimal expiry +s (":" +s label) in (username, hmac cfg.shared_secret username)
