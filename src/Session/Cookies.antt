-- ===== src/Session/Cookies.antt =====
-- The session cookie on its way through a browser (session.rs).
use mathlib.Core.List
use Prim.Native.Char.{Char, code}
use Prim.Native.String.{String, [], ◌∷◌}
use text.Mathlib.TextLemmas.{cons-append, nil-append, append_assoc}
use visuara.Prelude.{
  ◌≡◌, refl, sym, ap, ◌∙◌, ◌==◌, Bool, true, false, not, ◌&&◌, Option, none, some, ◌+s◌, trim,
  trim_start, trim_end, split, split_once, is_whitespace, is_empty, arith, if◌then◌else◌, str_eq,
}
use visuara.Session.{Headers, session_cookie, set_session_cookie, find_cookie, cookie_value}

-- No character of a text is one of some kind.
abbrev pub clear : (Char → Bool) → String → Bool
clear p [] = true
clear p (c ∷ s) = not (p c) && clear p s

abbrev pub is_semicolon : Char → Bool
is_semicolon c = code c == b';'

-- What a browser sends back of a Set-Cookie header: the text before its first semicolon.
abbrev pub pair_of : String → String
pair_of text = elim (split_once b';' text) [ none ↦ text | some (pair, rest) ↦ pair ]

clear_split :
    (p : Char → Bool) (c : Char) (s : String)
    → clear p (c ∷ s) ≡ true
    → (p c ≡ false) × (clear p s ≡ true)
clear_split p c s h = (ground arith, ground arith)

clear-append :
    (p : Char → Bool) (s t : String) → clear p s ≡ true → clear p t ≡ true → clear p (s +s t) ≡ true
clear-append p [] t h k = rw (nil-append t) k
clear-append p (c ∷ s) t h k =
    let (here, rest) = clear_split p c s h in
    rw (cons-append c s t, here, clear-append p s t rest k)

is_code : Char → Char → Bool
is_code d c = code c == code d

split_once-append :
    (d : Char) (s t : String)
    → clear (is_code d) s ≡ true
    → split_once (code d) (s +s (d ∷ t)) ≡ some (s, t)
unfolding split_once is_code
split_once-append d [] t h = rw (nil-append (d ∷ t)) (ground arith)
split_once-append d (c ∷ s) t h =
    let (here, rest) = clear_split (is_code d) c s h in
    rw (cons-append c s (d ∷ t), split_once, here, split_once-append d s t rest)

split-clear : (s : String) → clear is_semicolon s ≡ true → split b';' s ≡ List.◌∷◌ s List.[]
unfolding split
split-clear [] h = refl
split-clear (c ∷ s) h =
    let (here, rest) = clear_split is_semicolon c s h in rw (split, here, split-clear s rest)

kept : (b w : Bool) (x y : String) → w ≡ false → (if b && w then x else y) ≡ y
kept true false x y e = refl
kept false false x y e = refl
kept b true x y e = absurd (ground arith)

trim_end-clear : (s : String) → clear is_whitespace s ≡ true → trim_end s ≡ s
unfolding trim_end
trim_end-clear [] h = refl
trim_end-clear (c ∷ s) h =
    let (here, rest) = clear_split is_whitespace c s h in
    rw (trim_end-clear s rest) (kept (is_empty s) (is_whitespace c) [] (c ∷ s) here)

trim_start-clear : (s : String) → clear is_whitespace s ≡ true → trim_start s ≡ s
unfolding trim_start
trim_start-clear [] h = refl
trim_start-clear (c ∷ s) h =
    let (here, rest) = clear_split is_whitespace c s h in rw (trim_start, here)

trim-clear : (s : String) → clear is_whitespace s ≡ true → trim s ≡ s
unfolding trim
trim-clear s h = rw (trim_start-clear s h) (trim_end-clear s h)

abbrev equals : Char
equals = "="

abbrev semicolon : Char
semicolon = ";"

-- What the browser keeps of a session's cookie.
abbrev named : String → String
named token = session_cookie +s (equals ∷ token)

named-clear :
    (p : Char → Bool) (token : String)
    → clear p session_cookie ≡ true
    → p equals ≡ false
    → clear p token ≡ true
    → clear p (named token) ≡ true
named-clear p token name sign h =
    clear-append p session_cookie (equals ∷ token) name (ap (λ b. not b && clear p token) sign ∙ h)

-- The text of the header, up to its attributes.
set_session_cookie-named :
    (token : String)
    → set_session_cookie token ≡ named token +s (semicolon ∷ " Path=/; HttpOnly; SameSite=Strict")
unfolding set_session_cookie
set_session_cookie-named token =
    let rest : String = "; Path=/; HttpOnly; SameSite=Strict" in
    ap (λ t. session_cookie +s t)
      (cons-append equals [] (token +s rest)
        ∙ ap (λ t. equals ∷ t) (nil-append (token +s rest))
        ∙ sym (cons-append equals token rest))
    ∙ sym (append_assoc session_cookie (equals ∷ token) rest)

pair_of-set_session_cookie :
    (token : String)
    → clear is_semicolon token ≡ true
    → pair_of (set_session_cookie token) ≡ named token
unfolding is_code
pair_of-set_session_cookie token h =
    ap pair_of (set_session_cookie-named token)
    ∙ ap
        (λ o. elim o [
          | none ↦ named token +s (semicolon ∷ " Path=/; HttpOnly; SameSite=Strict")
          | some (pair, rest) ↦ pair
        ])
        (split_once-append semicolon (named token) " Path=/; HttpOnly; SameSite=Strict"
          (named-clear is_semicolon token refl refl h))

-- What a browser sends with the requests after a response that sets a session's cookie.
abbrev pub after_cookie : String → Option String → Headers
after_cookie text agent = record { cookie = some (pair_of text); user_agent = agent }

pub cookie_value-set_session_cookie :
    (token : String) (agent : Option String)
    → clear is_semicolon token ≡ true
    → clear is_whitespace token ≡ true
    → cookie_value (after_cookie (set_session_cookie token) agent) session_cookie ≡ some token
unfolding cookie_value find_cookie is_code
cookie_value-set_session_cookie token agent h k =
    ap (λ t. cookie_value (record { cookie = some t; user_agent = agent }) session_cookie)
      (pair_of-set_session_cookie token h)
    ∙ ap (λ parts. find_cookie parts session_cookie)
        (split-clear (named token) (named-clear is_semicolon token refl refl h))
    ∙ ap found_in (
        ap (split_once b'=')
          (trim-clear (named token) (named-clear is_whitespace token refl refl k))
        ∙ split_once-append equals session_cookie token refl)
  where
    found_in : Option (String × String) → Option String
    found_in none = none
    found_in (some (name, v)) = if str_eq name session_cookie then some v else none
