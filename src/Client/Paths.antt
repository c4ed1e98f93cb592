-- ===== src/Client/Paths.antt =====
-- The parts of std::path, on a Unix system, that visuara-client calls. A path is its text.
use Prim.Native.String.{[], ◌∷◌}
use Prim.Native.Char.{code}
use visuara.Prelude.{
  ℕ, Bool, false, not, ◌||◌, Option, none, some, List, String, is_empty, is_some, str_eq, ◌+s◌,
  ◌==◌, split, filter, if◌then◌else◌,
}

-- The separator, `/`.
abbrev sep : ℕ
sep = 47

abbrev pub is_absolute : String → Bool
is_absolute [] = false
is_absolute (c ∷ s) = code c == sep

abbrev ends_in_sep : String → Bool
ends_in_sep [] = false
ends_in_sep (c ∷ s) = if is_empty s then code c == sep else ends_in_sep s

-- `Path::join`: an absolute path takes the place of the first.
unfoldable pub join : String → String → String
join dir name =
    if is_absolute name
    then name
    else if is_empty dir || ends_in_sep dir
    then dir +s name
    else dir +s "/" +s name

last : List String → Option String
last List.[] = none
last (List.◌∷◌ s ss) = if is_some (last ss) then last ss else some s

-- `Path::file_name`: the last component, unless it is `..` or there is none.
unfoldable pub path_file_name : String → Option String
unfolding last
path_file_name p = elim (last (filter (λ s. not (is_empty s || str_eq s ".")) (split sep p))) [
  | none ↦ none
  | some name ↦ if str_eq name ".." then none else some name
]

-- `rsplitn(2, '.')`: what stands before the last dot and after it.
unfoldable pub rsplit_dot : String → Option (String × String)
rsplit_dot [] = none
rsplit_dot (c ∷ s) = elim (rsplit_dot s) [
  | some p ↦ some (c ∷ p.0, p.1)
  | none ↦ if code c == 46 then some ([], s) else none
]

-- The stem and the extension of a file name: a dot at its start does not count.
unfoldable pub stem_and_extension : String → String × Option String
stem_and_extension name = elim (rsplit_dot name) [
  | none ↦ (name, none)
  | some p ↦ if is_empty p.0 then (name, none) else (p.0, some p.1)
]
