-- ===== src/Text.antt =====
-- JavaScript strings as lists of UTF-16 code units, with the equality that `===` decides.
pub mod Split
use Prim.Native.Char.{code}
use Prim.Native.String.{String}
use nap.Base.{
  ℕ, ◌+◌, ◌-◌, ◌≡◌, ◌↔◌, Bool, true, false, ◌&&◌, ◌||◌, Option, none, some, List, [], ◌∷◌, map,
  arith, ℕ_discrete, if◌then◌else◌, leb, eqb, is_some,
}

abbrev pub Text : Type 0
Text = List ℕ

-- A literal of the program, all of whose literals are ASCII.
abbrev pub text : String → Text
text String.[] = []
text (String.◌∷◌ c s) = code c ∷ text s

unfoldable pub text_discrete : Discrete Text
unfolding ℕ_discrete
text_discrete = hlevel ℕ_discrete

-- `a === b`
infix 50 ◌==◌
abbrev pub ◌==◌ : Text → Text → Bool
a == b = elim (text_discrete a b) [ yes _ ↦ true | no _ ↦ false ]

pub ==_iff : (a b : Text) → ((a == b) ≡ true) ↔ (a ≡ b)
==_iff a b = ground arith

-- `a === b`, where `a` may be undefined.
abbrev pub is_text : Option Text → Text → Bool
is_text none b = false
is_text (some a) b = a == b

abbrev pub is_empty : Text → Bool
is_empty [] = true
is_empty (c ∷ cs) = false

-- A string is falsy when it is absent or empty.
abbrev pub truthy : Option Text → Bool
truthy none = false
truthy (some []) = false
truthy (some (c ∷ cs)) = true

-- `list.includes(a)`, and `set.has(a)` for a set given by its members.
unfoldable pub includes : Text → List Text → Bool
includes a [] = false
includes a (b ∷ bs) = if b == a then true else includes a bs

-- The code units that `trim` removes and that `\s` matches.
unfoldable pub is_space : ℕ → Bool
is_space c =
    (leb 9 c && leb c 13)
    || eqb c 32
    || eqb c 160
    || eqb c 5760
    || (leb 8192 c && leb c 8202)
    || eqb c 8232
    || eqb c 8233
    || eqb c 8239
    || eqb c 8287
    || eqb c 12288
    || eqb c 65279

-- `s.replace(/\s+/g, '')`
unfoldable pub without_spaces : Text → Text
without_spaces [] = []
without_spaces (c ∷ cs) = if is_space c then without_spaces cs else c ∷ without_spaces cs

unfoldable pub trim_start : Text → Text
trim_start [] = []
trim_start (c ∷ cs) = let rest = trim_start cs in if is_space c then rest else c ∷ cs

-- A trailing run of white space is dropped from the end on.
unfoldable pub trim_end : Text → Text
trim_end [] = []
trim_end (c ∷ cs) = let rest = trim_end cs in if is_empty rest && is_space c then [] else c ∷ rest

unfoldable pub trim : Text → Text
unfolding trim_start trim_end
trim s = trim_end (trim_start s)

-- Upper and lower case of the ASCII letters; no other code unit changes.
unfoldable pub lower_unit : ℕ → ℕ
lower_unit c = if leb b'A' c && leb c b'Z' then c + 32 else c

unfoldable pub upper_unit : ℕ → ℕ
upper_unit c = if leb b'a' c && leb c b'z' then c - 32 else c

unfoldable pub to_lower_case : Text → Text
unfolding lower_unit
to_lower_case = map lower_unit

unfoldable pub to_upper_case : Text → Text
unfolding upper_unit
to_upper_case = map upper_unit

-- `s.slice(prefix.length)` if `s.startsWith(prefix)`
unfoldable pub strip_prefix : Text → Text → Option Text
strip_prefix [] s = some s
strip_prefix (p ∷ ps) [] = none
strip_prefix (p ∷ ps) (c ∷ cs) = if eqb p c then strip_prefix ps cs else none

abbrev pub starts_with : Text → Text → Bool
starts_with p s = is_some (strip_prefix p s)

-- `s.endsWith(suffix)`
unfoldable pub ends_with : Text → Text → Bool
ends_with suffix [] = [] == suffix
ends_with suffix (c ∷ cs) = if (c ∷ cs) == suffix then true else ends_with suffix cs

-- Some code unit passes the test.
unfoldable pub has_unit : (ℕ → Bool) → Text → Bool
has_unit p [] = false
has_unit p (c ∷ cs) = p c || has_unit p cs
