-- ===== src/Prelude/Text.antt =====
-- A Rust `str` is a native `String`, a sequence of Unicode scalar values; `bytes` is its UTF-8
-- encoding, on which `len`, `bytes` and the hashes of the program work.
use Prim.Native.Nat.{ℕ, ◌+◌, ◌/◌, ◌%◌, Ordering}
use Prim.Native.Char.{code}
use Prim.Native.String.{String}
use mathlib.Core.Bool.{Bool, true, false, ◌&&◌, ◌||◌}
use mathlib.Core.Option.{Option, none, some}
use mathlib.Core.List.{List, [], ◌∷◌, ◌++◌}
use text.Mathlib.Text.{◌==◌}
use zbrain.Prelude.Tests.{ltb, leb, eqb, if◌then◌else◌}
use zbrain.Prelude.Lists.{length}

-- The UTF-8 encoding of one scalar value.
abbrev pub utf8 : ℕ → List ℕ
utf8 c =
    if ltb c 0x80
    then c ∷ []
    else if ltb c 0x800
    then (0xc0 + c / 64) ∷ (0x80 + c % 64) ∷ []
    else if ltb c 0x10000
    then (0xe0 + c / 4096) ∷ (0x80 + c / 64 % 64) ∷ (0x80 + c % 64) ∷ []
    else (0xf0 + c / 262144) ∷ (0x80 + c / 4096 % 64) ∷ (0x80 + c / 64 % 64) ∷ (0x80 + c % 64) ∷ []

abbrev pub bytes : String → List ℕ
bytes String.[] = []
bytes (String.◌∷◌ c s) = utf8 (code c) ++ bytes s

abbrev pub byte_length : String → ℕ
byte_length s = length (bytes s)

-- `value.strip_prefix(prefix)`, by the prefix
unfoldable pub strip_prefix : String → String → Option String
strip_prefix String.[] s = some s
strip_prefix (String.◌∷◌ p ps) String.[] = none
strip_prefix (String.◌∷◌ p ps) (String.◌∷◌ c s) =
    if eqb (code p) (code c) then strip_prefix ps s else none

-- `value.starts_with(prefix)`, by the prefix
abbrev pub has_prefix : String → String → Bool
has_prefix p s = elim (strip_prefix p s) [ none ↦ false | some r ↦ true ]

-- `char::is_whitespace`, Unicode's White_Space
unfoldable pub is_whitespace : ℕ → Bool
is_whitespace c =
    leb 0x09 c && leb c 0x0d
    || eqb c 0x20
    || eqb c 0x85
    || eqb c 0xa0
    || eqb c 0x1680
    || leb 0x2000 c && leb c 0x200a
    || eqb c 0x2028
    || eqb c 0x2029
    || eqb c 0x202f
    || eqb c 0x205f
    || eqb c 0x3000

unfoldable pub trim_start : String → String
unfolding is_whitespace
trim_start String.[] = ""
trim_start (String.◌∷◌ c s) = if is_whitespace (code c) then trim_start s else String.◌∷◌ c s

unfoldable pub trim_end : String → String
unfolding is_whitespace
trim_end String.[] = ""
trim_end (String.◌∷◌ c s) =
    let rest = trim_end s in if is_whitespace (code c) && rest == "" then "" else String.◌∷◌ c rest

unfoldable pub trim : String → String
unfolding trim_start trim_end
trim s = trim_end (trim_start s)

-- `value.trim().is_empty()`
abbrev pub is_blank : String → Bool
is_blank s = trim s == ""

abbrev pub text_le : String → String → Bool
text_le s t = elim (Prim.Native.String.compare s t) [ Ordering.gt ↦ false | _ ↦ true ]

-- `value.ends_with(suffix)`, by the suffix
unfoldable pub has_suffix : String → String → Bool
has_suffix suffix String.[] = suffix == ""
has_suffix suffix (String.◌∷◌ c s) = String.◌∷◌ c s == suffix || has_suffix suffix s

-- `value.strip_suffix(suffix)`, by the suffix
unfoldable pub strip_suffix : String → String → Option String
strip_suffix suffix String.[] = if suffix == "" then some "" else none
strip_suffix suffix (String.◌∷◌ c s) =
    let rest = strip_suffix suffix s in
    if String.◌∷◌ c s == suffix
    then some ""
    else elim rest [ none ↦ none | some stem ↦ some (String.◌∷◌ c stem) ]
