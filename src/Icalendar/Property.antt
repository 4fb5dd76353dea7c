-- ===== src/Icalendar/Property.antt =====
-- One content line: splitProperty and splitUnquoted of internal/icalendar/parse.go.
use scout_site.Prelude.{
  ℕ, Bool, false, not, ◌&&◌, List, [], ◌∷◌, Option, none, some, ◌==◌, if◌then◌else◌,
}
use scout_site.Prelude.Text.{Bytes, same_bytes, trim_space, to_upper}
use scout_site.Icalendar.{semicolon}
use scout_site.Icalendar.Fold.{prepend}
use mathlib.Core.Option
use mathlib.Core.List.{reverse}

abbrev pub quote : ℕ
quote = 34

abbrev pub colon : ℕ
colon = 58

abbrev pub equals : ℕ
equals = 61

-- inQuotes after a byte.
abbrev pub toggled : ℕ → Bool → Bool
toggled c quoted = if c == quote then not quoted else quoted

-- line[:colon] and line[colon+1:], at the first colon outside quotes.
unfoldable pub cut_colon : Bool → Bytes → Option (Bytes × Bytes)
cut_colon quoted [] = none
cut_colon quoted (c ∷ s) =
    let rest = cut_colon (toggled c quoted) s in
    if c == colon && not quoted
    then some ([], s)
    else Option.map (λ (parts : Bytes × Bytes). (c ∷ parts.0, parts.1)) rest

-- The pieces between the separators outside quotes.
unfoldable pub split_unquoted : ℕ → Bool → Bytes → List Bytes
split_unquoted sep quoted [] = [] ∷ []
split_unquoted sep quoted (c ∷ s) =
    let pieces = split_unquoted sep (toggled c quoted) s in
    if c == sep && not (toggled c quoted) then [] ∷ pieces else prepend c pieces

-- strings.Split at one byte.
unfoldable pub split : ℕ → Bytes → List Bytes
split sep [] = [] ∷ []
split sep (c ∷ s) = let pieces = split sep s in if c == sep then [] ∷ pieces else prepend c pieces

-- strings.Cut at one byte.
unfoldable pub cut : ℕ → Bytes → Option (Bytes × Bytes)
cut sep [] = none
cut sep (c ∷ s) =
    let rest = cut sep s in
    if c == sep
    then some ([], s)
    else Option.map (λ (parts : Bytes × Bytes). (c ∷ parts.0, parts.1)) rest

-- strings.TrimLeft and strings.Trim, of the bytes that pass a test.
unfoldable pub trim_left_where : (ℕ → Bool) → Bytes → Bytes
trim_left_where p [] = []
trim_left_where p (c ∷ s) = let rest = trim_left_where p s in if p c then rest else c ∷ s

unfoldable pub trim_quotes : Bytes → Bytes
unfolding trim_left_where
trim_quotes s =
    let unquoted = λ (t : Bytes). trim_left_where (λ c. c == quote) t in
    reverse (unquoted (reverse (unquoted s)))

abbrev pub Params : Type 0
Params = List (Bytes × Bytes)

-- params[key], the empty text if it is missing.
unfoldable pub param : Bytes → Params → Bytes
param key [] = []
param key ((k, v) ∷ ps) = if same_bytes k key then v else param key ps

-- A later parameter takes the place of an earlier one: it stands before it.
unfoldable pub read_params : Params → List Bytes → Params
unfolding cut trim_space trim_quotes to_upper
read_params ps [] = ps
read_params ps (piece ∷ pieces) = elim (cut equals piece) [
  | none ↦ read_params ps pieces
  | some (k, v) ↦ read_params ((to_upper (trim_space k), trim_quotes (trim_space v)) ∷ ps) pieces
]

pub record Property : Type 0 where
  pub name : Bytes
  pub params : Params
  pub value : Bytes

abbrev of_pieces : List Bytes → Bytes → Property
of_pieces [] value = record { name = []; params = []; value = value }
of_pieces (name ∷ pieces) value = record {
  name = name;
  params = read_params [] pieces;
  value = value;
}

unfoldable pub split_property : Bytes → Property
unfolding cut_colon split_unquoted read_params
split_property line = elim (cut_colon false line) [
  | none ↦ record { name = line; params = []; value = [] }
  | some (head, value) ↦ of_pieces (split_unquoted semicolon false head) value
]
