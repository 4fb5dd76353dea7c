-- ===== src/Icalendar/Fold.antt =====
-- The content lines of RFC 5545: line of internal/icalendar/render.go, which folds one, and unfold
-- of internal/icalendar/parse.go, which reads them back.
use scout_site.Prelude.{
  ℕ, zero, suc, Bool, true, false, not, ◌&&◌, ◌||◌, List, [], ◌∷◌, ◌++◌, Option, none, some, ◌==◌,
  leb, ltb, if◌then◌else◌, length, take, drop,
}
use scout_site.Prelude.Text.{Bytes, byte_at}
use scout_site.Icalendar.{newline, return}

abbrev pub fold_at : ℕ
fold_at = 75

abbrev pub space : ℕ
space = 32

abbrev tab : ℕ
tab = 9

-- A byte 10xxxxxx, which does not start a character.
abbrev is_continuation : ℕ → Bool
is_continuation c = leb 128 c && ltb c 192

-- Where to cut: back to the start of a character, but not to the start of the text.
unfoldable pub back_off : ℕ → Bytes → ℕ
unfolding byte_at
back_off zero s = 0
back_off (suc cut) s =
    let back = back_off cut s in
    if leb 1 cut && is_continuation (byte_at (suc cut) s) then back else suc cut

-- The loop; the fuel is the length, of which every round takes a part.
unfoldable pub fold_line : ℕ → Bytes → Bytes
unfolding back_off
fold_line zero s = s ++ (return ∷ newline ∷ [])
fold_line (suc fuel) s =
    let cut = back_off fold_at s in
    let rest = fold_line fuel (drop cut s) in
    if leb (suc fold_at) (length s)
    then take cut s ++ (return ∷ newline ∷ space ∷ rest)
    else s ++ (return ∷ newline ∷ [])

unfoldable pub line : Bytes → Bytes
unfolding fold_line
line s = fold_line (length s) s

-- What the Scanner reads: the texts between the line ends.
abbrev pub prepend : ℕ → List Bytes → List Bytes
prepend c [] = (c ∷ []) ∷ []
prepend c (l ∷ ls) = (c ∷ l) ∷ ls

unfoldable pub scan_lines : Bytes → List Bytes
scan_lines [] = []
scan_lines (c ∷ s) = let rest = scan_lines s in if c == newline then [] ∷ rest else prepend c rest

abbrev pub is_empty {ℓ} : {A : Type ℓ} → List A → Bool
is_empty [] = true
is_empty (c ∷ s) = false

-- strings.TrimRight of "\r".
unfoldable pub trim_returns : Bytes → Bytes
trim_returns [] = []
trim_returns (c ∷ s) =
    let rest = trim_returns s in if is_empty rest && c == return then [] else c ∷ rest

-- lines[len(lines)-1] += rest, of which the code makes sure that there is a line.
unfoldable pub join_last : Bytes → List Bytes → List Bytes
join_last rest [] = []
join_last rest (l ∷ []) = (l ++ rest) ∷ []
join_last rest (l ∷ m ∷ ls) = l ∷ join_last rest (m ∷ ls)

abbrev pub is_blank : ℕ → Bool
is_blank c = c == space || c == tab

-- One round: an empty line is skipped, and one that starts with a blank continues the last.
unfoldable pub add_line : List Bytes → Bytes → List Bytes
unfolding join_last
add_line lines [] = lines
add_line lines (c ∷ s) =
    if is_blank c && not (is_empty lines) then join_last s lines else lines ++ ((c ∷ s) ∷ [])

unfoldable pub add_lines : List Bytes → List Bytes → List Bytes
unfolding add_line trim_returns
add_lines lines [] = lines
add_lines lines (l ∷ ls) = add_lines (add_line lines (trim_returns l)) ls

-- `fails` says whether the Scanner ends with an error: of the reader, or of a line over MaxFeedBytes.
unfoldable pub unfold_lines : Bool → Bytes → Option (List Bytes)
unfolding add_lines scan_lines
unfold_lines fails content = if fails then none else some (add_lines [] (scan_lines content))
