-- ===== src/Icalendar/Tests.antt =====
-- Escaped texts and folded lines.
use scout_site.Prelude.{ℕ, zero, suc, ◌≡◌, refl, [], ◌∷◌, ◌++◌, some, false, length, drop, All}
use scout_site.Prelude.Text.{Bytes, codes}
use scout_site.Icalendar.{replace_all, replace_crlf, escape_specials, escape_text, unescape_text}
use scout_site.Icalendar.Escape.{unescape_text-escape_text}
use scout_site.Icalendar.Fold.{
  back_off, fold_line, line, scan_lines, trim_returns, join_last, add_line, add_lines, unfold_lines,
}
use scout_site.Icalendar.RoundTrip.{HasNoBreak, unfold_lines-write_lines}
use scout_site.Icalendar.Render.{write_lines}
use scout_site.Icalendar.Limit.{IsFolded, line-IsFolded}

abbrev address : Bytes
address = codes "Camp; 12 Main, \\n"

round_trip : unescape_text (escape_text address) ≡ address
unfolding escape_text escape_specials replace_all replace_crlf unescape_text
round_trip = refl

-- "\\n" is a backslash and an n, not a newline.
not_a_newline : unescape_text (codes "\\\\n") ≡ codes "\\n"
unfolding unescape_text
not_a_newline = refl

unescape_text-escape_text_example :
    unescape_text (escape_text (10 ∷ 59 ∷ 92 ∷ [])) ≡ 10 ∷ 59 ∷ 92 ∷ []
unescape_text-escape_text_example =
    unescape_text-escape_text (10 ∷ 59 ∷ 92 ∷ []) (refl, (refl, (refl, tt)))

-- A line of 76 bytes is folded before its last.
abbrev ones : ℕ → Bytes
ones zero = []
ones (suc n) = 49 ∷ ones n

folded_once : line (ones 76) ≡ ones 75 ++ (13 ∷ 10 ∷ 32 ∷ 49 ∷ 13 ∷ 10 ∷ [])
unfolding line fold_line back_off
folded_once = refl

-- A cut goes back to the start of the character "é".
cut_at_character : back_off 75 (ones 74 ++ (195 ∷ 169 ∷ ones 10)) ≡ 74
unfolding back_off
cut_at_character = refl

-- A continued line may take the blank and 75 bytes more.
continuation_of_76 : length (drop 77 (line (ones 150))) ≡ 78
unfolding line fold_line back_off
continuation_of_76 = refl

continued :
    unfold_lines false (codes "A:1\n b\r\n\r\n\tc\nD:2") ≡ some (codes "A:1bc" ∷ codes "D:2" ∷ [])
unfolding unfold_lines add_lines add_line join_last trim_returns scan_lines
continued = refl

abbrev long_note : Bytes
long_note = ones 80

long_note-HasNoBreak : (n : ℕ) → HasNoBreak (ones n)
long_note-HasNoBreak zero = tt
long_note-HasNoBreak (suc n) = (refl, (refl, long_note-HasNoBreak n))

unfold_lines-write_lines_example :
    unfold_lines false (write_lines (long_note ∷ codes "D:2" ∷ []))
    ≡ some (long_note ∷ codes "D:2" ∷ [])
unfold_lines-write_lines_example = unfold_lines-write_lines (long_note ∷ codes "D:2" ∷ []) (
  (refl, long_note-HasNoBreak 80),
  ((refl, (refl, (refl, (refl, (refl, (refl, (refl, tt))))))), tt),
)

line-IsFolded_example : All IsFolded (scan_lines (line long_note))
line-IsFolded_example = line-IsFolded long_note (long_note-HasNoBreak 80)
