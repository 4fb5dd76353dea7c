-- ===== src/Icalendar.antt =====
-- The TEXT values of RFC 5545: escapeText of internal/icalendar/render.go and unescapeText of
-- internal/icalendar/parse.go, on the bytes of a string.
pub mod Escape
pub mod Fold
pub mod RoundTrip
pub mod Limit
pub mod Property
pub mod Event
pub mod Recurrence
pub mod Parse
pub mod Render
pub mod Stamps
pub mod Published
pub mod Window
pub mod Regular
pub mod Reading
pub mod Import
mod Tests
mod Examples
use scout_site.Prelude.{ℕ, Bool, true, false, ◌&&◌, ◌||◌, List, [], ◌∷◌, ◌++◌, ◌==◌, if◌then◌else◌}
use scout_site.Prelude.Text.{Bytes}

abbrev pub backslash : ℕ
backslash = 92

abbrev pub semicolon : ℕ
semicolon = 59

abbrev pub comma : ℕ
comma = 44

abbrev pub newline : ℕ
newline = 10

abbrev pub return : ℕ
return = 13

abbrev pub lower_n : ℕ
lower_n = 110

abbrev pub upper_n : ℕ
upper_n = 78

-- strings.ReplaceAll of one byte.
unfoldable pub replace_all : ℕ → Bytes → Bytes → Bytes
replace_all b new [] = []
replace_all b new (c ∷ s) =
    let rest = replace_all b new s in if c == b then new ++ rest else c ∷ rest

-- strings.ReplaceAll of "\r\n".
unfoldable pub replace_crlf : Bytes → Bytes → Bytes
replace_crlf new [] = []
replace_crlf new (c ∷ []) = c ∷ []
replace_crlf new (c ∷ d ∷ s) =
    let after = replace_crlf new s in
    let next = replace_crlf new (d ∷ s) in
    if c == return && d == newline then new ++ after else c ∷ next

abbrev pub escaped : ℕ → Bytes
escaped c = backslash ∷ c ∷ []

-- The first three replacements.
unfoldable pub escape_specials : Bytes → Bytes
unfolding replace_all
escape_specials s =
    replace_all comma (escaped comma)
      (replace_all semicolon (escaped semicolon) (replace_all backslash (escaped backslash) s))

unfoldable pub escape_text : Bytes → Bytes
unfolding escape_specials replace_crlf replace_all
escape_text s =
    replace_all return (escaped lower_n)
      (replace_all newline (escaped lower_n) (replace_crlf (escaped lower_n) (escape_specials s)))

-- What the byte after a backslash stands for, before the text `rest`.
abbrev pub unescape_byte : ℕ → Bytes → Bytes
unescape_byte c rest =
    if c == lower_n || c == upper_n
    then newline ∷ rest
    else (if c == backslash || (c == semicolon || c == comma)
        then c ∷ rest
        else backslash ∷ c ∷ rest)

unfoldable pub unescape_text : Bytes → Bytes
unescape_text [] = []
unescape_text (c ∷ []) = c ∷ []
unescape_text (c ∷ d ∷ s) =
    let after = unescape_text s in
    let next = unescape_text (d ∷ s) in if c == backslash then unescape_byte d after else c ∷ next
