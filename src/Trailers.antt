-- ===== src/Trailers.antt =====
-- josh-core/src/trailers.rs: the trailers at the end of a commit message.
use josh.Base.{
  ℕ, Bool, true, false, ◌&&◌, ◌||◌, Option, none, some, List, [], ◌∷◌, ◌++◌, Text, leb, all, ◌==◌,
  if◌then◌else◌,
}
use josh.Persist.Utf8.{bytes}
use josh.Persist.Read.Keys.{strip_prefix}

abbrev add_first : ℕ → List Text → List Text
add_first c [] = (c ∷ []) ∷ []
add_first c (l ∷ ls) = (c ∷ l) ∷ ls

abbrev at_newline : Text → Bool
at_newline [] = false
at_newline (c ∷ s) = c == 0x0A

-- `str::lines`: a line ends in a newline, or a carriage return and a newline.
unfoldable pub lines : Text → List Text
lines [] = []
lines (c ∷ s) =
    let rest = lines s in
    if c == 0x0A then [] ∷ rest else if c == 0x0D && at_newline s then rest else add_first c rest

-- `is_ascii_alphanumeric`, or a dash
abbrev is_key_byte : ℕ → Bool
is_key_byte c =
    leb 0x30 c && leb c 0x39 || leb 0x41 c && leb c 0x5A || leb 0x61 c && leb c 0x7A || c == b'-'

abbrev is_some : Option Text → Bool
is_some none = false
is_some (some s) = true

-- What comes behind the longest key.
abbrev after_key : Text → Text
after_key [] = []
after_key (c ∷ s) = let rest = after_key s in if is_key_byte c then rest else c ∷ s

unfoldable pub is_trailer_line : Text → Bool
unfolding strip_prefix
is_trailer_line [] = false
is_trailer_line (c ∷ s) = is_key_byte c && is_some (strip_prefix (bytes ": ") (after_key s))

abbrev is_footer_line : Text → Bool
is_footer_line [] = true
is_footer_line (c ∷ s) = is_trailer_line (c ∷ s)

-- The lines from `footer_start` on: the last lines, as many as are empty or trailers.
unfoldable pub footer : List Text → List Text
unfolding is_trailer_line
footer [] = []
footer (l ∷ ls) = let rest = footer ls in if all is_footer_line (l ∷ ls) then l ∷ ls else rest

abbrev or_before : Option Text → Option Text → Option Text
or_before (some v) old = some v
or_before none old = old

abbrev add_series : Option Text → List Text → List Text
add_series none series = series
add_series (some v) series = series ++ v ∷ []

-- The loop over the lines of the footer.
unfoldable pub read_footer : List Text → Option Text → List Text → Option Text × List Text
unfolding strip_prefix
read_footer [] id series = (id, series)
read_footer (l ∷ ls) id series =
    let id' = or_before (strip_prefix (bytes "Change: ") l) id in
    read_footer ls (or_before (strip_prefix (bytes "Change-Id: ") l) id')
      (add_series (strip_prefix (bytes "Change-Series: ") l) series)

unfoldable pub parse_change_meta : Text → Option Text × List Text
unfolding lines footer read_footer
parse_change_meta message = read_footer (footer (lines message)) none []
