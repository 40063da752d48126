-- ===== src/Persist/PathText.antt =====
-- Paths as text, as josh-filter/src/persist.rs writes and reads them: a path is printed with one
-- `/` between its components, and `PathBuf::from` and `Path::components` read it.
pub mod RoundTrip
use josh.Base.{
  ℕ, Bool, true, false, ◌||◌, List, [], ◌∷◌, ◌++◌, map, Text, text_eq, ◌≡◌, ◌≢◌, refl, sym, ap, ◌∙◌,
  ◌==◌, any, if◌then◌else◌, arith, text_eq→eq, text_eq_refl, Bool-cases, inl, inr,
}
use josh.FilePath.{FilePath, Component, root_dir, cur_dir, parent_dir, normal}
use josh.Persist.Utf8.{bytes, IsUtf8, from_utf8-append}

unfoldable pub component_text : Component → Text
component_text root_dir = bytes "/"
component_text cur_dir = bytes "."
component_text parent_dir = bytes ".."
component_text (normal s) = s

unfoldable pub path_text : FilePath → Text
unfolding component_text
path_text [] = []
path_text (c ∷ []) = component_text c
path_text (root_dir ∷ c ∷ p) = b'/' ∷ path_text (c ∷ p)
path_text (c ∷ d ∷ p) = component_text c ++ b'/' ∷ path_text (d ∷ p)

abbrev put_first : ℕ → List Text → List Text
put_first c [] = (c ∷ []) ∷ []
put_first c (w ∷ ws) = (c ∷ w) ∷ ws

-- The text between slashes.
unfoldable pub pieces : Text → List Text
pieces [] = [] ∷ []
pieces (c ∷ s) = if c == b'/' then [] ∷ pieces s else put_first c (pieces s)

abbrev piece_component : Text → Component
piece_component s = if text_eq s (bytes "..") then parent_dir else normal s

-- Empty pieces and dots are skipped.
unfoldable pub read_pieces : List Text → FilePath
unfolding text_eq
read_pieces [] = []
read_pieces (w ∷ ws) =
    let rest = read_pieces ws in
    if text_eq w [] || text_eq w (bytes ".") then rest else piece_component w ∷ rest

-- A slash in front makes the path absolute, and a dot in front of a relative path is kept.
unfoldable pub from_pieces : List Text → FilePath
unfolding read_pieces
from_pieces [] = []
from_pieces ([] ∷ []) = []
from_pieces ([] ∷ w ∷ ws) = root_dir ∷ read_pieces (w ∷ ws)
from_pieces ((c ∷ s) ∷ ws) =
    if text_eq (c ∷ s) (bytes ".") then cur_dir ∷ read_pieces ws else read_pieces ((c ∷ s) ∷ ws)

unfoldable pub path_of : Text → FilePath
unfolding pieces from_pieces
path_of s = from_pieces (pieces s)

path_of_example :
    path_of (bytes "a//b/./..") ≡ normal (bytes "a") ∷ normal (bytes "b") ∷ parent_dir ∷ []
unfolding path_of
path_of_example = refl

abbrev has_slash : Text → Bool
has_slash = any (λ c. c == b'/')

-- A file name.
abbrev pub IsName : Text → Type 0
IsName s =
    IsUtf8 s
    × (has_slash s ≡ false)
    × (text_eq s [] || text_eq s (bytes ".") ≡ false)
    × (text_eq s (bytes "..") ≡ false)

-- What `Path::components` gives behind the first component, of a path in UTF-8.
abbrev pub IsRelative : FilePath → Type 0
IsRelative [] = Unit
IsRelative (normal s ∷ p) = IsName s × IsRelative p
IsRelative (parent_dir ∷ p) = IsRelative p
IsRelative (_ ∷ p) = ⊥

-- A root or a dot only in front.
abbrev pub IsPath : FilePath → Type 0
IsPath (root_dir ∷ p) = IsRelative p
IsPath (cur_dir ∷ p) = IsRelative p
IsPath p = IsRelative p
