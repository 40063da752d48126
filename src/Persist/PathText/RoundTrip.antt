-- ===== src/Persist/PathText/RoundTrip.antt =====
-- A path is read back from its text.
use josh.Base.{false, [], ◌∷◌, ◌++◌, map, Text, ◌≡◌, refl, ap, ◌∙◌, if-false, arith}
use josh.FilePath.{FilePath, Component, root_dir, cur_dir, parent_dir, normal}
use josh.Persist.Utf8.{bytes, IsUtf8, from_utf8-append, utf8_run}
use josh.Persist.PathText.{
  component_text, path_text, pieces, read_pieces, from_pieces, path_of, has_slash, IsRelative,
  IsPath,
}

pieces-slash : (s t : Text) → has_slash s ≡ false → pieces (s ++ b'/' ∷ t) ≡ s ∷ pieces t
unfolding pieces
pieces-slash [] t h = refl
pieces-slash (c ∷ s) t h = ground (arith, pieces-slash s t)

pub pieces-plain : (s : Text) → has_slash s ≡ false → pieces s ≡ s ∷ []
unfolding pieces
pieces-plain [] h = refl
pieces-plain (c ∷ s) h = ground (arith, pieces-plain s)

-- The pieces of a relative path that is not empty are its components.
relative_pieces :
    (c : Component) (p : FilePath)
    → IsRelative (c ∷ p)
    → pieces (path_text (c ∷ p)) ≡ map component_text (c ∷ p)
unfolding path_text
relative_pieces (normal s) [] (h, k) = pieces-plain s h.1
relative_pieces (normal s) (d ∷ p) (h, k) =
    pieces-slash s _ h.1 ∙ ap (λ ws. s ∷ ws) (relative_pieces d p k)
relative_pieces parent_dir [] h = pieces-plain (bytes "..") refl
relative_pieces parent_dir (d ∷ p) h =
    pieces-slash (bytes "..") _ refl ∙ ap (λ ws. bytes ".." ∷ ws) (relative_pieces d p h)
relative_pieces root_dir p h = absurd h
relative_pieces cur_dir p h = absurd h

read_pieces-map : (p : FilePath) → IsRelative p → read_pieces (map component_text p) ≡ p
unfolding read_pieces component_text
read_pieces-map [] h = refl
read_pieces-map (normal s ∷ p) (h, k) =
    rw h.2 (rw h.3 (ap (λ q. normal s ∷ q) (read_pieces-map p k)))
read_pieces-map (parent_dir ∷ p) h = ap (λ q. parent_dir ∷ q) (read_pieces-map p h)
read_pieces-map (root_dir ∷ p) h = absurd h
read_pieces-map (cur_dir ∷ p) h = absurd h

from_pieces-map : (p : FilePath) → IsRelative p → from_pieces (map component_text p) ≡ p
unfolding from_pieces component_text
from_pieces-map [] h = refl
from_pieces-map (normal [] ∷ p) (h, k) = absurd (cc (h.2))
from_pieces-map (normal (c ∷ s) ∷ p) (h, k) =
    if-false _ _ _ h.2 ∙ read_pieces-map (normal (c ∷ s) ∷ p) (h, k)
from_pieces-map (parent_dir ∷ p) h = read_pieces-map (parent_dir ∷ p) h
from_pieces-map (root_dir ∷ p) h = absurd h
from_pieces-map (cur_dir ∷ p) h = absurd h

relative-path_text : (p : FilePath) → IsRelative p → path_of (path_text p) ≡ p
unfolding path_of path_text
relative-path_text [] h = refl
relative-path_text (c ∷ p) h = ap from_pieces (relative_pieces c p h) ∙ from_pieces-map (c ∷ p) h

-- A path with a root or a dot at most in front and file names in UTF-8 is read back from its text.
pub path_of-path_text : (p : FilePath) → IsPath p → path_of (path_text p) ≡ p
unfolding path_of path_text from_pieces pieces component_text
path_of-path_text [] h = refl
path_of-path_text (root_dir ∷ []) h = refl
path_of-path_text (root_dir ∷ c ∷ p) h =
    ap (λ ws. from_pieces ([] ∷ ws)) (relative_pieces c p h)
    ∙ ap (λ q. root_dir ∷ q) (read_pieces-map (c ∷ p) h)
path_of-path_text (cur_dir ∷ []) h = refl
path_of-path_text (cur_dir ∷ c ∷ p) h =
    ap (λ ws. from_pieces (bytes "." ∷ ws)) (relative_pieces c p h)
    ∙ ap (λ q. cur_dir ∷ q) (read_pieces-map (c ∷ p) h)
path_of-path_text (parent_dir ∷ p) h = relative-path_text (parent_dir ∷ p) h
path_of-path_text (normal s ∷ p) h = relative-path_text (normal s ∷ p) h

relative-IsUtf8 : (p : FilePath) → IsRelative p → IsUtf8 (path_text p)
unfolding path_text component_text utf8_run
relative-IsUtf8 [] h = refl
relative-IsUtf8 (normal s ∷ []) (h, k) = h.0
relative-IsUtf8 (normal s ∷ d ∷ p) (h, k) =
    from_utf8-append s (b'/' ∷ path_text (d ∷ p)) h.0 (relative-IsUtf8 (d ∷ p) k)
relative-IsUtf8 (parent_dir ∷ []) h = refl
relative-IsUtf8 (parent_dir ∷ d ∷ p) h = relative-IsUtf8 (d ∷ p) h
relative-IsUtf8 (root_dir ∷ p) h = absurd h
relative-IsUtf8 (cur_dir ∷ p) h = absurd h

pub path_text-IsUtf8 : (p : FilePath) → IsPath p → IsUtf8 (path_text p)
unfolding path_text component_text utf8_run
path_text-IsUtf8 [] h = refl
path_text-IsUtf8 (root_dir ∷ []) h = refl
path_text-IsUtf8 (root_dir ∷ c ∷ p) h = relative-IsUtf8 (c ∷ p) h
path_text-IsUtf8 (cur_dir ∷ []) h = refl
path_text-IsUtf8 (cur_dir ∷ c ∷ p) h = relative-IsUtf8 (c ∷ p) h
path_text-IsUtf8 (parent_dir ∷ p) h = relative-IsUtf8 (parent_dir ∷ p) h
path_text-IsUtf8 (normal s ∷ p) h = relative-IsUtf8 (normal s ∷ p) h
