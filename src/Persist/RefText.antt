-- ===== src/Persist/RefText.antt =====
-- The texts of link modes and lazy refs: `Display` and `parse` in josh-filter/src/op.rs, over what
-- the code takes from the libraries git2, serde_json, regex and glob.
use mathlib.Core.List.{append-nil}
use josh.Base.{
  ℕ, Bool, true, not, ◌&&◌, ◌||◌, Option, none, some, [], ◌∷◌, ◌++◌, all, Text, text_eq, ◌≡◌, refl,
  sym, ap, ◌∙◌, ◌==◌, leb, if◌then◌else◌, arith,
}
use josh.Filter.Op.{LinkMode, embedded, snapshot, pointer, LazyRef, resolved, lazy}
use josh.Tree.Object.{Obj}
use josh.Persist.Utf8.{bytes, IsUtf8, utf8_run, utf8_first, start, from_utf8-append}

-- What the code takes from elsewhere: `Display` and `from_str` of an object id, a JSON text that is a
-- string, whether a text is a regular expression and a glob; and which object an id names.
pub record Codec : Type 0 where
  pub hex : ℕ → Text
  pub parse_hex : Text → Option ℕ
  pub json_string : Text → Option Text
  pub is_regex : Text → Bool
  pub is_glob : Text → Bool
  pub object : ℕ → Obj
  pub id_of : Obj → ℕ

abbrev pub is_hex_digit : ℕ → Bool
is_hex_digit c = leb b'0' c && leb c b'9' || leb b'a' c && leb c b'f'

-- No quote of either kind, no backslash, no control character.
abbrev pub is_plain : ℕ → Bool
is_plain c = leb b' ' c && not (c == b'"' || c == b'\'' || c == b'\\')

abbrev pub quoted : Text → Text
quoted s = b'"' ∷ s ++ b'"' ∷ []

-- The documented behaviour of these: an id is printed in hexadecimal digits and read back, a text of
-- such digits is no JSON string, and a JSON string without escapes is the text between its quotes.
pub record IsCodec (c : Codec) : Type 0 where
  pub hex_digits : (i : ℕ) → all is_hex_digit (c.hex i) ≡ true
  pub parse_hex-hex : (i : ℕ) → c.parse_hex (c.hex i) ≡ some i
  pub json_string-hex : (s : Text) → all is_hex_digit s ≡ true → c.json_string s ≡ none
  pub json_string-quoted :
      (s : Text) → all is_plain s ≡ true → IsUtf8 s → c.json_string (quoted s) ≡ some s
  pub id_of-object : (i : ℕ) → c.id_of (c.object i) ≡ i

unfoldable pub link_mode_text : LinkMode → Text
link_mode_text embedded = bytes "embedded"
link_mode_text snapshot = bytes "snapshot"
link_mode_text pointer = bytes "pointer"

unfoldable pub parse_link_mode : Text → Option LinkMode
unfolding text_eq
parse_link_mode s =
    if text_eq s (bytes "embedded")
    then some embedded
    else if text_eq s (bytes "snapshot")
    then some snapshot
    else if text_eq s (bytes "pointer")
    then some pointer
    else none

-- `s.replace("'", "\"")`
abbrev pub replace_quotes : Text → Text
replace_quotes [] = []
replace_quotes (c ∷ s) = (if c == b'\'' then b'"' else c) ∷ replace_quotes s

module _ (c : Codec) where
  unfoldable pub lazy_ref_text : LazyRef → Text
  lazy_ref_text (resolved i) = c.hex i
  lazy_ref_text (lazy s) = quoted s

  abbrev pub parse_oid : Option ℕ → Option LazyRef
  parse_oid none = none
  parse_oid (some i) = some (resolved i)

  abbrev pub parse_quoted : Option Text → Text → Option LazyRef
  parse_quoted (some s) t = some (lazy s)
  parse_quoted none t = parse_oid (c.parse_hex t)

  unfoldable pub parse_lazy_ref : Text → Option LazyRef
  parse_lazy_ref s = let t = replace_quotes s in parse_quoted (c.json_string t) t

-- A name that is printed between quotes as it is.
abbrev pub IsRef : LazyRef → Type 0
IsRef (resolved i) = Unit
IsRef (lazy s) = (all is_plain s ≡ true) × IsUtf8 s

replace_quotes-plain :
    (s t : Text) → all is_plain s ≡ true → replace_quotes (s ++ t) ≡ s ++ replace_quotes t
replace_quotes-plain [] t h = refl
replace_quotes-plain (c ∷ s) t h = ground (arith, replace_quotes-plain s t)

hex-plain : (s : Text) → all is_hex_digit s ≡ true → all is_plain s ≡ true
hex-plain [] h = refl
hex-plain (c ∷ s) h = ground (arith, hex-plain s)

hex-ascii : (c : ℕ) → is_hex_digit c ≡ true → utf8_first c ≡ start
unfolding utf8_first
hex-ascii c h = ground arith

pub all-cons :
    (p : ℕ → Bool) (c : ℕ) (s : Text) → all p (c ∷ s) ≡ true → (p c ≡ true) × (all p s ≡ true)
all-cons p c s h = ground arith

pub hex-IsUtf8 : (s : Text) → all is_hex_digit s ≡ true → IsUtf8 s
unfolding utf8_run
hex-IsUtf8 [] h = refl
hex-IsUtf8 (c ∷ s) h =
    let (digit, rest) = all-cons is_hex_digit c s h in rw (hex-ascii c digit) (hex-IsUtf8 s rest)

module _ (c : Codec) (laws : IsCodec c) where
  -- A lazy ref is read back from its text.
  pub parse_lazy_ref-lazy_ref_text :
      (r : LazyRef) → IsRef r → parse_lazy_ref c (lazy_ref_text c r) ≡ some r
  unfolding parse_lazy_ref lazy_ref_text
  parse_lazy_ref-lazy_ref_text (resolved i) h =
      let same : replace_quotes (c.hex i) ≡ c.hex i =
        ap replace_quotes (sym (append-nil _))
        ∙ replace_quotes-plain (c.hex i) [] (hex-plain (c.hex i) (laws.hex_digits i))
        ∙ append-nil _ in
      rw same (rw (laws.json_string-hex _ (laws.hex_digits i)) (rw (laws.parse_hex-hex i)))
  parse_lazy_ref-lazy_ref_text (lazy s) (h, k) =
      rw (replace_quotes-plain s (b'"' ∷ []) h) (rw (laws.json_string-quoted s h k))

module _ (c : Codec) (laws : IsCodec c) where
  pub lazy_ref_text-IsUtf8 : (r : LazyRef) → IsRef r → IsUtf8 (lazy_ref_text c r)
  unfolding lazy_ref_text utf8_run
  lazy_ref_text-IsUtf8 (resolved i) h = hex-IsUtf8 (c.hex i) (laws.hex_digits i)
  lazy_ref_text-IsUtf8 (lazy s) (h, k) = from_utf8-append s (b'"' ∷ []) k refl

pub parse_link_mode-link_mode_text : (m : LinkMode) → parse_link_mode (link_mode_text m) ≡ some m
unfolding parse_link_mode link_mode_text
parse_link_mode-link_mode_text embedded = refl
parse_link_mode-link_mode_text snapshot = refl
parse_link_mode-link_mode_text pointer = refl
