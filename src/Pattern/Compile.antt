-- ===== src/Pattern/Compile.antt =====
-- `CompiledPattern` of josh-filter/src/pattern.rs, over the glob library.
use josh.Base.{
  ℕ, suc, Bool, true, false, ◌&&◌, Option, some, List, [], ◌∷◌, ◌++◌, length, Text, ltb, ◌==◌,
  if◌then◌else◌, ◌>>=◌,
}
use josh.Pattern.Mask.{bit, set}

-- `glob::PatternToken`, as far as the code looks into it: `Char`, `AnyRecursiveSequence`, others.
pub data Token : Type 0 where
  char : ℕ → Token
  any_recursive_sequence : Token
  other : ℕ → Token

-- The glob library: `Pattern::new` with the tokens, and `matches_with` for the pattern of a list of
-- tokens and for a whole pattern.
pub record Glob : Type 0 where
  pub tokens : Text → Option (List Token)
  pub token_matches : List Token → Text → Bool
  pub full_matches : Text → Text → Bool

pub data PatternComponent : Type 0 where
  star2 : PatternComponent
  glob : List Token → PatternComponent

pub record CompiledPattern : Type 0 where
  pub full : Text
  pub components : List PatternComponent
  pub suffix_all_star : List Bool
  pub fallback : Bool

-- The components, with the tokens of the last one so far.
unfoldable pub split_tokens : List Token → List Token → List (List Token)
split_tokens part [] = part ∷ []
split_tokens part (any_recursive_sequence ∷ ts) =
    (part ++ any_recursive_sequence ∷ []) ∷ split_tokens [] ts
split_tokens part (char c ∷ ts) =
    let new = part ∷ split_tokens [] ts in
    let same = split_tokens (part ++ char c ∷ []) ts in if c == b'/' then new else same
split_tokens part (other i ∷ ts) = split_tokens (part ++ other i ∷ []) ts

-- The empty component behind a `**` at the end is dropped.
unfoldable pub drop_trailing : List (List Token) → List (List Token)
drop_trailing [] = []
drop_trailing ((any_recursive_sequence ∷ []) ∷ [] ∷ []) = (any_recursive_sequence ∷ []) ∷ []
drop_trailing (part ∷ parts) = part ∷ drop_trailing parts

unfoldable pub split_pattern_components : List Token → List (List Token)
unfolding split_tokens drop_trailing
split_pattern_components ts = drop_trailing (split_tokens [] ts)

abbrev pub component_of : List Token → PatternComponent
component_of (any_recursive_sequence ∷ []) = star2
component_of ts = glob ts

unfoldable pub components_of : List (List Token) → List PatternComponent
components_of [] = []
components_of (part ∷ parts) = component_of part ∷ components_of parts

abbrev pub is_star2 : PatternComponent → Bool
is_star2 star2 = true
is_star2 (glob ts) = false

abbrev first_or_true : List Bool → Bool
first_or_true [] = true
first_or_true (b ∷ bs) = b

-- Filled from the last component on.
unfoldable pub all_star_suffixes : List PatternComponent → List Bool
all_star_suffixes [] = []
all_star_suffixes (c ∷ cs) =
    let rest = all_star_suffixes cs in (is_star2 c && first_or_true rest) ∷ rest

abbrev pub pattern_of : Text → List PatternComponent → CompiledPattern
pattern_of pattern cs = record {
  full = pattern;
  components = cs;
  suffix_all_star = all_star_suffixes cs;
  fallback = ltb 63 (length cs);
}

unfoldable pub compile : Glob → Text → Option CompiledPattern
unfolding split_pattern_components components_of all_star_suffixes
compile g pattern = do
  ts ← g.tokens pattern
  some (pattern_of pattern (components_of (split_pattern_components ts)))

-- From position `p` on; the last component has no successor.
unfoldable pub closure_from : List PatternComponent → ℕ → ℕ → ℕ
unfolding bit set
closure_from [] p m = m
closure_from (c ∷ []) p m = m
closure_from (c ∷ d ∷ cs) p m =
    closure_from (d ∷ cs) (suc p) (if bit p m && is_star2 c then set (suc p) m else m)

unfoldable pub closure : List PatternComponent → ℕ → ℕ
unfolding closure_from
closure cs m = closure_from cs 0 m

abbrev pub initial_state : ℕ
initial_state = 1
