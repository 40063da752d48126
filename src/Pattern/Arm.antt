-- ===== src/Pattern/Arm.antt =====
-- `Op::Pattern`: whichever walk is taken, the result is that of the walk by full paths.
use Prim.Native.Nat.{◌^◌}
use native.Mathlib.Nat.{pow-le-pow_right}
use josh.Base.{
  ℕ, ◌≤◌, ◌<◌, Bool, true, false, some, some_inj, List, [], ◌∷◌, ◌++◌, ◌==◌, if◌then◌else◌, length,
  Text, ◌≡◌, ◌≢◌, refl, arith, ltb, Bool-cases, inl, inr, >>=-eq-some, subst,
}
use josh.Tree.Object.{Obj}
use josh.Pattern.Mask.{set_bits}
use josh.Pattern.Compile.{
  Token, Glob, CompiledPattern, PatternComponent, compile, closure, all_star_suffixes, split_tokens,
  drop_trailing, split_pattern_components, components_of, pattern_of, char, any_recursive_sequence,
  other,
}
use josh.Pattern.Walk.{remove_pred, next_state, apply_pattern}
use josh.Pattern.Matches.{path_matches}
use josh.Pattern.Closure.{closure_from-lt}
use josh.Pattern.Loops.{set_bits-InRange, next_state-bits}
use josh.Pattern.Equivalence.{IsTree, AreNames, full_path, zero_small, remove_pattern-remove_pred}

-- The library's match of a whole path is the match of its components one by one.
abbrev pub Factorizes : Glob → CompiledPattern → Type 0
Factorizes g cp =
    (n : Text) (ns : List Text)
    → AreNames (n ∷ ns)
    → g.full_matches cp.full (full_path [] (n ∷ ns))
      ≡ path_matches g.token_matches cp.components (n ∷ ns)

if-ne-nil : (b : Bool) {x y : List (List Token)} → x ≢ [] → y ≢ [] → (if b then x else y) ≢ []
if-ne-nil true h k = h
if-ne-nil false h k = k

split_tokens-ne-nil : (part ts : List Token) → split_tokens part ts ≢ []
unfolding split_tokens
split_tokens-ne-nil part [] e = cc
split_tokens-ne-nil part (any_recursive_sequence ∷ ts) e = cc
split_tokens-ne-nil part (other i ∷ ts) e = split_tokens-ne-nil (part ++ other i ∷ []) ts e
split_tokens-ne-nil part (char c ∷ ts) e =
    if-ne-nil (c == b'/') (λ q. cc) (split_tokens-ne-nil (part ++ char c ∷ []) ts) e

drop_trailing-ne-nil : (parts : List (List Token)) → parts ≢ [] → drop_trailing parts ≢ []
unfolding drop_trailing
drop_trailing-ne-nil [] h e = h refl
drop_trailing-ne-nil ((any_recursive_sequence ∷ []) ∷ [] ∷ []) h e = cc
drop_trailing-ne-nil (part ∷ parts) h e = cc

components_of-ne-nil : (parts : List (List Token)) → parts ≢ [] → components_of parts ≢ []
unfolding components_of
components_of-ne-nil [] h e = h refl
components_of-ne-nil (part ∷ parts) h e = cc

-- A pattern has a component.
some_component : (ts : List Token) → components_of (split_pattern_components ts) ≢ []
unfolding split_pattern_components
some_component ts =
    components_of-ne-nil (drop_trailing (split_tokens [] ts))
      (drop_trailing-ne-nil (split_tokens [] ts) (split_tokens-ne-nil [] ts))

either :
    (g : Glob) (pattern : Text) (cs : List PatternComponent) (o : Obj)
    → cs ≢ []
    → Factorizes g (pattern_of pattern cs)
    → IsTree o
    → apply_pattern g (pattern_of pattern cs) o ≡ remove_pred (g.full_matches pattern) [] o
unfolding apply_pattern
either g pattern cs o some_one f t = elim (Bool-cases (ltb 63 (length cs))) [
  | inl long ↦ rw long
  | inr short ↦
      rw short
        (remove_pattern-remove_pred g cs (ground arith) (g.full_matches pattern) o some_one t f)
]

-- If the glob library matches a whole path as the components of the pattern match its names one by
-- one, then on a tree whose names are in UTF-8, not empty and without a slash, whichever walk the
-- Pattern filter takes, its result is that of the walk by full paths.
pub apply_pattern-remove_pred :
    (g : Glob) (pattern : Text) (cp : CompiledPattern) (o : Obj)
    → compile g pattern ≡ some cp
    → Factorizes g cp
    → IsTree o
    → apply_pattern g cp o ≡ remove_pred (g.full_matches cp.full) [] o
unfolding compile
apply_pattern-remove_pred g pattern cp o e factorizes t =
    let (ts, tokens, e') = >>=-eq-some (g.tokens pattern) _ e in
    subst (λ c. Factorizes g c → apply_pattern g c o ≡ remove_pred (g.full_matches c.full) [] o)
      (some_inj e')
      (λ f.
        either g pattern (components_of (split_pattern_components ts)) o (some_component ts) f t)
      factorizes

-- For a pattern of at most 63 components and a state with a bit for each component at most, the
-- closure has no other bits, every position that is active has a component, so that there is a
-- successor state for every name, and this has no other bits either: 63 bits are enough.
pub state_bounds :
    (g : Glob) (cs : List PatternComponent) (name : Text) (m : ℕ)
    → length cs ≤ 63
    → m < 2 ^ length cs
    → (closure cs m < 2 ^ length cs)
      × (2 ^ length cs ≤ 2 ^ 63)
      × (r : ℕ) × (next_state g cs (all_star_suffixes cs) name (set_bits (closure cs m)) 0 ≡ some r)
      × (r < 2 ^ length cs)
unfolding closure
state_bounds g cs name m short small =
    let closed = closure_from-lt (length cs) cs 0 m (omega arith) small in
    let (r, e, below, bits) =
      next_state-bits g cs name (set_bits (closure cs m)) 0
        (set_bits-InRange (length cs) (closure cs m) closed) (zero_small (length cs)) in
    (closed, pow-le-pow_right {n = 2} (omega arith) {i = length cs} {j = 63} short, r, e, below)
