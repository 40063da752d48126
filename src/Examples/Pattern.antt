-- ===== src/Examples/Pattern.antt =====
-- Patterns (josh-filter/src/pattern.rs and josh-core/src/filter/tree.rs) on concrete inputs, with a glob
-- library of literal names in which a `*` stands for a `**`.
use Prim.Native.Nat.{◌^◌}
use mathlib.Core.List.{append-nil, append_assoc}
use josh.Base.{
  ℕ, ◌<◌, ◌≤◌, Bool, true, false, none, some, List, [], ◌∷◌, ◌++◌, map, Text, text_eq, ◌==◌,
  if◌then◌else◌, ◌≡◌, refl, sym, ap, ◌∙◌, arith, Bool-cases, inl, inr, ℕ_discrete,
}
use josh.Tree.Object.{Obj, Obj-discrete, tree, nil, entry, tree_mode, find}
use josh.Tree.Leaves.{leaf}
use josh.Persist.Utf8.{bytes, utf8_run}
use josh.Persist.PathText.{pieces}
use josh.Persist.PathText.RoundTrip.{pieces-plain}
use josh.Pattern.Mask.{set_bits}
use josh.Pattern.Compile.{
  Token, char, any_recursive_sequence, Glob, CompiledPattern, star2, glob, compile, closure,
  all_star_suffixes, split_pattern_components, components_of,
}
use josh.Pattern.Walk.{remove_pred, next_state, apply_pattern}
use josh.Pattern.Matches.{path_matches}
use josh.Pattern.Equivalence.{AreNames, full_path}
use josh.Pattern.Arm.{Factorizes, apply_pattern-remove_pred, state_bounds}
use josh.Pattern.Leaves.{leaf-remove_pred}
use josh.Pattern.Filtered.{leaf-apply_pattern}
use josh.Examples.World.{a, inner, sample}

abbrev token_of : ℕ → Token
token_of c = if c == b'*' then any_recursive_sequence else char c

abbrev literal : List Token → Text
literal [] = []
literal (char c ∷ ts) = c ∷ literal ts
literal (_ ∷ ts) = literal ts

abbrev literal_matches : List Token → Text → Bool
literal_matches ts n = text_eq (literal ts) n

abbrev library : Glob
library = record {
  tokens = λ s. some (map token_of s);
  token_matches = literal_matches;
  full_matches = λ s path.
      path_matches literal_matches (components_of (split_pattern_components (map token_of s)))
        (pieces path);
}

abbrev below_a : Text
below_a = bytes "a/*"

abbrev compiled : CompiledPattern
compiled = record {
  full = below_a;
  components = glob (char b'a' ∷ []) ∷ star2 ∷ [];
  suffix_all_star = false ∷ true ∷ [];
  fallback = false;
}

below_a-compiled : compile library below_a ≡ some compiled
unfolding compile
below_a-compiled = refl

-- `a/b` is kept, `b` is not.
below_a-kept : apply_pattern library compiled sample ≡ some (tree (entry tree_mode a inner nil))
unfolding apply_pattern Obj-discrete ℕ_discrete text_eq
below_a-kept = refl

pieces_cons : (s : Text) → (w : Text) × (ws : List Text) × (pieces s ≡ w ∷ ws)
unfolding pieces
pieces_cons [] = ([], [], refl)
pieces_cons (c ∷ s) = elim (Bool-cases (c == b'/')) [
  | inl e ↦ ([], pieces s, rw e refl)
  | inr e ↦ let (w, ws, h) = pieces_cons s in (c ∷ w, ws, rw e (rw h refl))
]

pieces-append : (p t : Text) → pieces (p ++ b'/' ∷ t) ≡ pieces p ++ pieces t
unfolding pieces
pieces-append [] t = refl
pieces-append (c ∷ p) t = elim (Bool-cases (c == b'/')) [
  | inl e ↦ rw e (ap (λ ws. [] ∷ ws) (pieces-append p t))
  | inr e ↦ let (w, ws, h) = pieces_cons p in rw e (rw (pieces-append p t) (rw h refl))
]

pieces-full_path :
    (c : ℕ) (p : Text) (ns : List Text)
    → AreNames ns
    → pieces (full_path (c ∷ p) ns) ≡ pieces (c ∷ p) ++ ns
pieces-full_path c p [] v = sym (append-nil _)
pieces-full_path c p (n ∷ ns) (v, vs) =
    pieces-full_path c (p ++ b'/' ∷ n) ns vs
    ∙ ap (λ ws. ws ++ ns) (pieces-append (c ∷ p) n)
    ∙ append_assoc (pieces (c ∷ p)) (pieces n) ns
    ∙ ap (λ ws. pieces (c ∷ p) ++ (ws ++ ns)) (pieces-plain n v.2)

full_path-pieces :
    (n : Text) (ns : List Text) → AreNames (n ∷ ns) → pieces (full_path n ns) ≡ n ∷ ns
unfolding text_eq
full_path-pieces [] ns (v, vs) = absurd (cc (v.1))
full_path-pieces (c ∷ n) ns (v, vs) =
    pieces-full_path c n ns vs ∙ ap (λ ws. ws ++ ns) (pieces-plain (c ∷ n) v.2)

library-Factorizes : Factorizes library compiled
unfolding components_of split_pattern_components
library-Factorizes n ns v =
    ap (path_matches literal_matches compiled.components) (full_path-pieces n ns v)

apply_pattern-remove_pred_example :
    apply_pattern library compiled sample ≡ remove_pred (library.full_matches below_a) [] sample
unfolding utf8_run text_eq
apply_pattern-remove_pred_example =
    apply_pattern-remove_pred library below_a compiled sample below_a-compiled library-Factorizes
      ((refl, refl, refl), ((refl, refl, refl), tt), ((refl, refl, refl), tt))

state_bounds_example :
    (closure compiled.components 1 < 2 ^ 2)
    × (2 ^ 2 ≤ 2 ^ 63)
    × (r : ℕ) × (next_state library compiled.components
          (all_star_suffixes compiled.components)
          a
          (set_bits (closure compiled.components 1))
          0
        ≡ some r)
    × (r < 2 ^ 2)
state_bounds_example = state_bounds library compiled.components a 1 (omega arith) (omega arith)

leaf-remove_pred_example :
    (r : Obj) × (remove_pred (library.full_matches below_a) [] sample ≡ some r)
    × ((ns : List Text)
        → leaf r ns
          ≡ (if library.full_matches below_a (full_path [] ns) then leaf sample ns else none))
unfolding utf8_run find text_eq
leaf-remove_pred_example =
    leaf-remove_pred (library.full_matches below_a) sample (refl, (refl, tt), (refl, tt))
      (refl, (refl, tt, tt), (refl, tt, tt))

leaf-apply_pattern_example :
    (r : Obj) × (apply_pattern library compiled sample ≡ some r)
    × ((ns : List Text)
        → leaf r ns
          ≡ (if library.full_matches compiled.full (full_path [] ns) then leaf sample ns else none))
unfolding utf8_run find text_eq
leaf-apply_pattern_example =
    leaf-apply_pattern library below_a compiled sample below_a-compiled library-Factorizes
      ((refl, refl, refl), ((refl, refl, refl), tt), ((refl, refl, refl), tt))
      (refl, (refl, tt), (refl, tt)) (refl, (refl, tt, tt), (refl, tt, tt))
