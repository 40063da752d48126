-- ===== src/Opt/Flatten.antt =====
-- josh-filter/src/opt/flatten.rs: chains distributed over the compositions in them.
use josh.Base.{
  ℕ, zero, suc, Bool, true, false, not, ◌&&◌, Option, none, some, List, [], ◌∷◌, ◌++◌, map, all,
  length, ltb, ◌+◌, traverse, if◌then◌else◌, ◌>>=◌,
}
use josh.Filter.Op.{
  Filter, starlark, tree_id, compose, chain, subtract, exclude, select, pin, Filter-discrete,
  to_list, of_list,
}
use josh.Opt.Invert.{invert}
use josh.Opt.Structure.{distributes_over_compose}
use josh.Opt.Simplify.{splice_composes, splice_chains}

unfoldable pub is_invertible : Filter → Bool
unfolding invert
is_invertible f = elim (invert f) [ some g ↦ true | none ↦ false ]

abbrev is_nil : List Filter → Bool
is_nil [] = true
is_nil (f ∷ fs) = false

-- A chain for each filter of the `Compose` that stands between `before` and `after`.
unfoldable pub branches : List Filter → List Filter → List Filter → List Filter
unfolding of_list
branches before cs after = map (λ c. chain (of_list (before ++ c ∷ after))) cs

-- The loop over the elements of a chain: the first `Compose` decides, except that a last one is
-- left alone unless `full` is set. `none` leaves the chain as it is.
unfoldable pub distribute : Bool → List Filter → List Filter → Option Filter
unfolding is_invertible distributes_over_compose branches to_list of_list
distribute full before [] = none
distribute full before (compose cs ∷ after) =
    let rest = distribute full (before ++ compose cs ∷ []) after in
    if all is_invertible (before ++ after) && all distributes_over_compose after
    then (if not full && ltb 1 (length before + 1 + length after) && is_nil after
        then rest
        else some (compose (of_list (branches before (to_list cs) after))))
    else none
distribute full before (f ∷ after) = distribute full (before ++ f ∷ []) after

-- A distributed chain is returned at once; any other result is compared with the input.
pub data Outcome : Type 0 where
  returned rewritten : Filter → Outcome

unfoldable pub flatten_pass : Bool → (Filter → Option Filter) → Filter → Option Outcome
unfolding splice_composes splice_chains distribute to_list of_list
flatten_pass full rec (compose fs) = do
  gs ← traverse rec (splice_composes (to_list fs))
  some (rewritten (compose (of_list gs)))
flatten_pass full rec (chain fs) = elim (distribute full [] (splice_chains (to_list fs))) [
  | some d ↦ some (returned d)
  | none ↦ do gs ← traverse rec (splice_chains (to_list fs)); some (rewritten (chain (of_list gs)))
]
flatten_pass full rec (subtract a b) = do some (rewritten (subtract (← rec a) (← rec b)))
flatten_pass full rec (exclude b) = do some (rewritten (exclude (← rec b)))
flatten_pass full rec (select b) = do some (rewritten (select (← rec b)))
flatten_pass full rec (pin b) = do some (rewritten (pin (← rec b)))
flatten_pass full rec (starlark p sub) = do some (rewritten (starlark p (← rec sub)))
flatten_pass full rec (tree_id p sub) = do some (rewritten (tree_id p (← rec sub)))
flatten_pass full rec f = some (rewritten f)

-- The two memo tables, one for each value of `full`, only hold results of this function.
unfoldable pub flatten : Bool → ℕ → Filter → Option Filter
unfolding flatten_pass
flatten full zero f = none
flatten full (suc n) f = do
  o ← flatten_pass full (flatten full n) f
  elim o [
    | returned d ↦ some d
    | rewritten r ↦ elim (Filter-discrete r f) [ yes _ ↦ some r | no _ ↦ flatten full n r ]
  ]
