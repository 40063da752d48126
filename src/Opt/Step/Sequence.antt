-- ===== src/Opt/Step/Sequence.antt =====
-- The rules of `step` for `Compose` and `Chain`.
use josh.Base.{
  Option, none, some, Bool, false, not, ◌&&◌, List, [], ◌∷◌, map, any, length, ◌==◌, retain,
  traverse, is_yes, if◌then◌else◌, ◌>>=◌,
}
use josh.FilePath.{FilePath-discrete}
use josh.Filter.Op.{
  Filter, nop, empty, prefix, subdir, compose, chain, nil, cons, filter_eq, of_list,
}
use josh.Opt.Structure.{group, common_pre, common_post, resurrects_from_empty}
use josh.Opt.Simplify.{splice_chains, unwrap_chain}
use josh.Opt.PrefixSort.{prefix_sort}

-- `Vec::dedup`: neighbours that are equal become one.
unfoldable pub dedup : List Filter → List Filter
unfolding filter_eq
dedup [] = []
dedup (f ∷ []) = f ∷ []
dedup (f ∷ g ∷ fs) =
    let rest = dedup (g ∷ fs) in let both = f ∷ rest in if filter_eq f g then rest else both

abbrev compose_of : List Filter → Filter
compose_of fs = compose (of_list fs)

-- A `Compose` of two filters or more: hoist what all start with, or end in, else group, else sort.
unfoldable pub step_many : (Filter → Option Filter) → List Filter → Option Filter
unfolding group common_pre common_post prefix_sort of_list
step_many rec fs = elim (common_pre fs) [
  | some (c, rest) ↦ some (chain (cons c (cons (compose_of rest) nil)))
  | none ↦ elim (common_post fs) [
    | some (c, rest) ↦ some (chain (cons (compose_of rest) (cons c nil)))
    | none ↦
        if not (length (group fs) == 1) && not (length (group fs) == length fs)
        then some (compose_of (map compose_of (group fs)))
        else do sorted ← prefix_sort fs; gs ← traverse rec sorted; some (compose_of gs)
  ]
]

unfoldable pub step_compose : (Filter → Option Filter) → List Filter → Option Filter
unfolding dedup step_many filter_eq
step_compose rec [] = some empty
step_compose rec (f ∷ []) = some f
step_compose rec fs = step_many rec (retain (λ f. not (filter_eq f empty)) (dedup fs))

-- What an element and the next one of a chain say: they cancel, their result is empty, or neither.
pub data Pair : Type 0 where
  cancels empties plain : Pair

unfoldable pub pair_kind : Filter → Filter → Pair
unfolding FilePath-discrete
pair_kind (prefix a) (subdir b) =
    if is_yes (FilePath-discrete a b)
    then cancels
    else (if length a == length b then empties else plain)
pair_kind _ _ = plain

-- The result of the loop over a chain: it may find that the chain is empty.
pub data Scan : Type 0 where
  collapsed : Scan
  kept : List Filter → Scan

abbrev pub push : Filter → Scan → Scan
push f collapsed = collapsed
push f (kept fs) = kept (f ∷ fs)

unfoldable pub scan_pairs : (Filter → Option Filter) → List Filter → Option Scan
unfolding pair_kind resurrects_from_empty
scan_pairs rec [] = some (kept [])
scan_pairs rec (f ∷ []) = do g ← rec f; some (kept (g ∷ []))
scan_pairs rec (f ∷ g ∷ rest) =
    let go_on = (do h ← rec f; scan ← scan_pairs rec (g ∷ rest); some (push h scan)) in
    elim (pair_kind f g) [
      | cancels ↦ scan_pairs rec rest
      | empties ↦ if any resurrects_from_empty rest then go_on else some collapsed
      | plain ↦ go_on
    ]

-- The elements after the first `Empty` of a chain, if it has one.
unfoldable pub after_empty : List Filter → Option (List Filter)
unfolding filter_eq
after_empty [] = none
after_empty (f ∷ fs) = let rest = after_empty fs in if filter_eq f empty then some fs else rest

unfoldable pub is_dead : List Filter → Bool
unfolding after_empty resurrects_from_empty
is_dead fs = elim (after_empty fs) [
  | none ↦ false
  | some rest ↦ not (any resurrects_from_empty rest)
]

abbrev pub finish : Scan → Filter
finish collapsed = empty
finish (kept []) = nop
finish (kept (f ∷ fs)) = unwrap_chain (f ∷ fs)

unfoldable pub step_flat : (Filter → Option Filter) → List Filter → Option Filter
unfolding is_dead scan_pairs unwrap_chain
step_flat rec [] = some nop
step_flat rec (f ∷ fs) =
    if is_dead (f ∷ fs) then some empty else do scan ← scan_pairs rec (f ∷ fs); some (finish scan)

unfoldable pub step_chain : (Filter → Option Filter) → List Filter → Option Filter
unfolding splice_chains step_flat filter_eq
step_chain rec fs = do
  gs ← traverse rec fs
  step_flat rec (retain (λ f. not (filter_eq f nop)) (splice_chains gs))
