-- ===== src/Opt/Structure.antt =====
-- josh-filter/src/opt/structure.rs: the shapes that the rewriting rules look for.
use josh.Base.{
  Option, none, some, Bool, true, false, ◌&&◌, ◌||◌, List, [], ◌∷◌, ◌++◌, length, ◌==◌,
  if◌then◌else◌, ◌>>=◌,
}
use josh.Filter.Op.{
  Filter, Filters, nop, empty, insert, prefix, subdir, tree_id, message, compose, chain, subtract,
  nil, cons, filter_eq, of_list,
}
use josh.Opt.Invert.{invert}

-- The last element of a chain, and the chain of `rest` and all before it. The first argument of
-- `last_in` is `rest`, the second the chain collected so far.
unfoldable mutual
  unfolding of_list

  pub last_chain : Filter → Filter → Filter × Filter
  last_chain rest (chain fs) = last_in rest (rest ∷ []) fs
  last_chain rest f = (rest, f)

  pub last_in : Filter → List Filter → Filters → Filter × Filter
  last_in rest acc nil = (rest, chain nil)
  last_in rest acc (cons f nil) = last_chain (chain (of_list acc)) f
  last_in rest acc (cons f (cons g fs)) = last_in rest (acc ++ f ∷ []) (cons g fs)

-- Both are chains with the same first element.
unfoldable pub same_first : Filter → Filter → Bool
unfolding filter_eq
same_first (chain (cons f fs)) (chain (cons g gs)) = filter_eq f g
same_first _ _ = false

-- Both end in the same filter.
unfoldable pub same_last : Filter → Filter → Bool
unfolding filter_eq last_chain
same_last f g = filter_eq (last_chain nop f).1 (last_chain nop g).1

-- The loop of `group`: a filter joins the last group if it agrees with that group's first filter.
unfoldable pub group_from :
    (Filter → Filter → Bool) → Filter → List Filter → List Filter → List (List Filter)
group_from same first current [] = current ∷ []
group_from same first current (f ∷ fs) =
    let joined = group_from same first (current ++ f ∷ []) fs in
    let opened = current ∷ group_from same f (f ∷ []) fs in if same f first then joined else opened

unfoldable pub group_runs : (Filter → Filter → Bool) → List Filter → List (List Filter)
unfolding group_from
group_runs same [] = []
group_runs same (f ∷ fs) = group_from same f (f ∷ []) fs

unfoldable pub group : List Filter → List (List Filter)
unfolding group_runs same_first same_last
group fs =
    let firsts = group_runs same_first fs in
    if length firsts == length fs then group_runs same_last fs else firsts

-- The first element of a chain, and the rest of it.
unfoldable pub split_first : Filter → Option (Filter × Filter)
split_first (chain (cons f nil)) = some (f, nop)
split_first (chain (cons f (cons g fs))) = some (f, chain (cons g fs))
split_first _ = none

unfoldable pub is_generative : Filter → Bool
is_generative (insert p c) = true
is_generative (tree_id p f) = true
is_generative _ = false

-- The loop of `common_pre`: every filter is a chain that starts with `c`.
unfoldable pub strip_first : Filter → List Filter → Option (List Filter)
unfolding split_first filter_eq
strip_first c [] = some []
strip_first c (f ∷ fs) = do
  (first, rest) ← split_first f
  rests ← strip_first c fs
  if filter_eq c first then some (rest ∷ rests) else none

-- The filter that all chains start with, and what is left of them.
unfoldable pub common_pre : List Filter → Option (Filter × List Filter)
unfolding split_first strip_first is_generative
common_pre [] = none
common_pre (f ∷ fs) = do
  (c, rest) ← split_first f
  rests ← strip_first c fs
  if is_generative c then none else some (c, rest ∷ rests)

unfoldable mutual
  pub resurrects_from_empty : Filter → Bool
  resurrects_from_empty (insert p c) = true
  resurrects_from_empty (tree_id p f) = true
  resurrects_from_empty (chain fs) = any_resurrects fs
  resurrects_from_empty (compose fs) = any_resurrects fs
  resurrects_from_empty (subtract a b) = resurrects_from_empty a
  resurrects_from_empty _ = false

  pub any_resurrects : Filters → Bool
  any_resurrects nil = false
  any_resurrects (cons f fs) = resurrects_from_empty f || any_resurrects fs

unfoldable mutual
  pub distributes_over_compose : Filter → Bool
  distributes_over_compose nop = true
  distributes_over_compose empty = true
  distributes_over_compose (prefix p) = true
  distributes_over_compose (subdir p) = true
  distributes_over_compose (chain fs) = all_distribute fs
  distributes_over_compose (compose fs) = all_distribute fs
  distributes_over_compose _ = false

  pub all_distribute : Filters → Bool
  all_distribute nil = true
  all_distribute (cons f fs) = distributes_over_compose f && all_distribute fs

-- The loop of `common_post`: every filter ends in `c`.
unfoldable pub strip_last : Filter → List Filter → Option (List Filter)
unfolding last_chain filter_eq
strip_last c [] = some []
strip_last c (f ∷ fs) = do
  rests ← strip_last c fs
  if filter_eq c (last_chain nop f).1 then some ((last_chain nop f).0 ∷ rests) else none

unfoldable pub is_post : Filter → Bool
is_post (prefix p) = true
is_post (message m r) = true
is_post _ = false

-- A common last element may be hoisted if it is its own inverse, a `Prefix` or a `Message`.
unfoldable pub can_hoist_post : Filter → Bool
unfolding invert filter_eq is_post
can_hoist_post c = elim (invert c) [
  | some d ↦ if filter_eq d c then true else is_post c
  | none ↦ is_post c
]

unfoldable pub common_post : List Filter → Option (Filter × List Filter)
unfolding last_chain strip_last can_hoist_post
common_post [] = none
common_post (f ∷ fs) = do
  let c = (last_chain nop f).1
  rests ← strip_last c fs
  if can_hoist_post c then some (c, (last_chain nop f).0 ∷ rests) else none
