-- ===== src/Opt/Step/Difference.antt =====
-- The rules of `step` for `Subtract`, in the order in which the code tries them.
use josh.Base.{
  Option, none, some, Bool, true, false, not, ◌&&◌, List, [], ◌∷◌, retain, if◌then◌else◌, ◌>>=◌,
}
use josh.Filter.Op.{
  Filter, nop, empty, message, prefix, compose, chain, subtract, exclude, select, nil, cons,
  filter_eq, to_list, of_list,
}
use josh.Opt.Structure.{last_chain, common_post}

unfoldable pub is_prefix : Filter → Bool
is_prefix (prefix p) = true
is_prefix _ = false

-- The `Prefix` in which a filter ends, or `Nop`.
unfoldable pub prefix_of : Filter → Filter
unfolding last_chain is_prefix
prefix_of f = let last = (last_chain nop f).1 in if is_prefix last then last else nop

unfoldable pub is_message : Filter → Bool
is_message (message m r) = true
is_message _ = false

unfoldable pub select_exclude : Filter → Filter → Option Filter
unfolding filter_eq
select_exclude (select a) (exclude b) = if filter_eq a b then some (select a) else none
select_exclude _ _ = none

-- Two chains with the same first element: subtract behind it.
unfoldable pub chain_chain : Filter → Filter → Option Filter
unfolding filter_eq
chain_chain (chain (cons f fs)) (chain (cons g gs)) =
    if filter_eq f g
    then some (chain (cons f (cons (subtract (chain fs) (chain gs)) nil)))
    else none
chain_chain _ _ = none

-- A common last element that is no `Nop`, with what stands before it on each side.
unfoldable pub post_pair : Filter → Filter → Option (Filter × Filter × Filter)
unfolding common_post filter_eq
post_pair a b = elim (common_post (a ∷ b ∷ [])) [
  | some (c, x ∷ y ∷ _) ↦ if filter_eq c nop then none else some (c, x, y)
  | _ ↦ none
]

-- The first four rules.
unfoldable pub subtract_unit : Filter → Filter → Option Filter
unfolding filter_eq is_message
subtract_unit a b =
    if filter_eq a empty
    then some empty
    else (if is_message a && is_message b
        then some empty
        else (if filter_eq b nop then some empty else (if filter_eq b empty then some a else none)))

-- The rules from the common prefix of paths to the common last element.
unfoldable pub subtract_post : Filter → Filter → Option Filter
unfolding prefix_of last_chain is_prefix post_pair filter_eq
subtract_post a b =
    if not (filter_eq (prefix_of b) nop)
    then some (subtract a (last_chain nop b).0)
    else (if not (filter_eq (prefix_of a) nop)
        then some (chain (cons (subtract (last_chain nop a).0 b) (cons (prefix_of a) nil)))
        else (if is_prefix b then some (subtract a nop) else elim (post_pair a b) [
          | some (c, x, y) ↦ some (chain (cons (subtract x y) (cons c nil)))
          | none ↦ none
        ]))

abbrev or_else : Option Filter → Option Filter → Option Filter
or_else (some f) g = some f
or_else none g = g

-- The rules that make no recursive call.
unfoldable pub subtract_shape : Filter → Filter → Option Filter
unfolding subtract_unit select_exclude chain_chain subtract_post
subtract_shape a b =
    or_else (subtract_unit a b)
      (or_else (select_exclude a b) (or_else (chain_chain a b) (subtract_post a b)))

unfoldable pub contains : List Filter → Filter → Bool
unfolding filter_eq
contains [] f = false
contains (g ∷ gs) f = if filter_eq g f then true else contains gs f

unfoldable pub as_compose : Filter → Option (List Filter)
unfolding to_list
as_compose (compose fs) = some (to_list fs)
as_compose _ = none

abbrev without : List Filter → List Filter → List Filter
without fs gs = retain (λ f. not (contains gs f)) fs

-- The left filter is a `Compose`.
abbrev step_left : (Filter → Option Filter) → Filter → List Filter → Option Filter
step_left rec b av = rec (compose (of_list (retain (λ f. not (filter_eq f b)) av)))

-- The rules for a `Compose` on either side, and the last rule.
unfoldable pub subtract_parts :
    (Filter → Option Filter)
    → Filter
    → Filter
    → Option (List Filter)
    → Option (List Filter)
    → Option Filter
unfolding contains filter_eq of_list
subtract_parts rec a b (some av) (some bv) =
    if contains av b
    then step_left rec b av
    else (if contains bv a then rec empty else do
      x ← rec (compose (of_list (without av bv)))
      y ← rec (compose (of_list (without bv av)))
      some (subtract x y))
subtract_parts rec a b (some av) none =
    if contains av b then step_left rec b av else do some (subtract (← rec a) (← rec b))
subtract_parts rec a b none (some bv) =
    if contains bv a then rec empty else do some (subtract (← rec a) (← rec b))
subtract_parts rec a b none none = do some (subtract (← rec a) (← rec b))

unfoldable pub step_subtract : (Filter → Option Filter) → Filter → Filter → Option Filter
unfolding subtract_shape subtract_parts as_compose filter_eq
step_subtract rec a b = if filter_eq a b then some empty else elim (subtract_shape a b) [
  | some r ↦ some r
  | none ↦ subtract_parts rec a b (as_compose a) (as_compose b)
]
