-- ===== src/Examples/Opt.antt =====
-- The rewriting of concrete filters, and the names of refs in them.
use josh.Base.{
  ℕ, ◌≤◌, Bool, false, true, ◌&&◌, Option, none, some, [], ◌∷◌, ◌≡◌, refl, Text, text_eq,
  ℕ_discrete, arith,
}
use josh.FilePath.{join}
use josh.Filter.Op.{
  Filter, Filter-discrete, lazy, ancestor_strict, nop, prefix, subdir, chain, exclude, message, rev,
  arm, no_arms, downstack, cons, nil as no_filters,
}
use josh.Opt.Invert.{invert}
use josh.Opt.Simplify.{simplify, simplify_pass}
use josh.Opt.Simplify.Size.{size}
use josh.Opt.Simplify.Total.{simplify_total}
use josh.Refs.{lazy_refs, resolve_refs}
use josh.Refs.Names.{has}
use josh.Refs.Resolved.{is_missing, lazy_refs-resolve_refs}
use josh.Examples.World.{a, b, path_a, path_b, path_ab}

-- `:/a:/b` inside a chain.
abbrev nested : Filter
nested = chain (cons (chain (cons (subdir path_a) (cons (subdir path_b) no_filters))) no_filters)

nested_simplified : simplify 4 nested ≡ some (subdir path_ab)
unfolding simplify Filter-discrete ℕ_discrete join
nested_simplified = refl

nested_fuel : size nested ≡ 4
unfolding size
nested_fuel = refl

simplify_total_example :
    (g : Filter) × (simplify 4 nested ≡ some g)
    × (size g ≤ size nested)
    × ((m : ℕ) × (simplify_pass (simplify m) g ≡ some g))
simplify_total_example = simplify_total 4 nested (omega (arith, nested_fuel))

abbrev back : Filter
back = chain (cons (exclude (subdir path_b)) (cons nop (cons (prefix path_a) no_filters)))

back_inverse :
    invert (
      chain (cons (subdir path_a) (cons (message a b) (cons (exclude (prefix path_b)) no_filters))))
    ≡ some back
unfolding invert
back_inverse = refl

-- Two refs, of which the map has one.
abbrev pinned : Filter
pinned = chain (
    cons (rev (arm ancestor_strict (lazy a) (downstack (lazy b)) no_arms))
      (cons (downstack (lazy b)) no_filters))

abbrev known : Text → Option ℕ
known t = if_a (text_eq t a)
  where
    if_a : Bool → Option ℕ
    if_a true = some 1
    if_a false = none

pinned_names : lazy_refs (resolve_refs known pinned) ≡ b ∷ []
unfolding lazy_refs resolve_refs text_eq
pinned_names = refl

lazy_refs-resolve_refs_example :
    has b (lazy_refs (resolve_refs known pinned))
    ≡ (has b (lazy_refs pinned) && is_missing (known b))
lazy_refs-resolve_refs_example = lazy_refs-resolve_refs known b pinned (((tt, tt)), (tt, tt))
