-- ===== src/Opt/Simplify/Size.antt =====
-- How large a filter is to `simplify`, and that no part of a pass makes one larger.
use josh.Base.{ℕ, suc, ◌+◌, ◌≤◌, ◌<◌, List, [], ◌∷◌, ◌++◌, ◌≡◌, refl, ap, ap₂, ◌∙◌, arith}
use josh.Filter.Op.{
  Filter, Filters, nop, starlark, tree_id, compose, chain, subtract, exclude, select, pin, prefix,
  subdir, nil, cons, to_list, of_list,
}
use josh.Opt.Simplify.{splice_composes, splice_chains, join_paths, unwrap_chain}

unfoldable mutual
  -- The filters that `simplify` reaches.
  pub size : Filter → ℕ
  size (starlark p f) = suc (size f)
  size (tree_id p f) = suc (size f)
  size (compose fs) = suc (sizes fs)
  size (chain fs) = suc (sizes fs)
  size (subtract a b) = suc (size a + size b)
  size (exclude f) = suc (size f)
  size (select f) = suc (size f)
  size (pin f) = suc (size f)
  size _ = 1

  pub sizes : Filters → ℕ
  sizes nil = 0
  sizes (cons f fs) = size f + sizes fs

pub size_pos : (f : Filter) → 0 < size f
unfolding size
size_pos nop = omega arith
size_pos _ = omega arith

-- The list's filters together.
unfoldable pub total : List Filter → ℕ
unfolding size
total [] = 0
total (f ∷ fs) = size f + total fs

total-append : (fs gs : List Filter) → total (fs ++ gs) ≡ total fs + total gs
unfolding total
total-append [] gs = omega arith
total-append (f ∷ fs) gs = omega (arith, total-append fs gs)

pub total-to_list : (fs : Filters) → total (to_list fs) ≡ sizes fs
unfolding total size to_list
total-to_list nil = refl
total-to_list (cons f fs) = ap (λ k. size f + k) (total-to_list fs)

pub sizes-of_list : (fs : List Filter) → sizes (of_list fs) ≡ total fs
unfolding total size of_list
sizes-of_list [] = refl
sizes-of_list (f ∷ fs) = ap (λ k. size f + k) (sizes-of_list fs)

pub of_list-to_list : (fs : Filters) → of_list (to_list fs) ≡ fs
unfolding to_list of_list
of_list-to_list nil = refl
of_list-to_list (cons f fs) = ap (cons f) (of_list-to_list fs)

-- Smaller, or the same.
abbrev pub Shrinks : Filter → Filter → Type 0
Shrinks f g = (size g ≤ size f) × (size g ≡ size f → g ≡ f)

abbrev pub ListShrinks : List Filter → List Filter → Type 0
ListShrinks fs gs = (total gs ≤ total fs) × (total gs ≡ total fs → gs ≡ fs)

pub ListShrinks-trans :
    (fs gs hs : List Filter) → ListShrinks fs gs → ListShrinks gs hs → ListShrinks fs hs
ListShrinks-trans fs gs hs (a, p) (b, q) =
    (omega arith, λ e. q (omega (arith, e, a, b)) ∙ p (omega (arith, e, a, b)))

pub cons-ListShrinks :
    (f g : Filter) (fs gs : List Filter)
    → Shrinks f g
    → ListShrinks fs gs
    → ListShrinks (f ∷ fs) (g ∷ gs)
unfolding total
cons-ListShrinks f g fs gs (a, p) (b, q) = (
  omega arith,
  λ e. ap₂ (λ k ks. k ∷ ks) (p (omega (arith, e, a, b))) (q (omega (arith, e, a, b))),
)

less-ListShrinks : (fs gs : List Filter) → total gs < total fs → ListShrinks fs gs
less-ListShrinks fs gs h = (omega arith, λ e. absurd (omega (arith, e, h)))

same-Shrinks : (f : Filter) → Shrinks f f
same-Shrinks f = (omega arith, λ e. refl)

pub splice_composes-ListShrinks : (fs : List Filter) → ListShrinks fs (splice_composes fs)
unfolding splice_composes total size
splice_composes-ListShrinks [] = (omega arith, λ e. refl)
splice_composes-ListShrinks (compose gs ∷ fs) =
    let (a, p) = splice_composes-ListShrinks fs in
    less-ListShrinks _ _
      (omega (arith, total-append (to_list gs) (splice_composes fs), total-to_list gs, a))
splice_composes-ListShrinks (f ∷ fs) =
    cons-ListShrinks f f fs _ (same-Shrinks f) (splice_composes-ListShrinks fs)

pub splice_chains-ListShrinks : (fs : List Filter) → ListShrinks fs (splice_chains fs)
unfolding splice_chains total size
splice_chains-ListShrinks [] = (omega arith, λ e. refl)
splice_chains-ListShrinks (chain gs ∷ fs) =
    let (a, p) = splice_chains-ListShrinks fs in
    less-ListShrinks _ _
      (omega (arith, total-append (to_list gs) (splice_chains fs), total-to_list gs, a))
splice_chains-ListShrinks (f ∷ fs) =
    cons-ListShrinks f f fs _ (same-Shrinks f) (splice_chains-ListShrinks fs)

pub join_paths-ListShrinks : (fs : List Filter) → ListShrinks fs (join_paths fs)
unfolding join_paths total size
join_paths-ListShrinks [] = (omega arith, λ e. refl)
join_paths-ListShrinks (prefix x ∷ prefix y ∷ fs) =
    let (a, p) = join_paths-ListShrinks fs in less-ListShrinks _ _ (omega (arith, a))
join_paths-ListShrinks (subdir x ∷ subdir y ∷ fs) =
    let (a, p) = join_paths-ListShrinks fs in less-ListShrinks _ _ (omega (arith, a))
join_paths-ListShrinks (f ∷ fs) =
    cons-ListShrinks f f fs _ (same-Shrinks f) (join_paths-ListShrinks fs)

pub unwrap_chain-Shrinks : (fs : List Filter) → Shrinks (chain (of_list fs)) (unwrap_chain fs)
unfolding unwrap_chain size of_list
unwrap_chain-Shrinks [] = same-Shrinks _
unwrap_chain-Shrinks (f ∷ []) = (omega arith, λ e. absurd (omega (arith, e)))
unwrap_chain-Shrinks (f ∷ g ∷ fs) = same-Shrinks _
