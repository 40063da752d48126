-- ===== src/Opt/Simplify/Total.antt =====
-- `simplify` ends, with a filter that a further pass keeps.
use josh.Base.{
  >>=-eq-some, ℕ_discrete, ℕ, zero, suc, ◌≤◌, Option, some, some_inj, List, [], ◌∷◌, ◌≡◌, refl, ap,
  ap₂, ◌∙◌, subst, traverse, ◌>>=◌, arith,
}
use josh.Filter.Op.{
  Filter, Filters, Filter-discrete, starlark, tree_id, compose, chain, subtract, exclude, select,
  pin, to_list, of_list,
}
use josh.Opt.Simplify.{
  splice_composes, splice_chains, join_paths, unwrap_chain, simplify_pass, simplify,
}
use josh.Opt.Simplify.Size.{
  size, size_pos, sizes, total, total-to_list, sizes-of_list, of_list-to_list, Shrinks, ListShrinks,
  ListShrinks-trans, cons-ListShrinks, splice_composes-ListShrinks, splice_chains-ListShrinks,
  join_paths-ListShrinks, unwrap_chain-Shrinks,
}

-- There is a result, no larger.
abbrev Done : Option Filter → Filter → Type 0
Done o f = (g : Filter) × (o ≡ some g) × Shrinks f g

abbrev ListDone : Option (List Filter) → List Filter → Type 0
ListDone o fs = (gs : List Filter) × (o ≡ some gs) × ListShrinks fs gs

module _ (rec : Filter → Option Filter) (n : ℕ)
    (done : (f : Filter) → size f ≤ n → Done (rec f) f) where
  traverse-Done : (fs : List Filter) → total fs ≤ n → ListDone (traverse rec fs) fs
  unfolding total
  traverse-Done [] h = ([], refl, (omega arith, λ e. refl))
  traverse-Done (f ∷ fs) h =
      let a = done f (omega arith) in
      let b = traverse-Done fs (omega arith) in
      (a.0 ∷ b.0, rw (a.1, b.1) refl, cons-ListShrinks f a.0 fs b.0 a.2 b.2)

  compose-Done : (fs : Filters) → sizes fs ≤ n → Done (simplify_pass rec (compose fs)) (compose fs)
  unfolding simplify_pass size
  compose-Done fs h =
      let s = splice_composes-ListShrinks (to_list fs) in
      let t =
        traverse-Done (splice_composes (to_list fs)) (omega (arith, h, s.0, total-to_list fs)) in
      let w = ListShrinks-trans _ _ t.0 s t.2 in
      (
        compose (of_list t.0),
        rw t.1 refl,
        (
          omega (arith, w.0, total-to_list fs, sizes-of_list t.0),
          λ e.
              ap (λ k. compose (of_list k))
                (w.1 (omega (arith, e, total-to_list fs, sizes-of_list t.0)))
              ∙ ap compose (of_list-to_list fs),
        ),
      )

  chain-Done : (fs : Filters) → sizes fs ≤ n → Done (simplify_pass rec (chain fs)) (chain fs)
  unfolding simplify_pass size
  chain-Done fs h =
      let s = splice_chains-ListShrinks (to_list fs) in
      let t =
        traverse-Done (splice_chains (to_list fs)) (omega (arith, h, s.0, total-to_list fs)) in
      let j = join_paths t.0 in
      let w =
        ListShrinks-trans _ _ j (ListShrinks-trans _ _ t.0 s t.2) (join_paths-ListShrinks t.0) in
      let u = unwrap_chain-Shrinks j in
      (
        unwrap_chain j,
        rw t.1 refl,
        (
          omega (arith, u.0, w.0, total-to_list fs, sizes-of_list j),
          λ e.
              u.1 (omega (arith, e, u.0, w.0, total-to_list fs, sizes-of_list j))
              ∙ ap (λ k. chain (of_list k))
                  (w.1 (omega (arith, e, u.0, w.0, total-to_list fs, sizes-of_list j)))
              ∙ ap chain (of_list-to_list fs),
        ),
      )

  one-Done :
      (wrap : Filter → Filter) (f : Filter)
      → ((g : Filter) → size (wrap g) ≡ suc (size g))
      → size f ≤ n
      → Done (rec f >>= λ g. some (wrap g)) (wrap f)
  one-Done wrap f w h =
      let a = done f h in
      (
        wrap a.0,
        rw a.1 refl,
        (omega (arith, a.2.0, w f, w a.0), λ e. ap wrap (a.2.1 (omega (arith, e, w f, w a.0)))),
      )

  -- One pass, over recursive calls that end for what is smaller.
  pass-Done : (f : Filter) → size f ≤ suc n → Done (simplify_pass rec f) f
  unfolding simplify_pass size
  pass-Done (compose fs) h = compose-Done fs (omega arith)
  pass-Done (chain fs) h = chain-Done fs (omega arith)
  pass-Done (subtract a b) h =
      let x = done a (omega arith) in
      let y = done b (omega arith) in
      (
        subtract x.0 y.0,
        rw (x.1, y.1) refl,
        (
          omega (arith, x.2.0, y.2.0),
          λ e.
              ap₂ subtract (x.2.1 (omega (arith, e, x.2.0, y.2.0)))
                (y.2.1 (omega (arith, e, x.2.0, y.2.0))),
        ),
      )
  pass-Done (exclude f) h = one-Done exclude f (λ g. refl) (omega arith)
  pass-Done (select f) h = one-Done select f (λ g. refl) (omega arith)
  pass-Done (pin f) h = one-Done pin f (λ g. refl) (omega arith)
  pass-Done (starlark p f) h = one-Done (starlark p) f (λ g. refl) (omega arith)
  pass-Done (tree_id p f) h = one-Done (tree_id p) f (λ g. refl) (omega arith)
  pass-Done f h = (f, refl, (omega arith, λ e. refl))

again-Done :
    (n : ℕ) (f r : Filter)
    → Shrinks f r
    → size f ≤ suc n
    → (size r ≤ n → Done (simplify n r) r)
    → (d : Dec (r ≡ f)) → Done (elim d [ yes _ ↦ some r | no _ ↦ simplify n r ]) f
again-Done n f r s h next (yes e) = (r, refl, s)
again-Done n f r s h next (no ne) = elim (ℕ_discrete (size r) (size f)) [
  | yes e ↦ absurd (ne (s.1 e))
  | no k ↦
      let w = next (omega (arith, k, s.0, h)) in
      (w.0, w.1, (omega (arith, w.2.0, s.0), λ e. absurd (k (omega (arith, e, w.2.0, s.0)))))
]

simplify-Done : (n : ℕ) (f : Filter) → size f ≤ n → Done (simplify n f) f
unfolding simplify
simplify-Done zero f h = absurd (omega (arith, h, size_pos f))
simplify-Done (suc n) f h =
    let p = pass-Done (simplify n) n (λ g k. simplify-Done n g k) f h in
    rw p.1 (again-Done n f p.0 p.2 h (λ k. simplify-Done n p.0 k) (Filter-discrete p.0 f))

-- The pass that `simplify` made last.
abbrev Kept : Filter → Type 0
Kept g = (m : ℕ) × (simplify_pass (simplify m) g ≡ some g)

again-Kept :
    (n : ℕ) (f r g : Filter)
    → simplify_pass (simplify n) f ≡ some r
    → (simplify n r ≡ some g → Kept g)
    → (d : Dec (r ≡ f)) → (elim d [ yes _ ↦ some r | no _ ↦ simplify n r ]) ≡ some g
    → Kept g
again-Kept n f r g p next (yes e) h =
    subst Kept (some_inj h) (n, ap (simplify_pass (simplify n)) e ∙ p)
again-Kept n f r g p next (no ne) h = next h

simplify-Kept : (n : ℕ) (f g : Filter) → simplify n f ≡ some g → Kept g
unfolding simplify
simplify-Kept zero f g h = absurd (cc)
simplify-Kept (suc n) f g h =
    let p = >>=-eq-some (simplify_pass (simplify n) f) _ h in
    again-Kept n f p.0 g p.1 (λ k. simplify-Kept n p.0 g k) (Filter-discrete p.0 f) p.2

-- With as much fuel as a filter has nodes, simplify returns a filter that has no more nodes and
-- that a pass of simplify, with some fuel for its recursive calls, returns unchanged.
pub simplify_total :
    (n : ℕ) (f : Filter)
    → size f ≤ n
    → (g : Filter) × (simplify n f ≡ some g)
      × (size g ≤ size f)
      × ((m : ℕ) × (simplify_pass (simplify m) g ≡ some g))
simplify_total n f h = let d = simplify-Done n f h in (d.0, d.1, d.2.0, simplify-Kept n f d.0 d.1)
