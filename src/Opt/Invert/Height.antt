-- ===== src/Opt/Invert/Height.antt =====
-- An inverse is nested no deeper than the filter.
use Prim.Native.Nat.{max}
use josh.Base.{ℕ, ◌≤◌, ◌≡◌, some, arith, All?, All?-bind, All?-elim}
use josh.Filter.Op.{Filter, Filters, meta, compose, chain, exclude, select, nil, cons}
use josh.Filter.Height.{height, height_all}
use josh.Opt.Invert.{invert, invert_rev, invert_each, append_filters}

height_all-append_filters :
    (fs gs : Filters) → height_all (append_filters fs gs) ≡ max (height_all fs) (height_all gs)
unfolding height append_filters
height_all-append_filters nil gs = omega arith
height_all-append_filters (cons f fs) gs = omega (arith, height_all-append_filters fs gs)

abbrev IsBelow : ℕ → Filter → Type 0
IsBelow k g = height g ≤ k

abbrev AreBelow : ℕ → Filters → Type 0
AreBelow k gs = height_all gs ≤ k

mutual
  unfolding invert height

  invert-IsBelow : (f : Filter) → All? (IsBelow (height f)) (invert f)
  invert-IsBelow (meta m f) = All?-bind _ _ (invert f) _ (invert-IsBelow f) (λ g h. omega arith)
  invert-IsBelow (chain fs) = All?-bind _ _ (invert_rev fs) _ (rev-AreBelow fs) (λ g h. omega arith)
  invert-IsBelow (compose fs) =
      All?-bind _ _ (invert_each fs) _ (each-AreBelow fs) (λ g h. omega arith)
  invert-IsBelow (exclude f) = All?-bind _ _ (invert f) _ (invert-IsBelow f) (λ g h. omega arith)
  invert-IsBelow (select f) = All?-bind _ _ (invert f) _ (invert-IsBelow f) (λ g h. omega arith)
  invert-IsBelow _ = omega arith

  rev-AreBelow : (fs : Filters) → All? (AreBelow (height_all fs)) (invert_rev fs)
  rev-AreBelow nil = omega arith
  rev-AreBelow (cons f fs) = All?-bind _ _ (invert_rev fs) _ (rev-AreBelow fs) (λ gs hs.
      All?-bind _ _ (invert f) _ (invert-IsBelow f)
        (λ g h. omega (arith, height_all-append_filters gs (cons g nil))))

  each-AreBelow : (fs : Filters) → All? (AreBelow (height_all fs)) (invert_each fs)
  each-AreBelow nil = omega arith
  each-AreBelow (cons f fs) =
      All?-bind _ _ (invert f) _ (invert-IsBelow f)
        (λ g h. All?-bind _ _ (invert_each fs) _ (each-AreBelow fs) (λ gs hs. omega arith))

pub height-invert : (f : Filter) {g : Filter} → invert f ≡ some g → height g ≤ height f
height-invert f e = All?-elim (IsBelow (height f)) (invert f) (invert-IsBelow f) e
