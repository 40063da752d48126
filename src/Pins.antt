-- ===== src/Pins.antt =====
-- `legalize_pin` and `needs_legalization` of josh-core/src/filter/mod.rs: what stands for the pins of a
-- filter.
use josh.Base.{Bool, true, false, ◌||◌, ◌≡◌, refl, ap₂}
use josh.Filter.Op.{
  Filter, Filters, meta, compose, chain, subtract, exclude, select, pin, stored, starlark, tree_id,
  nil, cons,
}

-- `c` is the function that replaces what is pinned.
unfoldable mutual
  pub legalize_pin : (Filter → Filter) → Filter → Filter
  legalize_pin c (compose fs) = compose (legalize_each c fs)
  legalize_pin c (chain fs) = chain (legalize_each c fs)
  legalize_pin c (subtract a b) = subtract (legalize_pin c a) (legalize_pin c b)
  legalize_pin c (exclude f) = exclude (legalize_pin c f)
  legalize_pin c (select f) = select (legalize_pin c f)
  legalize_pin c (meta m f) = meta m (legalize_pin c f)
  legalize_pin c (pin f) = c f
  legalize_pin c f = f

  pub legalize_each : (Filter → Filter) → Filters → Filters
  legalize_each c nil = nil
  legalize_each c (cons f fs) = cons (legalize_pin c f) (legalize_each c fs)

unfoldable mutual
  pub needs_legalization : Filter → Bool
  needs_legalization (stored p) = true
  needs_legalization (starlark p f) = true
  needs_legalization (compose fs) = any_needs_legalization fs
  needs_legalization (chain fs) = any_needs_legalization fs
  needs_legalization (subtract a b) = needs_legalization a || needs_legalization b
  needs_legalization (exclude f) = needs_legalization f
  needs_legalization (select f) = needs_legalization f
  needs_legalization (pin f) = needs_legalization f
  needs_legalization (tree_id p f) = needs_legalization f
  needs_legalization (meta m f) = needs_legalization f
  needs_legalization f = false

  pub any_needs_legalization : Filters → Bool
  any_needs_legalization nil = false
  any_needs_legalization (cons f fs) = needs_legalization f || any_needs_legalization fs

-- A pin that `legalize_pin` reaches.
unfoldable mutual
  pub has_pin : Filter → Bool
  has_pin (compose fs) = any_has_pin fs
  has_pin (chain fs) = any_has_pin fs
  has_pin (subtract a b) = has_pin a || has_pin b
  has_pin (exclude f) = has_pin f
  has_pin (select f) = has_pin f
  has_pin (meta m f) = has_pin f
  has_pin (pin f) = true
  has_pin f = false

  any_has_pin : Filters → Bool
  any_has_pin nil = false
  any_has_pin (cons f fs) = has_pin f || any_has_pin fs

-- No pin in what a pin has.
abbrev mutual
  IsUnnested : Filter → Type 0
  IsUnnested (compose fs) = AreUnnested fs
  IsUnnested (chain fs) = AreUnnested fs
  IsUnnested (subtract a b) = IsUnnested a × IsUnnested b
  IsUnnested (exclude f) = IsUnnested f
  IsUnnested (select f) = IsUnnested f
  IsUnnested (meta m f) = IsUnnested f
  IsUnnested (pin f) = has_pin f ≡ false
  IsUnnested f = Unit

  AreUnnested : Filters → Type 0
  AreUnnested nil = Unit
  AreUnnested (cons f fs) = IsUnnested f × AreUnnested fs

module _ (c : Filter → Filter)
    (unpinned : (f : Filter) → has_pin f ≡ false → has_pin (c f) ≡ false) where
  mutual
    unfolding has_pin legalize_pin

    without_pin : (f : Filter) → IsUnnested f → has_pin (legalize_pin c f) ≡ false
    without_pin (compose fs) h = each_without_pin fs h
    without_pin (chain fs) h = each_without_pin fs h
    without_pin (subtract a b) h = ap₂ (λ x y. x || y) (without_pin a h.0) (without_pin b h.1)
    without_pin (exclude f) h = without_pin f h
    without_pin (select f) h = without_pin f h
    without_pin (meta m f) h = without_pin f h
    without_pin (pin f) h = unpinned f h
    without_pin _ h = refl

    each_without_pin : (fs : Filters) → AreUnnested fs → any_has_pin (legalize_each c fs) ≡ false
    each_without_pin nil h = refl
    each_without_pin (cons f fs) h =
        ap₂ (λ x y. x || y) (without_pin f h.0) (each_without_pin fs h.1)

or-false : (a b : Bool) → (a || b) ≡ false → (a ≡ false) × (b ≡ false)
or-false false b h = (refl, h)
or-false true b h = absurd (cc)

module _ (c : Filter → Filter)
    (keeps : (f : Filter) → needs_legalization f ≡ false → needs_legalization (c f) ≡ false) where
  mutual
    unfolding needs_legalization legalize_pin

    stays_legal :
        (f : Filter) → needs_legalization f ≡ false → needs_legalization (legalize_pin c f) ≡ false
    stays_legal (compose fs) h = each_stays_legal fs h
    stays_legal (chain fs) h = each_stays_legal fs h
    stays_legal (subtract a b) h =
        let w = or-false (needs_legalization a) (needs_legalization b) h in
        ap₂ (λ x y. x || y) (stays_legal a w.0) (stays_legal b w.1)
    stays_legal (exclude f) h = stays_legal f h
    stays_legal (select f) h = stays_legal f h
    stays_legal (meta m f) h = stays_legal f h
    stays_legal (pin f) h = keeps f h
    stays_legal _ h = h

    each_stays_legal :
        (fs : Filters)
        → any_needs_legalization fs ≡ false
        → any_needs_legalization (legalize_each c fs) ≡ false
    each_stays_legal nil h = refl
    each_stays_legal (cons f fs) h =
        let w = or-false (needs_legalization f) (any_needs_legalization fs) h in
        ap₂ (λ x y. x || y) (stays_legal f w.0) (each_stays_legal fs w.1)

-- If what stands for a pinned filter without pins has no pin and needs no legalization when the
-- filter needs none, and no pin lies in a pin, then a filter after legalize_pin has no pin that
-- legalize_pin would reach, and needs no legalization if it needed none before.
pub has_pin-legalize_pin :
    (c : Filter → Filter) (f : Filter)
    → ((g : Filter) → has_pin g ≡ false → has_pin (c g) ≡ false)
    → ((g : Filter) → needs_legalization g ≡ false → needs_legalization (c g) ≡ false)
    → IsUnnested f
    → (has_pin (legalize_pin c f) ≡ false)
      × (needs_legalization f ≡ false → needs_legalization (legalize_pin c f) ≡ false)
has_pin-legalize_pin c f h k u = (without_pin c h f u, stays_legal c k f)
