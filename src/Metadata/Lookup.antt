-- ===== src/Metadata/Lookup.antt =====
-- What is put into the metadata is found there.
use josh.Base.{
  Bool, true, false, Bool-cases, inl, inr, some, [], ◌∷◌, ◌≡◌, refl, sym, ap, ◌∙◌, Text, text_eq,
  text_eq→eq, if◌then◌else◌,
}
use josh.Filter.Op.{Filter, Meta, meta}
use josh.Opt.PrefixSort.{text_le}
use josh.Metadata.{meta_get, meta_put, with_meta, get_meta, peel}

differ : true ≡ false → ⊥
differ e = cc

covered {ℓ} :
    {A : Type ℓ} (a b : Bool) (x y z : A)
    → (a ≡ false → b ≡ false)
    → (if a then x else z) ≡ (if a then x else (if b then y else z))
covered true b x y z h = refl
covered false true x y z h = absurd (differ (h refl))
covered false false x y z h = refl

exchanged {ℓ} :
    {A : Type ℓ} (a b : Bool) (x y z : A)
    → (a ≡ true → b ≡ false)
    → (if b then y else (if a then x else z)) ≡ (if a then x else (if b then y else z))
exchanged true true x y z h = absurd (differ (h refl))
exchanged true false x y z h = refl
exchanged false b x y z h = refl

meta_get-meta_put :
    (k v : Text) (m : Meta) (q : Text)
    → meta_get q (meta_put k v m) ≡ (if text_eq q k then some v else meta_get q m)
unfolding meta_get meta_put
meta_get-meta_put k v [] q = refl
meta_get-meta_put k v ((k', v') ∷ m) q = elim (Bool-cases (text_eq k k')) [
  | inl e ↦ rw e (
      covered (text_eq q k) (text_eq q k') _ _ _
        (λ w. ap (text_eq q) (sym (text_eq→eq k k' e)) ∙ w))
  | inr e ↦ elim (Bool-cases (text_le k k')) [
    | inl l ↦ rw (e, l) refl
    | inr l ↦
        rw (e, l, meta_get-meta_put k v m q)
          (exchanged (text_eq q k) (text_eq q k') _ _ _
            (λ w. ap (λ x. text_eq x k') (text_eq→eq q k w) ∙ e))
  ]
]

get-with_meta :
    (k v : Text) (f : Filter) (q : Text)
    → get_meta q (with_meta k v f) ≡ (if text_eq q k then some v else get_meta q f)
unfolding get_meta with_meta meta_get
get-with_meta k v (meta m f) q = meta_get-meta_put k v m q
get-with_meta k v f q = refl

peel-with_meta : (k v : Text) (f : Filter) → peel (with_meta k v f) ≡ peel f
unfolding peel with_meta
peel-with_meta k v (meta m f) = refl
peel-with_meta k v f = refl

-- After with_meta, get_meta gives the new value for the key and for any other key what it gave
-- before, and peel gives the same filter.
pub get_meta-with_meta :
    (k v : Text) (f : Filter)
    → ((q : Text) → get_meta q (with_meta k v f) ≡ (if text_eq q k then some v else get_meta q f))
      × (peel (with_meta k v f) ≡ peel f)
get_meta-with_meta k v f = (λ q. get-with_meta k v f q, peel-with_meta k v f)
