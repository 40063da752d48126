-- ===== src/Tree/Leaves/Total.antt =====
-- The operations on two trees succeed where every object is in the repository.
use josh.Base.{
  Bool, true, false, ◌||◌, Option, none, some, some_inj, Option-cases, [], ◌∷◌, ◌≡◌, refl, sym, ◌∙◌,
  subst, Text, text_eq, Bool-cases, inl, inr, if◌then◌else◌, if-true, if-false, ◌>>=◌,
}
use josh.Tree.Object.{
  Mode, Obj, Entries, blob, tree, absent, nil, entry, obj_eq, is_empty, is_gone, find, read_tree,
}
use josh.Tree.Order.{Bisect, IsBisect, lookup_entry, insert_in_order}
use josh.Tree.Subtract.{Mods, mod_for, subtract, subtract_mods}
use josh.Tree.Intersect.{intersect, intersect_into}
use josh.Tree.Overlay.{Ids, overlay, overlay_mods}
use josh.Tree.Leaves.{Distinct, Distincts, find-Distinct, lookup_entry-find}

-- No absent object, at any depth.
abbrev mutual
  pub Present : Obj → Type 0
  Present (blob b) = Unit
  Present (tree es) = AllPresent es
  Present (absent i) = ⊥

  AllPresent : Entries → Type 0
  AllPresent nil = Unit
  AllPresent (entry m k o es) = Present o × AllPresent es

-- There is a result.
abbrev Has {ℓ} : {A : Type ℓ} → Option A → Type 0
Has none = ⊥
Has (some a) = Unit

if-Has {ℓ} : {A : Type ℓ} (b : Bool) (x y : Option A) → Has x → Has y → Has (if b then x else y)
if-Has true x y h k = h
if-Has false x y h k = k

bind-Has {ℓ κ} :
    {A : Type ℓ} {B : Type κ} (o : Option A) (f : A → Option B)
    → Has o
    → ((a : A) → Has (f a))
    → Has (o >>= f)
bind-Has none f h k = elim h [ ]
bind-Has (some a) f h k = k a

-- The result itself.
pub Has-value {ℓ} : {A : Type ℓ} (o : Option A) → Has o → (r : A) × (o ≡ some r)
Has-value none h = elim h [ ]
Has-value (some a) h = (a, refl)

find-Present :
    (es : Entries) (n : Text) {e : Mode × Obj} → AllPresent es → find es n ≡ some e → Present e.1
unfolding find
find-Present nil n p h = absurd (cc)
find-Present (entry m k o es) n p h = elim (Bool-cases (text_eq k n)) [
  | inl e ↦ subst (λ x. Present x.1) (some_inj (sym (if-true (text_eq k n) _ _ e) ∙ h)) p.0
  | inr e ↦ find-Present es n p.1 (sym (if-false (text_eq k n) _ _ e) ∙ h)
]

module _ (bisect : Bisect) (is_bisect : IsBisect bisect) where
  -- What a lookup finds in such a tree.
  looked_up :
      (es : Entries) (n : Text) (e : Mode × Obj)
      → Distincts es
      → AllPresent es
      → lookup_entry bisect es n ≡ some e
      → Distinct e.1 × Present e.1
  looked_up es n e d p h =
      let f : find es n ≡ some e = sym (lookup_entry-find bisect es n is_bisect d) ∙ h in
      (find-Distinct es n d f, find-Present es n p f)

  mutual
    unfolding subtract read_tree

    subtracts : (b a : Obj) → Distinct a → Present a → Present b → Has (subtract bisect a b)
    subtracts (absent i) a d p q = elim q [ ]
    subtracts (blob b) (absent i) d p q = elim p [ ]
    subtracts (tree es) (absent i) d p q = elim p [ ]
    subtracts (blob b) (blob c) d p q = if-Has (obj_eq (blob c) (blob b)) _ _ tt tt
    subtracts (blob b) (tree es) d p q =
        if-Has (obj_eq (tree es) (blob b)) _ _ tt (if-Has (is_empty (tree es)) _ _ tt tt)
    subtracts (tree es2) (blob c) d p q = if-Has (obj_eq (blob c) (tree es2)) _ _ tt tt
    subtracts (tree es2) (tree es1) d p q = if-Has (obj_eq (tree es1) (tree es2)) _ _ tt (
        if-Has (is_empty (tree es1)) _ _ tt (
          if-Has (is_empty (tree es2)) _ _ tt (
            bind-Has (subtract_mods bisect es1 [] es2) _ (subtracts_mods es2 es1 [] d p q)
              (λ mods. tt))))

    subtracts_mods :
        (es2 es1 : Entries) (acc : Mods)
        → Distincts es1
        → AllPresent es1
        → AllPresent es2
        → Has (subtract_mods bisect es1 acc es2)
    subtracts_mods nil es1 acc d p q = tt
    subtracts_mods (entry m2 k o2 es2) es1 acc d p q =
        elim (Option-cases (lookup_entry bisect es1 k)) [
          | inl e ↦ rw (e, Has) (subtracts_mods es2 es1 acc d p q.1)
          | inr (e1, e) ↦
              rw (e, Has)
                (bind-Has (subtract bisect e1.1 o2) _
                  (subtracts o2 e1.1 (looked_up es1 k e1 d p e).0 (looked_up es1 k e1 d p e).1 q.0)
                  (λ s. subtracts_mods es2 es1 ((k, mod_for s) ∷ acc) d p q.1))
        ]

  mutual
    unfolding intersect read_tree

    intersects : (b a : Obj) → Distinct a → Present a → Present b → Has (intersect bisect a b)
    intersects (absent i) a d p q = elim q [ ]
    intersects (blob b) (absent i) d p q = elim p [ ]
    intersects (tree es) (absent i) d p q = elim p [ ]
    intersects (blob b) (blob c) d p q = if-Has (obj_eq (blob c) (blob b)) _ _ tt tt
    intersects (blob b) (tree es) d p q =
        if-Has (obj_eq (tree es) (blob b)) _ _ tt (if-Has (is_empty (tree es)) _ _ tt tt)
    intersects (tree es2) (blob c) d p q =
        if-Has (obj_eq (blob c) (tree es2)) _ _ tt (if-Has (is_empty (tree es2)) _ _ tt tt)
    intersects (tree es2) (tree es1) d p q = if-Has (obj_eq (tree es1) (tree es2)) _ _ tt (
        if-Has (is_empty (tree es1) || is_empty (tree es2)) _ _ tt (
          bind-Has (intersect_into bisect es1 nil es2) _ (intersects_into es2 es1 nil d p q)
            (λ out. tt)))

    intersects_into :
        (es2 es1 out : Entries)
        → Distincts es1
        → AllPresent es1
        → AllPresent es2
        → Has (intersect_into bisect es1 out es2)
    intersects_into nil es1 out d p q = tt
    intersects_into (entry m2 k o2 es2) es1 out d p q =
        elim (Option-cases (lookup_entry bisect es1 k)) [
          | inl e ↦ rw (e, Has) (intersects_into es2 es1 out d p q.1)
          | inr (e1, e) ↦
              rw (e, Has)
                (bind-Has (intersect bisect e1.1 o2) _
                  (intersects o2 e1.1 (looked_up es1 k e1 d p e).0 (looked_up es1 k e1 d p e).1 q.0)
                  (λ c.
                    intersects_into es2 es1
                      (if is_gone c then out else insert_in_order out e1.0 k c) d p q.1))
        ]

  mutual
    unfolding overlay read_tree

    overlays : (b a : Obj) → Distinct a → Present a → Present b → Has (overlay bisect a b)
    overlays (absent i) a d p q = elim q [ ]
    overlays (blob b) (absent i) d p q = elim p [ ]
    overlays (tree es) (absent i) d p q = elim p [ ]
    overlays (blob b) (blob c) d p q = if-Has (obj_eq (blob c) (blob b)) _ _ tt tt
    overlays (blob b) (tree es) d p q =
        if-Has (obj_eq (tree es) (blob b)) _ _ tt (if-Has (is_empty (tree es)) _ _ tt tt)
    overlays (tree es2) (blob c) d p q =
        if-Has (obj_eq (blob c) (tree es2)) _ _ tt (if-Has (is_empty (tree es2)) _ _ tt tt)
    overlays (tree es2) (tree es1) d p q = if-Has (obj_eq (tree es1) (tree es2)) _ _ tt (
        if-Has (is_empty (tree es1)) _ _ tt (
          if-Has (is_empty (tree es2)) _ _ tt (
            bind-Has (overlay_mods bisect es1 [] es2) _ (overlays_mods es2 es1 [] d p q)
              (λ r. tt))))

    overlays_mods :
        (es2 es1 : Entries) (ids : Ids)
        → Distincts es1
        → AllPresent es1
        → AllPresent es2
        → Has (overlay_mods bisect es1 ids es2)
    overlays_mods nil es1 ids d p q = tt
    overlays_mods (entry m2 k o2 es2) es1 ids d p q =
        elim (Option-cases (lookup_entry bisect es1 k)) [
          | inl e ↦
              rw (e, Has)
                (bind-Has (overlay_mods bisect es1 ids es2) _ (overlays_mods es2 es1 ids d p q.1)
                  (λ r. tt))
          | inr (e1, e) ↦
              rw (e, Has)
                (bind-Has (overlay bisect e1.1 o2) _
                  (overlays o2 e1.1 (looked_up es1 k e1 d p e).0 (looked_up es1 k e1 d p e).1 q.0)
                  (λ c. overlays_mods es2 es1 ((k, c) ∷ ids) d p q.1))
        ]

  pub subtract-Has : (a b : Obj) → Distinct a → Present a → Present b → Has (subtract bisect a b)
  subtract-Has a b d p q = subtracts b a d p q

  pub intersect-Has : (a b : Obj) → Distinct a → Present a → Present b → Has (intersect bisect a b)
  intersect-Has a b d p q = intersects b a d p q

  pub overlay-Has : (a b : Obj) → Distinct a → Present a → Present b → Has (overlay bisect a b)
  overlay-Has a b d p q = overlays b a d p q
