-- ===== src/Tree/NoZero/Unions.antt =====
-- `subtract`, `intersect` and `overlay` write no zero id.
use josh.Base.{
  Bool, true, false, Option, none, some, [], ◌∷◌, ◌≡◌, Text, text_eq, All?, All?-bind, All?-elim,
  All?-if, Option-cases, inl, inr, if◌then◌else◌, ◌||◌,
}
use josh.Tree.Object.{Mode, Obj, Entries, blob, tree, absent, nil, entry, obj_eq, is_empty, is_gone}
use josh.Tree.Order.{Bisect, IsBisect, lookup_entry, insert_in_order, all_after}
use josh.Tree.Subtract as Subtract
use josh.Tree.Subtract.{Mods, mod_of, mod_for, put_mod, apply_mods}
use josh.Tree.Intersect as Intersect
use josh.Tree.Overlay as Overlay
use josh.Tree.Overlay.{Ids, id_of, put_id, apply_ids, insert_all}
use josh.Tree.NoZero.{NoZero, NoZeros, NoZeroAt, lookup_entry-NoZero}

pub insert_in_order-NoZero :
    (es : Entries) (m : Mode) (k : Text) (o : Obj)
    → NoZeros es
    → NoZero o
    → NoZeros (insert_in_order es m k o)
unfolding insert_in_order
insert_in_order-NoZero nil m k o h z = (z, tt)
insert_in_order-NoZero (entry m' k' o' es) m k o h z =
    if-NoZero (all_after (entry m' k' o' es) m k) (entry m k o (entry m' k' o' es)) _ (z, h)
      (h.0, insert_in_order-NoZero es m k o h.1 z)
  where
    if-NoZero : (b : Bool) (x y : Entries) → NoZeros x → NoZeros y → NoZeros (if b then x else y)
    if-NoZero true x y p q = p
    if-NoZero false x y p q = q

-- What the modifications of `subtract` write.
abbrev NoZeroMods : Mods → Type 0
NoZeroMods [] = Unit
NoZeroMods ((k, o) ∷ mods) = All? NoZero o × NoZeroMods mods

mod_of-NoZero : (mods : Mods) (n : Text) → NoZeroMods mods → All? (All? NoZero) (mod_of mods n)
unfolding mod_of
mod_of-NoZero [] n h = tt
mod_of-NoZero ((k, o) ∷ mods) n h =
    All?-if (All? NoZero) (text_eq k n) (some o) _ h.0 (mod_of-NoZero mods n h.1)

put_mod-NoZero :
    (o? : Option (Option Obj)) (m : Mode) (k : Text) (o : Obj) (rest : Entries)
    → All? (All? NoZero) o?
    → NoZero o
    → NoZeros rest
    → NoZeros (put_mod o? m k o rest)
put_mod-NoZero none m k o rest h z r = (z, r)
put_mod-NoZero (some none) m k o rest h z r = r
put_mod-NoZero (some (some s)) m k o rest h z r = (h, r)

apply_mods-NoZero :
    (mods : Mods) (es : Entries) → NoZeroMods mods → NoZeros es → NoZeros (apply_mods mods es)
unfolding apply_mods
apply_mods-NoZero mods nil h z = tt
apply_mods-NoZero mods (entry m k o es) h z =
    put_mod-NoZero (mod_of mods k) m k o _ (mod_of-NoZero mods k h) z.0
      (apply_mods-NoZero mods es h z.1)

mod_for-NoZero : (s : Obj) → NoZero s → All? NoZero (mod_for s)
mod_for-NoZero s h = All?-if NoZero (is_gone s) none (some s) tt h

module _ (bisect : Bisect) (is_bisect : IsBisect bisect) where
  mutual
    unfolding Subtract.subtract

    subtracted : (b a : Obj) → NoZero a → All? NoZero (Subtract.subtract bisect a b)
    subtracted (tree es2) (tree es1) h = All?-if NoZero (obj_eq (tree es1) (tree es2)) _ _ tt (
        All?-if NoZero (is_empty (tree es1)) _ _ tt (
          All?-if NoZero (is_empty (tree es2)) _ _ h (
            All?-bind NoZeroMods NoZero (Subtract.subtract_mods bisect es1 [] es2) _
              (subtracted_mods es2 es1 [] h tt) (λ mods z. apply_mods-NoZero mods es1 z h))))
    subtracted (tree es2) (blob b) h = All?-if NoZero (obj_eq (blob b) (tree es2)) _ _ tt tt
    subtracted (tree es2) (absent i) h = All?-if NoZero (obj_eq (absent i) (tree es2)) _ _ tt tt
    subtracted (blob b) (tree es1) h =
        All?-if NoZero (obj_eq (tree es1) (blob b)) _ _ tt
          (All?-if NoZero (is_empty (tree es1)) _ _ tt tt)
    subtracted (blob b) (blob b') h = All?-if NoZero (obj_eq (blob b') (blob b)) _ _ tt tt
    subtracted (blob b) (absent i) h = All?-if NoZero (obj_eq (absent i) (blob b)) _ _ tt tt
    subtracted (absent i) a h =
        All?-if NoZero (obj_eq a (absent i)) _ _ tt (All?-if NoZero (is_empty a) _ _ tt tt)

    subtracted_mods :
        (es2 es1 : Entries) (mods : Mods)
        → NoZeros es1
        → NoZeroMods mods
        → All? NoZeroMods (Subtract.subtract_mods bisect es1 mods es2)
    subtracted_mods nil es1 mods h z = z
    subtracted_mods (entry m2 n o2 es2) es1 mods h z =
        elim (Option-cases (lookup_entry bisect es1 n)) [
          | inl e ↦ rw (e, All?) (subtracted_mods es2 es1 mods h z)
          | inr (e1, e) ↦
              rw (e, All?)
                (All?-bind NoZero NoZeroMods (Subtract.subtract bisect e1.1 o2) _
                  (subtracted o2 e1.1 (
                    All?-elim NoZeroAt (lookup_entry bisect es1 n)
                      (lookup_entry-NoZero bisect is_bisect es1 n h) e))
                  (λ s zs.
                    subtracted_mods es2 es1 ((n, mod_for s) ∷ mods) h (mod_for-NoZero s zs, z)))
        ]

  found-NoZero :
      (es : Entries) (n : Text) {e : Mode × Obj}
      → NoZeros es
      → lookup_entry bisect es n ≡ some e
      → NoZero e.1
  found-NoZero es n h e =
      All?-elim NoZeroAt (lookup_entry bisect es n) (lookup_entry-NoZero bisect is_bisect es n h) e

  kept : (b : Bool) (x y : Entries) → NoZeros x → NoZeros y → NoZeros (if b then x else y)
  kept true x y p q = p
  kept false x y p q = q

  mutual
    unfolding Intersect.intersect

    intersected : (b a : Obj) → NoZero a → All? NoZero (Intersect.intersect bisect a b)
    intersected (tree es2) (tree es1) h = All?-if NoZero (obj_eq (tree es1) (tree es2)) _ _ h (
        All?-if NoZero (is_empty (tree es1) || is_empty (tree es2)) _ _ tt (
          All?-bind NoZeros NoZero (Intersect.intersect_into bisect es1 nil es2) _
            (intersected_into es2 es1 nil h tt) (λ out z. z)))
    intersected (tree es2) (blob b) h =
        All?-if NoZero (obj_eq (blob b) (tree es2)) _ _ tt
          (All?-if NoZero (is_empty (tree es2)) _ _ tt tt)
    intersected (tree es2) (absent i) h =
        All?-if NoZero (obj_eq (absent i) (tree es2)) _ _ h
          (All?-if NoZero (is_empty (tree es2)) _ _ tt tt)
    intersected (blob b) (tree es1) h =
        All?-if NoZero (obj_eq (tree es1) (blob b)) _ _ h
          (All?-if NoZero (is_empty (tree es1)) _ _ tt h)
    intersected (blob b) (blob b') h = All?-if NoZero (obj_eq (blob b') (blob b)) _ _ tt tt
    intersected (blob b) (absent i) h = All?-if NoZero (obj_eq (absent i) (blob b)) _ _ h tt
    intersected (absent i) a h =
        All?-if NoZero (obj_eq a (absent i)) _ _ h (All?-if NoZero (is_empty a) _ _ tt tt)

    intersected_into :
        (es2 es1 out : Entries)
        → NoZeros es1
        → NoZeros out
        → All? NoZeros (Intersect.intersect_into bisect es1 out es2)
    intersected_into nil es1 out h z = z
    intersected_into (entry m2 n o2 es2) es1 out h z =
        elim (Option-cases (lookup_entry bisect es1 n)) [
          | inl e ↦ rw (e, All?) (intersected_into es2 es1 out h z)
          | inr (e1, e) ↦
              rw (e, All?)
                (All?-bind NoZero NoZeros (Intersect.intersect bisect e1.1 o2) _
                  (intersected o2 e1.1 (found-NoZero es1 n h e))
                  (λ s zs.
                    intersected_into es2 es1 _ h
                      (kept (is_gone s) out _ z (insert_in_order-NoZero out e1.0 n s z zs))))
        ]

  abbrev NoZeroIds : Ids → Type 0
  NoZeroIds [] = Unit
  NoZeroIds ((k, o) ∷ ids) = NoZero o × NoZeroIds ids

  id_of-NoZero : (ids : Ids) (n : Text) → NoZeroIds ids → All? NoZero (id_of ids n)
  unfolding id_of
  id_of-NoZero [] n h = tt
  id_of-NoZero ((k, o) ∷ ids) n h =
      All?-if NoZero (text_eq k n) (some o) _ h.0 (id_of-NoZero ids n h.1)

  put_id-NoZero : (o? : Option Obj) (o : Obj) → All? NoZero o? → NoZero o → NoZero (put_id o? o)
  put_id-NoZero none o h z = z
  put_id-NoZero (some s) o h z = h

  apply_ids-NoZero :
      (ids : Ids) (es : Entries) → NoZeroIds ids → NoZeros es → NoZeros (apply_ids ids es)
  unfolding apply_ids
  apply_ids-NoZero ids nil h z = tt
  apply_ids-NoZero ids (entry m k o es) h z =
      (put_id-NoZero (id_of ids k) o (id_of-NoZero ids k h) z.0, apply_ids-NoZero ids es h z.1)

  insert_all-NoZero : (out es : Entries) → NoZeros out → NoZeros es → NoZeros (insert_all out es)
  unfolding insert_all
  insert_all-NoZero out nil h z = h
  insert_all-NoZero out (entry m k o es) h z =
      insert_all-NoZero (insert_in_order out m k o) es (insert_in_order-NoZero out m k o h z.0) z.1

  abbrev NoZeroBoth : Ids × Entries → Type 0
  NoZeroBoth r = NoZeroIds r.0 × NoZeros r.1

  mutual
    unfolding Overlay.overlay

    overlaid : (b a : Obj) → NoZero a → NoZero b → All? NoZero (Overlay.overlay bisect a b)
    overlaid (tree es2) (tree es1) h z = All?-if NoZero (obj_eq (tree es1) (tree es2)) _ _ h (
        All?-if NoZero (is_empty (tree es1)) _ _ z (
          All?-if NoZero (is_empty (tree es2)) _ _ h (
            All?-bind NoZeroBoth NoZero (Overlay.overlay_mods bisect es1 [] es2) _
              (overlaid_mods es2 es1 [] h tt z)
              (λ r zs. insert_all-NoZero _ r.1 (apply_ids-NoZero r.0 es1 zs.0 h) zs.1))))
    overlaid (tree es2) (blob b) h z =
        All?-if NoZero (obj_eq (blob b) (tree es2)) _ _ tt
          (All?-if NoZero (is_empty (tree es2)) _ _ tt tt)
    overlaid (tree es2) (absent i) h z =
        All?-if NoZero (obj_eq (absent i) (tree es2)) _ _ h
          (All?-if NoZero (is_empty (tree es2)) _ _ h tt)
    overlaid (blob b) (tree es1) h z =
        All?-if NoZero (obj_eq (tree es1) (blob b)) _ _ h
          (All?-if NoZero (is_empty (tree es1)) _ _ tt h)
    overlaid (blob b) (blob b') h z = All?-if NoZero (obj_eq (blob b') (blob b)) _ _ tt tt
    overlaid (blob b) (absent i) h z = All?-if NoZero (obj_eq (absent i) (blob b)) _ _ h tt
    overlaid (absent i) a h z =
        All?-if NoZero (obj_eq a (absent i)) _ _ h (All?-if NoZero (is_empty a) _ _ z tt)

    overlaid_mods :
        (es2 es1 : Entries) (ids : Ids)
        → NoZeros es1
        → NoZeroIds ids
        → NoZeros es2
        → All? NoZeroBoth (Overlay.overlay_mods bisect es1 ids es2)
    overlaid_mods nil es1 ids h i z = (i, tt)
    overlaid_mods (entry m2 n o2 es2) es1 ids h i z =
        elim (Option-cases (lookup_entry bisect es1 n)) [
          | inl e ↦
              rw (e, All?)
                (All?-bind NoZeroBoth NoZeroBoth (Overlay.overlay_mods bisect es1 ids es2) _
                  (overlaid_mods es2 es1 ids h i z.1) (λ r zs. (zs.0, (z.0, zs.1))))
          | inr (e1, e) ↦
              rw (e, All?)
                (All?-bind NoZero NoZeroBoth (Overlay.overlay bisect e1.1 o2) _
                  (overlaid o2 e1.1 (found-NoZero es1 n h e) z.0)
                  (λ s zs. overlaid_mods es2 es1 ((n, s) ∷ ids) h (zs, i) z.1))
        ]

  pub subtract-NoZero : (a b : Obj) → NoZero a → All? NoZero (Subtract.subtract bisect a b)
  subtract-NoZero a b h = subtracted b a h

  pub intersect-NoZero : (a b : Obj) → NoZero a → All? NoZero (Intersect.intersect bisect a b)
  intersect-NoZero a b h = intersected b a h

  pub overlay-NoZero : (a b : Obj) → NoZero a → NoZero b → All? NoZero (Overlay.overlay bisect a b)
  overlay-NoZero a b h z = overlaid b a h z
