-- ===== src/Tree/Leaves/Over.antt =====
-- `overlay` joins the blobs of two trees, and the first tree wins.
pub mod Cases
use josh.Base.{
  Bool, true, false, Bool-cases, ◌⊎◌, inl, inr, Option, none, some, some_inj, List, [], ◌∷◌, ◌≡◌,
  ◌≢◌, refl, sym, ap, ap₂, ◌∙◌, subst, Text, text_eq, text_eq→eq, if◌then◌else◌, if-true, if-false,
  is_yes→eq, >>=-eq-some, ◌>>=◌,
}
use josh.Tree.Object.{
  Mode, Obj, Obj-discrete, Entries, blob, tree, absent, nil, entry, obj_eq, is_empty, empty_id,
  find, read_tree,
}
use josh.Tree.Order.{Bisect, IsBisect, lookup_entry, insert_in_order}
use josh.Tree.Overlay.{Ids, id_of, put_id, apply_ids, insert_all, overlay, overlay_mods}
use josh.Tree.Leaves.{
  entry_object, child, leaf_of, leaf, hit_of, covers, covers-leaf, Distinct, Distincts,
  find-Distinct, lookup_entry-find,
}
use josh.Tree.Leaves.Minus.Cases.{if-none, leaf-empty, is_empty-eq, if-none-false}
use josh.Tree.Leaves.Common.Cases.{find-insert_in_order-other, find-insert_in_order-same}
use josh.Tree.Leaves.Over.Cases.{
  Over, if-same, Over-same, Over-empty, Over-nothing, Over-blob, Over-kinds, guarded, put_over,
  child-apply_ids, Unique, insert_all-other, insert_all-new, combine, entry_object-none,
  second_empty,
}

module _ (bisect : Bisect) (is_bisect : IsBisect bisect) where
  -- One entry of the second tree, from what its lookup gives.
  abbrev one_entry :
      Entries → Ids → Mode → Text → Obj → Entries → Option (Mode × Obj) → Option (Ids × Entries)
  one_entry es1 ids m2 k o2 es2 none =
      overlay_mods bisect es1 ids es2 >>= λ r. some (r.0, entry m2 k o2 r.1)
  one_entry es1 ids m2 k o2 es2 (some e1) =
      overlay bisect e1.1 o2 >>= λ c. overlay_mods bisect es1 ((k, c) ∷ ids) es2

  mods_entry :
      (es1 : Entries) (ids : Ids) (m2 : Mode) (k : Text) (o2 : Obj) (es2 : Entries)
      → overlay_mods bisect es1 ids (entry m2 k o2 es2)
        ≡ one_entry es1 ids m2 k o2 es2 (lookup_entry bisect es1 k)
  unfolding overlay
  mods_entry es1 ids m2 k o2 es2 = by_lookup (lookup_entry bisect es1 k)
    where
      by_lookup :
          (l : Option (Mode × Obj))
          → (elim l [
            | none ↦ do r ← overlay_mods bisect es1 ids es2; some (r.0, entry m2 k o2 r.1)
            | some e1 ↦ do id ← overlay bisect e1.1 o2; overlay_mods bisect es1 ((k, id) ∷ ids) es2
          ])
            ≡ one_entry es1 ids m2 k o2 es2 l
      by_lookup none = refl
      by_lookup (some e1) = refl

  -- An entry that the first tree has not is new, another one is overlaid.
  abbrev New : Entries → Ids → Mode → Text → Obj → Entries → Ids × Entries → Type 0
  New es1 ids m2 k o2 es2 p =
      (lookup_entry bisect es1 k ≡ none)
      × (r : Ids × Entries) × (overlay_mods bisect es1 ids es2 ≡ some r)
      × ((r.0, entry m2 k o2 r.1) ≡ p)

  abbrev Shared : Entries → Ids → Text → Obj → Entries → Ids × Entries → Type 0
  Shared es1 ids k o2 es2 p =
      (e1 : Mode × Obj) × (lookup_entry bisect es1 k ≡ some e1)
      × (c : Obj) × (overlay bisect e1.1 o2 ≡ some c)
      × (overlay_mods bisect es1 ((k, c) ∷ ids) es2 ≡ some p)

  entry_cases :
      (es1 : Entries) (ids : Ids) (m2 : Mode) (k : Text) (o2 : Obj) (es2 : Entries)
      (p : Ids × Entries)
      → overlay_mods bisect es1 ids (entry m2 k o2 es2) ≡ some p
      → New es1 ids m2 k o2 es2 p ⊎ Shared es1 ids k o2 es2 p
  entry_cases es1 ids m2 k o2 es2 p h =
      by_lookup (lookup_entry bisect es1 k) refl (sym (mods_entry es1 ids m2 k o2 es2) ∙ h)
    where
      by_lookup :
          (l : Option (Mode × Obj))
          → lookup_entry bisect es1 k ≡ l
          → one_entry es1 ids m2 k o2 es2 l ≡ some p
          → New es1 ids m2 k o2 es2 p ⊎ Shared es1 ids k o2 es2 p
      by_lookup none e q =
          let w = >>=-eq-some (overlay_mods bisect es1 ids es2) _ q in
          inl (e, w.0, w.1, some_inj w.2)
      by_lookup (some e1) e q =
          let w = >>=-eq-some (overlay bisect e1.1 o2) _ q in inr (e1, e, w.0, w.1, w.2)

  mods_nil :
      (es1 : Entries) (ids : Ids) (p : Ids × Entries)
      → overlay_mods bisect es1 ids nil ≡ some p
      → (ids, nil) ≡ p
  unfolding overlay
  mods_nil es1 ids p h = some_inj h

  -- Names that the first tree answers differently are different.
  differ :
      (es1 : Entries) (k n : Text) {x y : Option (Mode × Obj)}
      → Distincts es1
      → lookup_entry bisect es1 k ≡ x
      → find es1 n ≡ y
      → x ≢ y
      → text_eq k n ≡ false
  differ es1 k n d l f ne = elim (Bool-cases (text_eq k n)) [
    | inl e ↦ absurd (
        ne (
          sym l
          ∙ lookup_entry-find bisect es1 k is_bisect d
          ∙ ap (find es1) (text_eq→eq k n e)
          ∙ f))
    | inr e ↦ e
  ]

  new-none :
      (es2 es1 : Entries) (ids : Ids) (p : Ids × Entries) (n : Text)
      → find es2 n ≡ none
      → overlay_mods bisect es1 ids es2 ≡ some p
      → find p.1 n ≡ none
  unfolding find
  new-none nil es1 ids p n f h = ap (λ x. find x.1 n) (sym (mods_nil es1 ids p h))
  new-none (entry m2 k o2 es2) es1 ids p n f h =
      let kn = if-none-false (text_eq k n) (m2, o2) (find es2 n) f in
      let f' : find es2 n ≡ none = sym (if-false (text_eq k n) _ _ kn) ∙ f in
      elim (entry_cases es1 ids m2 k o2 es2 p h) [
        | inl w ↦
            ap (λ x. find x.1 n) (sym w.3)
            ∙ if-false (text_eq k n) _ _ kn
            ∙ new-none es2 es1 ids w.1 n f' w.2
        | inr w ↦ new-none es2 es1 ((k, w.2) ∷ ids) p n f' w.4
      ]

  new-Unique :
      (es2 es1 : Entries) (ids : Ids) (p : Ids × Entries)
      → Distincts es2
      → overlay_mods bisect es1 ids es2 ≡ some p
      → Unique p.1
  new-Unique nil es1 ids p d h = subst (λ x. Unique x.1) (mods_nil es1 ids p h) tt
  new-Unique (entry m2 k o2 es2) es1 ids p d h = elim (entry_cases es1 ids m2 k o2 es2 p h) [
    | inl w ↦
        subst (λ x. Unique x.1) w.3
          (new-none es2 es1 ids w.1 k d.0 w.2, new-Unique es2 es1 ids w.1 d.2 w.2)
    | inr w ↦ new-Unique es2 es1 ((k, w.2) ∷ ids) p d.2 w.4
  ]

  -- Among the new entries is what the first tree has not.
  new-found :
      (es2 es1 : Entries) (ids : Ids) (p : Ids × Entries) (n : Text)
      → Distincts es1
      → find es1 n ≡ none
      → overlay_mods bisect es1 ids es2 ≡ some p
      → find p.1 n ≡ find es2 n
  unfolding find
  new-found nil es1 ids p n d f h = ap (λ x. find x.1 n) (sym (mods_nil es1 ids p h))
  new-found (entry m2 k o2 es2) es1 ids p n d f h = elim (entry_cases es1 ids m2 k o2 es2 p h) [
    | inl w ↦
        ap (λ x. find x.1 n) (sym w.3)
        ∙ ap (λ x. if text_eq k n then some (m2, o2) else x) (new-found es2 es1 ids w.1 n d f w.2)
    | inr w ↦
        new-found es2 es1 ((k, w.2) ∷ ids) p n d f w.4
        ∙ sym (if-false (text_eq k n) _ _ (differ es1 k n d w.1 f (λ q. cc)))
  ]

  new-shared :
      (es2 es1 : Entries) (ids : Ids) (p : Ids × Entries) (n : Text) (e₁ : Mode × Obj)
      → Distincts es1
      → find es1 n ≡ some e₁
      → overlay_mods bisect es1 ids es2 ≡ some p
      → find p.1 n ≡ none
  unfolding find
  new-shared nil es1 ids p n e₁ d f h = ap (λ x. find x.1 n) (sym (mods_nil es1 ids p h))
  new-shared (entry m2 k o2 es2) es1 ids p n e₁ d f h = elim (entry_cases es1 ids m2 k o2 es2 p h) [
    | inl w ↦
        ap (λ x. find x.1 n) (sym w.3)
        ∙ if-false (text_eq k n) _ _ (differ es1 k n d w.0 f (λ q. cc))
        ∙ new-shared es2 es1 ids w.1 n e₁ d f w.2
    | inr w ↦ new-shared es2 es1 ((k, w.2) ∷ ids) p n e₁ d f w.4
  ]

  ids-other :
      (es2 es1 : Entries) (ids : Ids) (p : Ids × Entries) (n : Text)
      → find es2 n ≡ none
      → overlay_mods bisect es1 ids es2 ≡ some p
      → id_of p.0 n ≡ id_of ids n
  unfolding find id_of
  ids-other nil es1 ids p n f h = ap (λ x. id_of x.0 n) (sym (mods_nil es1 ids p h))
  ids-other (entry m2 k o2 es2) es1 ids p n f h =
      let kn = if-none-false (text_eq k n) (m2, o2) (find es2 n) f in
      let f' : find es2 n ≡ none = sym (if-false (text_eq k n) _ _ kn) ∙ f in
      elim (entry_cases es1 ids m2 k o2 es2 p h) [
        | inl w ↦ ap (λ x. id_of x.0 n) (sym w.3) ∙ ids-other es2 es1 ids w.1 n f' w.2
        | inr w ↦ ids-other es2 es1 ((k, w.2) ∷ ids) p n f' w.4 ∙ if-false (text_eq k n) _ _ kn
      ]

  -- The object of a name that both trees have.
  abbrev Joined : Ids → Text → Mode × Obj → Mode × Obj → Type 0
  Joined ids n e₁ e₂ = (c : Obj) × (id_of ids n ≡ some c) × Over e₁.1 e₂.1 c

  Joined-entry :
      (es1 : Entries) (ids : Ids) (m2 : Mode) (k : Text) (o2 : Obj) (es2 : Entries)
      (p : Ids × Entries) (n : Text) (e₁ e₂ : Mode × Obj)
      → Distincts es1
      → find es2 k ≡ none
      → overlay_mods bisect es1 ids (entry m2 k o2 es2) ≡ some p
      → find es1 n ≡ some e₁
      → find (entry m2 k o2 es2) n ≡ some e₂
      → ((a r : Obj) → Distinct a → overlay bisect a o2 ≡ some r → Over a o2 r)
      → ((ids' : Ids) (p' : Ids × Entries)
          → overlay_mods bisect es1 ids' es2 ≡ some p'
          → find es2 n ≡ some e₂
          → Joined p'.0 n e₁ e₂)
      → Joined p.0 n e₁ e₂
  unfolding find id_of
  Joined-entry es1 ids m2 k o2 es2 p n e₁ e₂ d f₀ h f₁ f₂ ih later =
      elim (Bool-cases (text_eq k n)) [
        | inl e ↦ elim (entry_cases es1 ids m2 k o2 es2 p h) [
          | inl w ↦ absurd (yes_no (sym e ∙ differ es1 k n d w.0 f₁ (λ q. cc)))
          | inr w ↦
              let kn : k ≡ n = text_eq→eq k n e in
              let x₁ : w.0 ≡ e₁ =
                some_inj
                  (sym w.1 ∙ lookup_entry-find bisect es1 k is_bisect d ∙ ap (find es1) kn ∙ f₁) in
              let x₂ : (m2, o2) ≡ e₂ = some_inj (sym (if-true (text_eq k n) _ _ e) ∙ f₂) in
              (
                w.2,
                ids-other es2 es1 ((k, w.2) ∷ ids) p n (ap (find es2) (sym kn) ∙ f₀) w.4
                    ∙ if-true (text_eq k n) _ _ e,
                subst (λ y. Over y.1 e₂.1 w.2) x₁
                    (subst (λ y. Over w.0.1 y.1 w.2) x₂
                      (ih w.0.1 w.2 (subst (λ y. Distinct y.1) (sym x₁) (find-Distinct es1 n d f₁))
                        w.3)),
              )
        ]
        | inr e ↦
            let f' : find es2 n ≡ some e₂ = sym (if-false (text_eq k n) _ _ e) ∙ f₂ in
            elim (entry_cases es1 ids m2 k o2 es2 p h) [
              | inl w ↦ subst (λ x. Joined x.0 n e₁ e₂) w.3 (later ids w.1 w.2 f')
              | inr w ↦ later ((k, w.2) ∷ ids) p w.4 f'
            ]
      ]
    where
      yes_no : true ≡ false → ⊥
      yes_no q = cc

  trees :
      (es1 es2 : Entries) (p : Ids × Entries)
      → Distincts es1
      → Distincts es2
      → overlay_mods bisect es1 [] es2 ≡ some p
      → ((n : Text) (e₁ e₂ : Mode × Obj)
          → find es1 n ≡ some e₁
          → find es2 n ≡ some e₂
          → Joined p.0 n e₁ e₂)
      → Over (tree es1) (tree es2) (tree (insert_all (apply_ids p.0 es1) p.1))
  unfolding leaf covers child put_over id_of
  trees es1 es2 p d1 d2 h k [] = sym (if-none _)
  trees es1 es2 p d1 d2 h k (n ∷ ns) =
      combine (find es1 n) (find es2 n) (entry_object (find (insert_all (apply_ids p.0 es1) p.1) n))
        ns
        (λ f₁. ap entry_object (
          insert_all-new p.1 (apply_ids p.0 es1) n (new-Unique es2 es1 [] p d2 h) (
            entry_object-none _ (child-apply_ids es1 p.0 n ∙ ap (λ x. put_over x (id_of p.0 n)) f₁))
          ∙ new-found es2 es1 [] p n d1 f₁ h))
        (λ e₁ f₁ f₂.
          ap entry_object
            (insert_all-other p.1 (apply_ids p.0 es1) n (new-none es2 es1 [] p n f₂ h))
          ∙ child-apply_ids es1 p.0 n
          ∙ ap₂ put_over f₁ (ids-other es2 es1 [] p n f₂ h))
        (λ e₁ e₂ f₁ f₂.
          let w = k n e₁ e₂ f₁ f₂ in
          (
            w.0,
            ap entry_object (
                  insert_all-other p.1 (apply_ids p.0 es1) n (new-shared es2 es1 [] p n e₁ d1 f₁ h))
                ∙ child-apply_ids es1 p.0 n
                ∙ ap₂ put_over f₁ w.1,
            w.2,
          ))

  mutual
    unfolding overlay find read_tree

    over : (b a r : Obj) → Distinct a → Distinct b → overlay bisect a b ≡ some r → Over a b r
    over (blob b) (blob c) r da db h =
        guarded (blob c) (blob b) r _ h
          (λ q z. subst (Over (blob c) (blob b)) (some_inj q) (Over-blob c (blob b)))
    over (blob b) (tree es) r da db h =
        guarded (tree es) (blob b) r _ h
          (λ q z. subst (Over (tree es) (blob b)) (some_inj q) (Over-kinds es b z))
    over (blob b) (absent i) r da db h = guarded (absent i) (blob b) r none h (λ q z. absurd (cc))
    over (absent i) a r da db h = guarded a (absent i) r none h (λ q z. absurd (cc))
    over (tree es2) (blob c) r da db h = guarded (blob c) (tree es2) r _ h (λ q z.
        second_empty (blob c) (tree es2) r _ q
          (λ w. subst (Over (blob c) (tree es2)) (some_inj w) (Over-blob c (tree es2))))
    over (tree es2) (absent i) r da db h =
        guarded (absent i) (tree es2) r _ h
          (λ q z. second_empty (absent i) (tree es2) r none q (λ w. absurd (cc)))
    over (tree es2) (tree es1) r da db h = guarded (tree es1) (tree es2) r _ h (λ q z.
        second_empty (tree es1) (tree es2) r _ q (λ w.
          let p = >>=-eq-some (overlay_mods bisect es1 [] es2) _ w in
          subst (Over (tree es1) (tree es2)) (some_inj p.2) (
            trees es1 es2 p.0 da db p.1
              (λ n e₁ e₂ f₁ f₂. over_mods es2 es1 [] p.0 n e₁ e₂ da db p.1 f₁ f₂))))

    over_mods :
        (es2 es1 : Entries) (ids : Ids) (p : Ids × Entries) (n : Text) (e₁ e₂ : Mode × Obj)
        → Distincts es1
        → Distincts es2
        → overlay_mods bisect es1 ids es2 ≡ some p
        → find es1 n ≡ some e₁
        → find es2 n ≡ some e₂
        → Joined p.0 n e₁ e₂
    over_mods nil es1 ids p n e₁ e₂ d1 d2 h f₁ f₂ = absurd (cc)
    over_mods (entry m2 k o2 es2) es1 ids p n e₁ e₂ d1 d2 h f₁ f₂ =
        Joined-entry es1 ids m2 k o2 es2 p n e₁ e₂ d1 d2.0 h f₁ f₂
          (λ a r da q. over o2 a r da d2.1 q)
          (λ ids' p' q f. over_mods es2 es1 ids' p' n e₁ e₂ d1 d2.2 q f₁ f)

  pub overlay-leaves :
      (a b r : Obj)
      → Distinct a
      → Distinct b
      → overlay bisect a b ≡ some r
      → (ns : List Text) → leaf r ns ≡ (if covers a ns then leaf a ns else leaf b ns)
  overlay-leaves a b r da db h ns = over b a r da db h ns
