-- ===== src/Tree/Leaves/Minus.antt =====
-- `subtract` takes away the blobs at the paths that the second tree has.
pub mod Cases
use josh.Base.{
  ℕ, zero, suc, Bool, true, false, Bool-cases, inl, inr, Option, none, some, some_inj, List, [],
  ◌∷◌, ◌≡◌, refl, sym, ap, ap₂, ◌∙◌, subst, Text, text_eq, text_eq→eq, if◌then◌else◌, if-true,
  if-false, is_yes→eq, >>=-eq-some, ◌>>=◌,
}
use josh.Tree.Object.{
  Mode, Obj, Obj-discrete, Entries, blob, tree, absent, nil, entry, obj_eq, is_empty, empty_id,
  find, read_tree,
}
use josh.Tree.Order.{Bisect, IsBisect, lookup_entry}
use josh.Tree.Subtract.{Mods, mod_of, mod_for, put_mod, apply_mods, subtract, subtract_mods}
use josh.Tree.Leaves.{
  entry_object, child, leaf_of, leaf, hit_of, hit, hit-leaf, Distinct, Distincts, find-Distinct,
  lookup_entry-find,
}
use josh.Tree.Leaves.Minus.Cases.{
  Minus, if-none, leaf-empty, is_empty-eq, Minus-same, Minus-nothing, Minus-all, Minus-blob,
  Minus-kinds, guarded, if-none-false, put_at, find-put_mod-same, find-put_mod-other,
  child-apply_mods, leaf-absent, leaf-mod_for, combine, Modified,
}

module _ (bisect : Bisect) (is_bisect : IsBisect bisect) where
  -- A name that the second tree has not keeps its modification.
  mods-other :
      (es2 es1 : Entries) (acc mods : Mods) (n : Text)
      → find es2 n ≡ none
      → subtract_mods bisect es1 acc es2 ≡ some mods
      → mod_of mods n ≡ mod_of acc n
  unfolding subtract find
  mods-other nil es1 acc mods n f h = sym (ap (λ k. mod_of k n) (some_inj h))
  mods-other (entry m2 k o2 es2) es1 acc mods n f h =
      let kn = if-none-false (text_eq k n) (m2, o2) (find es2 n) f in
      let f' : find es2 n ≡ none = sym (if-false (text_eq k n) _ _ kn) ∙ f in
      by_lookup kn (λ acc' h'. mods-other es2 es1 acc' mods n f' h') (lookup_entry bisect es1 k) h
    where
      by_lookup :
          text_eq k n ≡ false
          → ((acc' : Mods)
              → subtract_mods bisect es1 acc' es2 ≡ some mods
              → mod_of mods n ≡ mod_of acc' n)
          → (l : Option (Mode × Obj))
          → (elim l [
            | none ↦ subtract_mods bisect es1 acc es2
            | some e1 ↦ do
              s ← subtract bisect e1.1 o2
              subtract_mods bisect es1 ((k, mod_for s) ∷ acc) es2
          ])
            ≡ some mods
          → mod_of mods n ≡ mod_of acc n
      by_lookup kn ih none q = ih acc q
      by_lookup kn ih (some e1) q =
          let p = >>=-eq-some (subtract bisect e1.1 o2) _ q in
          ih ((k, mod_for p.0) ∷ acc) p.2 ∙ unfold mod_of in if-false (text_eq k n) _ _ kn

  trees :
      (es1 es2 : Entries) (r : Obj)
      → Distincts es1
      → (if is_empty (tree es2)
          then some (tree es1)
          else (do mods ← subtract_mods bisect es1 [] es2; some (tree (apply_mods mods es1))))
        ≡ some r
      → ((mods : Mods) (n : Text)
          → subtract_mods bisect es1 [] es2 ≡ some mods
          → (e₁ e₂ : Mode × Obj) → find es1 n ≡ some e₁
          → find es2 n ≡ some e₂
          → Modified mods n e₁ e₂)
      → Minus (tree es1) (tree es2) r
  unfolding hit leaf child mod_of
  trees es1 es2 r d h k = elim (Bool-cases (is_empty (tree es2))) [
    | inl z ↦
        subst (Minus (tree es1) (tree es2))
          (some_inj (sym (if-true (is_empty (tree es2)) _ _ z) ∙ h))
          (subst (λ b. Minus (tree es1) b (tree es1)) (sym (is_empty-eq (tree es2) z))
            (Minus-all es1))
    | inr z ↦
        let p =
          >>=-eq-some (subtract_mods bisect es1 [] es2) _
            (sym (if-false (is_empty (tree es2)) _ _ z) ∙ h) in
        subst (Minus (tree es1) (tree es2)) (some_inj p.2) (joined p.0 p.1)
  ]
    where
      joined :
          (mods : Mods)
          → subtract_mods bisect es1 [] es2 ≡ some mods
          → Minus (tree es1) (tree es2) (tree (apply_mods mods es1))
      joined mods m [] = refl
      joined mods m (n ∷ ns) =
          ap (λ x. leaf_of x (λ c. leaf c ns)) (child-apply_mods es1 mods n d)
          ∙ combine (find es1 n) (find es2 n) (mod_of mods n) ns
              (λ f. mods-other es2 es1 [] mods n f m) (λ e₁ e₂ f₁ f₂. k mods n m e₁ e₂ f₁ f₂)

  entry-Modified :
      (es1 es2 : Entries) (acc mods : Mods) (m2 : Mode) (k : Text) (o2 : Obj) (n : Text)
      (e₁ e₂ : Mode × Obj)
      → Distincts es1
      → Distincts (entry m2 k o2 es2)
      → subtract_mods bisect es1 acc (entry m2 k o2 es2) ≡ some mods
      → find es1 n ≡ some e₁
      → find (entry m2 k o2 es2) n ≡ some e₂
      → ((a r : Obj) → Distinct a → Distinct o2 → subtract bisect a o2 ≡ some r → Minus a o2 r)
      → ((acc' : Mods)
          → subtract_mods bisect es1 acc' es2 ≡ some mods
          → find es2 n ≡ some e₂
          → Modified mods n e₁ e₂)
      → Modified mods n e₁ e₂
  unfolding subtract find mod_of
  entry-Modified es1 es2 acc mods m2 k o2 n e₁ e₂ d1 d2 h f₁ f₂ ih later =
      elim (Bool-cases (text_eq k n)) [
        | inl e ↦
            let kn : k ≡ n = text_eq→eq k n e in
            here e kn (lookup_entry bisect es1 k)
              (lookup_entry-find bisect es1 k is_bisect d1 ∙ ap (find es1) kn ∙ f₁) h
        | inr e ↦
            let f' : find es2 n ≡ some e₂ = sym (if-false (text_eq k n) _ _ e) ∙ f₂ in
            skip f' (lookup_entry bisect es1 k) h
      ]
    where
      here :
          text_eq k n ≡ true
          → k ≡ n
          → (l : Option (Mode × Obj)) → l ≡ some e₁
          → (elim l [
            | none ↦ subtract_mods bisect es1 acc es2
            | some e ↦ do
              s ← subtract bisect e.1 o2
              subtract_mods bisect es1 ((k, mod_for s) ∷ acc) es2
          ])
            ≡ some mods
          → Modified mods n e₁ e₂
      here e kn none l q = absurd (cc)
      here e kn (some x) l q =
          let p = >>=-eq-some (subtract bisect x.1 o2) _ q in
          let x₁ : x ≡ e₁ = some_inj l in
          let x₂ : (m2, o2) ≡ e₂ = some_inj (sym (if-true (text_eq k n) _ _ e) ∙ f₂) in
          let da : Distinct x.1 = subst (λ y. Distinct y.1) (sym x₁) (find-Distinct es1 n d1 f₁) in
          (
            p.0,
            mods-other es2 es1 ((k, mod_for p.0) ∷ acc) mods n (ap (find es2) (sym kn) ∙ d2.0) p.2
                ∙ if-true (text_eq k n) _ _ e,
            subst (λ y. Minus y.1 e₂.1 p.0) x₁
                (subst (λ y. Minus x.1 y.1 p.0) x₂ (ih x.1 p.0 da d2.1 p.1)),
          )

      skip :
          find es2 n ≡ some e₂
          → (l : Option (Mode × Obj))
          → (elim l [
            | none ↦ subtract_mods bisect es1 acc es2
            | some e ↦ do
              s ← subtract bisect e.1 o2
              subtract_mods bisect es1 ((k, mod_for s) ∷ acc) es2
          ])
            ≡ some mods
          → Modified mods n e₁ e₂
      skip f none q = later acc q f
      skip f (some x) q =
          let p = >>=-eq-some (subtract bisect x.1 o2) _ q in later ((k, mod_for p.0) ∷ acc) p.2 f

  mutual
    unfolding subtract find mod_of read_tree

    minus : (b a r : Obj) → Distinct a → Distinct b → subtract bisect a b ≡ some r → Minus a b r
    minus (blob b) (blob c) r da db h =
        guarded (blob c) (blob b) r (some empty_id) h
          (λ q. subst (Minus (blob c) (blob b)) (some_inj q) (Minus-blob (blob c) b))
    minus (blob b) (tree es) r da db h =
        guarded (tree es) (blob b) r (some empty_id) h
          (λ q. subst (Minus (tree es) (blob b)) (some_inj q) (Minus-blob (tree es) b))
    minus (blob b) (absent i) r da db h = guarded (absent i) (blob b) r none h (λ q. absurd (cc))
    minus (absent i) a r da db h = guarded a (absent i) r none h (λ q. absurd (cc))
    minus (tree es2) (blob c) r da db h =
        guarded (blob c) (tree es2) r (some empty_id) h
          (λ q. subst (Minus (blob c) (tree es2)) (some_inj q) (Minus-kinds c es2))
    minus (tree es2) (absent i) r da db h =
        guarded (absent i) (tree es2) r none h (λ q. absurd (cc))
    minus (tree es2) (tree es1) r da db h = guarded (tree es1) (tree es2) r _ h (λ q.
        trees es1 es2 r da q
          (λ mods n m e₁ e₂ f₁ f₂. minus_mods es2 es1 [] mods n e₁ e₂ da db m f₁ f₂))

    minus_mods :
        (es2 es1 : Entries) (acc mods : Mods) (n : Text) (e₁ e₂ : Mode × Obj)
        → Distincts es1
        → Distincts es2
        → subtract_mods bisect es1 acc es2 ≡ some mods
        → find es1 n ≡ some e₁
        → find es2 n ≡ some e₂
        → Modified mods n e₁ e₂
    minus_mods nil es1 acc mods n e₁ e₂ d1 d2 h f₁ f₂ = absurd (cc)
    minus_mods (entry m2 k o2 es2) es1 acc mods n e₁ e₂ d1 d2 h f₁ f₂ =
        entry-Modified es1 es2 acc mods m2 k o2 n e₁ e₂ d1 d2 h f₁ f₂
          (λ a r da d q. minus o2 a r da d q)
          (λ acc' q f. minus_mods es2 es1 acc' mods n e₁ e₂ d1 d2.2 q f₁ f)

  pub subtract-leaves :
      (a b r : Obj)
      → Distinct a
      → Distinct b
      → subtract bisect a b ≡ some r
      → (ns : List Text) → leaf r ns ≡ (if hit b ns then none else leaf a ns)
  subtract-leaves a b r da db h ns = minus b a r da db h ns
