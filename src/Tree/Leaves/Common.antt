-- ===== src/Tree/Leaves/Common.antt =====
-- `intersect` keeps the blobs at the paths that the second tree has.
pub mod Cases
use josh.Base.{
  Bool, true, false, ◌||◌, Bool-cases, inl, inr, Option, none, some, some_inj, ◌⊎◌, List, [], ◌∷◌,
  ◌≡◌, refl, sym, ap, ◌∙◌, subst, Text, text_eq, text_eq_refl, text_eq→eq, if◌then◌else◌, if-true,
  if-false, is_yes→eq, >>=-eq-some, ◌>>=◌,
}
use josh.Tree.Object.{
  Mode, Obj, Obj-discrete, Entries, blob, tree, absent, nil, entry, obj_eq, is_empty, is_gone,
  empty_id, find, read_tree,
}
use josh.Tree.Order.{Bisect, IsBisect, lookup_entry, insert_in_order, all_after}
use josh.Tree.Subtract.{mod_for}
use josh.Tree.Intersect.{intersect, intersect_into}
use josh.Tree.Leaves.{
  entry_object, child, leaf_of, leaf, hit_of, covers, covers-leaf, Distinct, Distincts,
  find-Distinct, lookup_entry-find,
}
use josh.Tree.Leaves.Minus.Cases.{if-none, leaf-empty, is_empty-eq, leaf-mod_for, if-none-false}
use josh.Tree.Leaves.Common.Cases.{
  Common, find-insert_in_order-other, find-insert_in_order-same, Common-same, Common-nothing,
  Common-none, Common-blob, Common-kinds, or-eq-false, empty-Common, empty_first, guarded, Kept,
  put_kept, find-put_kept-other, find-put_kept-same, combine,
}

module _ (bisect : Bisect) (is_bisect : IsBisect bisect) where
  -- One entry of the second tree, from what its lookup gives.
  abbrev one_entry : Entries → Entries → Text → Obj → Entries → Option (Mode × Obj) → Option Entries
  one_entry es1 out k o2 es2 none = intersect_into bisect es1 out es2
  one_entry es1 out k o2 es2 (some e1) =
      intersect bisect e1.1 o2 >>= λ c. intersect_into bisect es1 (put_kept out e1.0 k c) es2

  into_entry :
      (es1 out : Entries) (m2 : Mode) (k : Text) (o2 : Obj) (es2 : Entries)
      → intersect_into bisect es1 out (entry m2 k o2 es2)
        ≡ one_entry es1 out k o2 es2 (lookup_entry bisect es1 k)
  unfolding intersect
  into_entry es1 out m2 k o2 es2 = by_lookup (lookup_entry bisect es1 k)
    where
      by_lookup :
          (l : Option (Mode × Obj))
          → (elim l [
            | none ↦ intersect_into bisect es1 out es2
            | some e1 ↦ do
              child ← intersect bisect e1.1 o2
              intersect_into bisect es1
                  (if is_gone child then out else insert_in_order out e1.0 k child)
                  es2
          ])
            ≡ one_entry es1 out k o2 es2 l
      by_lookup none = refl
      by_lookup (some e1) = refl

  -- The step of a name that is not `n` leaves what is at `n`.
  step-other :
      (es1 out res : Entries) (k : Text) (o2 : Obj) (es2 : Entries) (n : Text)
      → ((out' : Entries)
          → intersect_into bisect es1 out' es2 ≡ some res
          → find res n ≡ find out' n)
      → (l : Option (Mode × Obj)) → (text_eq k n ≡ false) ⊎ (l ≡ none)
      → one_entry es1 out k o2 es2 l ≡ some res
      → find res n ≡ find out n
  step-other es1 out res k o2 es2 n ih none e h = ih out h
  step-other es1 out res k o2 es2 n ih (some e1) (inl e) h =
      let p = >>=-eq-some (intersect bisect e1.1 o2) _ h in
      ih (put_kept out e1.0 k p.0) p.2 ∙ find-put_kept-other out e1.0 k p.0 n e
  step-other es1 out res k o2 es2 n ih (some e1) (inr e) h = absurd (cc)

  into-other :
      (es2 es1 out res : Entries) (n : Text)
      → find es2 n ≡ none
      → intersect_into bisect es1 out es2 ≡ some res
      → find res n ≡ find out n
  unfolding find
  into-other nil es1 out res n f h = unfold intersect in sym (ap (λ x. find x n) (some_inj h))
  into-other (entry m2 k o2 es2) es1 out res n f h =
      let kn = if-none-false (text_eq k n) (m2, o2) (find es2 n) f in
      let f' : find es2 n ≡ none = sym (if-false (text_eq k n) _ _ kn) ∙ f in
      step-other es1 out res k o2 es2 n (λ out' q. into-other es2 es1 out' res n f' q)
        (lookup_entry bisect es1 k) (inl kn) (sym (into_entry es1 out m2 k o2 es2) ∙ h)

  into-absent :
      (es2 es1 out res : Entries) (n : Text)
      → Distincts es1
      → find es1 n ≡ none
      → intersect_into bisect es1 out es2 ≡ some res
      → find res n ≡ find out n
  into-absent nil es1 out res n d f h = unfold intersect in sym (ap (λ x. find x n) (some_inj h))
  into-absent (entry m2 k o2 es2) es1 out res n d f h =
      step-other es1 out res k o2 es2 n (λ out' q. into-absent es2 es1 out' res n d f q)
        (lookup_entry bisect es1 k) (known (Bool-cases (text_eq k n)))
        (sym (into_entry es1 out m2 k o2 es2) ∙ h)
    where
      known :
          (text_eq k n ≡ true) ⊎ (text_eq k n ≡ false)
          → (text_eq k n ≡ false) ⊎ (lookup_entry bisect es1 k ≡ none)
      known (inr e) = inl e
      known (inl e) =
          inr (lookup_entry-find bisect es1 k is_bisect d ∙ ap (find es1) (text_eq→eq k n e) ∙ f)

  trees :
      (es1 es2 res : Entries)
      → Distincts es1
      → intersect_into bisect es1 nil es2 ≡ some res
      → ((n : Text) (e₁ e₂ : Mode × Obj)
          → find es1 n ≡ some e₁
          → find es2 n ≡ some e₂
          → Kept res n e₁ e₂)
      → is_empty (tree es2) ≡ false
      → Common (tree es1) (tree es2) (tree res)
  unfolding leaf covers child find
  trees es1 es2 res d h k z [] = sym (if-none _)
  trees es1 es2 res d h k z (n ∷ ns) =
      combine (find es1 n) (find es2 n) (entry_object (find res n)) ns
        (λ f. ap entry_object (into-absent es2 es1 nil res n d f h))
        (λ f. ap entry_object (into-other es2 es1 nil res n f h)) (λ e₁ e₂ f₁ f₂. k n e₁ e₂ f₁ f₂)

  -- The step of the name `n` puts there what the objects have in common.
  entry-Kept :
      (es1 out res : Entries) (m2 : Mode) (k : Text) (o2 : Obj) (es2 : Entries) (e₁ : Mode × Obj)
      → find es2 k ≡ none
      → find out k ≡ none
      → Distinct e₁.1
      → ((a r : Obj) → Distinct a → intersect bisect a o2 ≡ some r → Common a o2 r)
      → (l : Option (Mode × Obj)) → l ≡ some e₁
      → one_entry es1 out k o2 es2 l ≡ some res
      → Kept res k e₁ (m2, o2)
  entry-Kept es1 out res m2 k o2 es2 e₁ f₂ f d ih none q h = absurd (cc)
  entry-Kept es1 out res m2 k o2 es2 e₁ f₂ f d ih (some x) q h =
      let p = >>=-eq-some (intersect bisect x.1 o2) _ h in
      let x₁ : x ≡ e₁ = some_inj q in
      (
        p.0,
        ap entry_object (into-other es2 es1 (put_kept out x.0 k p.0) res k f₂ p.2)
            ∙ find-put_kept-same out x.0 k p.0 f,
        subst (λ y. Common y.1 o2 p.0) x₁ (ih x.1 p.0 (subst (λ y. Distinct y.1) (sym x₁) d) p.1),
      )

  -- The step of another name keeps `n` free.
  step-later :
      (es1 out res : Entries) (k : Text) (o2 : Obj) (es2 : Entries) (n : Text) (e₁ e₂ : Mode × Obj)
      → text_eq k n ≡ false
      → find out n ≡ none
      → ((out' : Entries)
          → find out' n ≡ none
          → intersect_into bisect es1 out' es2 ≡ some res
          → Kept res n e₁ e₂)
      → (l : Option (Mode × Obj)) → one_entry es1 out k o2 es2 l ≡ some res
      → Kept res n e₁ e₂
  step-later es1 out res k o2 es2 n e₁ e₂ e f ih none h = ih out f h
  step-later es1 out res k o2 es2 n e₁ e₂ e f ih (some x) h =
      let p = >>=-eq-some (intersect bisect x.1 o2) _ h in
      ih (put_kept out x.0 k p.0) (find-put_kept-other out x.0 k p.0 n e ∙ f) p.2

  choose :
      (es1 out res : Entries) (m2 : Mode) (k : Text) (o2 : Obj) (es2 : Entries) (n : Text)
      (e₁ e₂ : Mode × Obj)
      → Distincts es1
      → find es2 k ≡ none
      → intersect_into bisect es1 out (entry m2 k o2 es2) ≡ some res
      → find out n ≡ none
      → find es1 n ≡ some e₁
      → find (entry m2 k o2 es2) n ≡ some e₂
      → ((a r : Obj) → Distinct a → intersect bisect a o2 ≡ some r → Common a o2 r)
      → ((out' : Entries)
          → find out' n ≡ none
          → intersect_into bisect es1 out' es2 ≡ some res
          → find es2 n ≡ some e₂
          → Kept res n e₁ e₂)
      → Kept res n e₁ e₂
  unfolding find
  choose es1 out res m2 k o2 es2 n e₁ e₂ d1 f₀ h f f₁ f₂ ih later =
      let h' = sym (into_entry es1 out m2 k o2 es2) ∙ h in
      elim (Bool-cases (text_eq k n)) [
        | inl e ↦
            let kn : n ≡ k = sym (text_eq→eq k n e) in
            let x₂ : (m2, o2) ≡ e₂ = some_inj (sym (if-true (text_eq k n) _ _ e) ∙ f₂) in
            subst (λ y. Kept res n e₁ y) x₂
              (subst (λ y. Kept res y e₁ (m2, o2)) (sym kn)
                (entry-Kept es1 out res m2 k o2 es2 e₁ f₀ (ap (find out) (sym kn) ∙ f)
                  (find-Distinct es1 n d1 f₁) ih (lookup_entry bisect es1 k)
                  (lookup_entry-find bisect es1 k is_bisect d1 ∙ ap (find es1) (sym kn) ∙ f₁) h'))
        | inr e ↦
            let f' : find es2 n ≡ some e₂ = sym (if-false (text_eq k n) _ _ e) ∙ f₂ in
            step-later es1 out res k o2 es2 n e₁ e₂ e f (λ out' g q. later out' g q f')
              (lookup_entry bisect es1 k) h'
      ]

  mutual
    unfolding intersect find read_tree

    common : (b a r : Obj) → Distinct a → Distinct b → intersect bisect a b ≡ some r → Common a b r
    common (blob b) (blob c) r da db h =
        guarded (blob c) (blob b) r false _ h (λ z. absurd (cc))
          (λ q z. subst (Common (blob c) (blob b)) (some_inj q) (Common-blob (blob c) b))
    common (blob b) (tree es) r da db h =
        guarded (tree es) (blob b) r (is_empty (tree es)) _ h (empty_first (tree es) (blob b))
          (λ q z. subst (Common (tree es) (blob b)) (some_inj q) (Common-blob (tree es) b))
    common (blob b) (absent i) r da db h =
        guarded (absent i) (blob b) r false _ h (λ z. absurd (cc)) (λ q z. absurd (cc))
    common (absent i) a r da db h =
        guarded a (absent i) r (is_empty a) none h (empty_first a (absent i)) (λ q z. absurd (cc))
    common (tree es2) (blob c) r da db h =
        guarded (blob c) (tree es2) r (is_empty (tree es2)) _ h (empty-Common (blob c) (tree es2))
          (λ q z. subst (Common (blob c) (tree es2)) (some_inj q) (Common-kinds c es2 z))
    common (tree es2) (absent i) r da db h =
        guarded (absent i) (tree es2) r (is_empty (tree es2)) _ h
          (empty-Common (absent i) (tree es2)) (λ q z. absurd (cc))
    common (tree es2) (tree es1) r da db h =
        guarded (tree es1) (tree es2) r (is_empty (tree es1) || is_empty (tree es2)) _ h
          (empty-Common (tree es1) (tree es2))
          (λ q z.
            let p = >>=-eq-some (intersect_into bisect es1 nil es2) _ q in
            subst (Common (tree es1) (tree es2)) (some_inj p.2) (
              trees es1 es2 p.0 da p.1
                (λ n e₁ e₂ f₁ f₂. common_into es2 es1 nil p.0 n e₁ e₂ da db p.1 refl f₁ f₂)
                (or-eq-false (is_empty (tree es1)) (is_empty (tree es2)) z)))

    common_into :
        (es2 es1 out res : Entries) (n : Text) (e₁ e₂ : Mode × Obj)
        → Distincts es1
        → Distincts es2
        → intersect_into bisect es1 out es2 ≡ some res
        → find out n ≡ none
        → find es1 n ≡ some e₁
        → find es2 n ≡ some e₂
        → Kept res n e₁ e₂
    common_into nil es1 out res n e₁ e₂ d1 d2 h f f₁ f₂ = absurd (cc)
    common_into (entry m2 k o2 es2) es1 out res n e₁ e₂ d1 d2 h f f₁ f₂ =
        choose es1 out res m2 k o2 es2 n e₁ e₂ d1 d2.0 h f f₁ f₂
          (λ a r da q. common o2 a r da d2.1 q)
          (λ out' f' q f₂'. common_into es2 es1 out' res n e₁ e₂ d1 d2.2 q f' f₁ f₂')

  pub intersect-leaves :
      (a b r : Obj)
      → Distinct a
      → Distinct b
      → intersect bisect a b ≡ some r
      → (ns : List Text) → leaf r ns ≡ (if covers b ns then leaf a ns else none)
  intersect-leaves a b r da db h ns = common b a r da db h ns
