-- ===== src/Tree/Leaves/Common/Cases.antt =====
-- `intersect` where one of its tests decides, and what becomes of one entry.
use josh.Base.{
  Bool, true, false, ◌||◌, Bool-cases, inl, inr, Option, none, some, some_inj, List, [], ◌∷◌, ◌≡◌,
  refl, sym, ap, ◌∙◌, subst, Text, text_eq, text_eq_refl, if◌then◌else◌, if-true, if-false,
  is_yes→eq,
}
use josh.Tree.Object.{
  Mode, Obj, Obj-discrete, Entries, blob, tree, nil, entry, obj_eq, is_empty, is_gone, empty_id,
  find,
}
use josh.Tree.Order.{insert_in_order, all_after}
use josh.Tree.Subtract.{mod_for}
use josh.Tree.Leaves.{entry_object, leaf_of, leaf, hit_of, covers, covers-leaf}
use josh.Tree.Leaves.Minus.Cases.{if-none, leaf-empty, is_empty-eq, leaf-mod_for, if-none-false}

-- The leaves of `r` are those of `a` that `b` covers.
abbrev pub Common : Obj → Obj → Obj → Type 0
Common a b r = (ns : List Text) → leaf r ns ≡ (if covers b ns then leaf a ns else none)

pub find-insert_in_order-other :
    (es : Entries) (m : Mode) (k : Text) (o : Obj) (n : Text)
    → text_eq k n ≡ false
    → find (insert_in_order es m k o) n ≡ find es n
unfolding find insert_in_order
find-insert_in_order-other nil m k o n e = if-false (text_eq k n) _ _ e
find-insert_in_order-other (entry m' k' o' es) m k o n e =
    elim (Bool-cases (all_after (entry m' k' o' es) m k)) [
      | inl a ↦ rw a (if-false (text_eq k n) _ _ e)
      | inr a ↦ rw a (
          ap (λ x. if text_eq k' n then some (m', o') else x)
            (find-insert_in_order-other es m k o n e))
    ]

pub find-insert_in_order-same :
    (es : Entries) (m : Mode) (k : Text) (o : Obj)
    → find es k ≡ none
    → find (insert_in_order es m k o) k ≡ some (m, o)
unfolding find insert_in_order
find-insert_in_order-same nil m k o f = if-true (text_eq k k) _ _ (text_eq_refl k)
find-insert_in_order-same (entry m' k' o' es) m k o f =
    let no = if-none-false (text_eq k' k) (m', o') (find es k) f in
    elim (Bool-cases (all_after (entry m' k' o' es) m k)) [
      | inl a ↦ rw a (if-true (text_eq k k) _ _ (text_eq_refl k))
      | inr a ↦ rw a (
          if-false (text_eq k' k) _ _ no
          ∙ find-insert_in_order-same es m k o (sym (if-false (text_eq k' k) _ _ no) ∙ f))
    ]

pub Common-same : (a : Obj) → Common a a a
Common-same a ns = elim (Bool-cases (covers a ns)) [
  | inl h ↦ sym (if-true (covers a ns) _ _ h)
  | inr h ↦ covers-leaf a ns h ∙ sym (if-false (covers a ns) (leaf a ns) none h)
]

pub Common-nothing : (b : Obj) → Common empty_id b empty_id
Common-nothing b ns =
    leaf-empty ns
    ∙ sym (ap (λ x. if covers b ns then x else none) (leaf-empty ns) ∙ if-none (covers b ns))

pub Common-none : (a : Obj) → Common a empty_id empty_id
unfolding covers find
Common-none a [] = leaf-empty []
Common-none a (n ∷ ns) = leaf-empty (n ∷ ns)

pub Common-blob : (a : Obj) (b : Text) → Common a (blob b) a
unfolding covers
Common-blob a b [] = refl
Common-blob a b (n ∷ ns) = refl

pub Common-kinds :
    (b : Text) (es : Entries) → is_empty (tree es) ≡ false → Common (blob b) (tree es) (blob b)
unfolding covers leaf
Common-kinds b nil h ns = absurd (cc)
Common-kinds b (entry m k o es) h [] = refl
Common-kinds b (entry m k o es) h (n ∷ ns) = sym (if-none _)

pub or-eq-false : (a b : Bool) → (a || b) ≡ false → b ≡ false
or-eq-false true b h = absurd (cc)
or-eq-false false b h = h

pub empty-Common : (a b : Obj) → (is_empty a || is_empty b) ≡ true → Common a b empty_id
empty-Common a b h = elim (Bool-cases (is_empty a)) [
  | inl z ↦ subst (λ x. Common x b empty_id) (sym (is_empty-eq a z)) (Common-nothing b)
  | inr z ↦
      subst (λ x. Common a x empty_id) (sym (is_empty-eq b (sym (ap (λ x. x || is_empty b) z) ∙ h)))
        (Common-none a)
]

pub empty_first : (a : Obj) (b : Obj) → is_empty a ≡ true → Common a b empty_id
empty_first a b z = subst (λ x. Common x b empty_id) (sym (is_empty-eq a z)) (Common-nothing b)

-- The first tests of `intersect`.
pub guarded :
    (a b r : Obj) (w : Bool) (rest : Option Obj)
    → (if obj_eq a b then some a else (if w then some empty_id else rest)) ≡ some r
    → (w ≡ true → Common a b empty_id)
    → (rest ≡ some r → w ≡ false → Common a b r)
    → Common a b r
guarded a b r w rest h z k = elim (Bool-cases (obj_eq a b)) [
  | inl e ↦
      subst (Common a b) (some_inj (sym (if-true (obj_eq a b) _ _ e) ∙ h))
        (subst (λ x. Common a x a) (is_yes→eq (Obj-discrete a b) e) (Common-same a))
  | inr e ↦ by_empty w (sym (if-false (obj_eq a b) _ _ e) ∙ h) z k
]
  where
    by_empty :
        (w : Bool)
        → (if w then some empty_id else rest) ≡ some r
        → (w ≡ true → Common a b empty_id)
        → (rest ≡ some r → w ≡ false → Common a b r)
        → Common a b r
    by_empty true q z k = subst (Common a b) (some_inj q) (z refl)
    by_empty false q z k = k q refl

-- The entry that is kept for a name that both trees have.
abbrev pub Kept : Entries → Text → Mode × Obj → Mode × Obj → Type 0
Kept out n e₁ e₂ = (c : Obj) × (entry_object (find out n) ≡ mod_for c) × Common e₁.1 e₂.1 c

abbrev pub put_kept : Entries → Mode → Text → Obj → Entries
put_kept out m k c = if is_gone c then out else insert_in_order out m k c

pub find-put_kept-other :
    (out : Entries) (m : Mode) (k : Text) (c : Obj) (n : Text)
    → text_eq k n ≡ false
    → find (put_kept out m k c) n ≡ find out n
find-put_kept-other out m k c n e = elim (Bool-cases (is_gone c)) [
  | inl g ↦ ap (λ x. find x n) (if-true (is_gone c) out (insert_in_order out m k c) g)
  | inr g ↦
      ap (λ x. find x n) (if-false (is_gone c) out (insert_in_order out m k c) g)
      ∙ find-insert_in_order-other out m k c n e
]

pub find-put_kept-same :
    (out : Entries) (m : Mode) (k : Text) (c : Obj)
    → find out k ≡ none
    → entry_object (find (put_kept out m k c) k) ≡ mod_for c
find-put_kept-same out m k c f = elim (Bool-cases (is_gone c)) [
  | inl g ↦
      ap (λ x. entry_object (find x k)) (if-true (is_gone c) out (insert_in_order out m k c) g)
      ∙ ap entry_object f
      ∙ sym (if-true (is_gone c) none (some c) g)
  | inr g ↦
      ap (λ x. entry_object (find x k)) (if-false (is_gone c) out (insert_in_order out m k c) g)
      ∙ ap entry_object (find-insert_in_order-same out m k c f)
      ∙ sym (if-false (is_gone c) none (some c) g)
]

pub combine :
    (x₁ x₂ : Option (Mode × Obj)) (xr : Option Obj) (ns : List Text)
    → (x₁ ≡ none → xr ≡ none)
    → (x₂ ≡ none → xr ≡ none)
    → ((e₁ e₂ : Mode × Obj)
        → x₁ ≡ some e₁
        → x₂ ≡ some e₂
        → (c : Obj) × (xr ≡ mod_for c) × Common e₁.1 e₂.1 c)
    → leaf_of xr (λ c. leaf c ns) ≡ (
        if hit_of (entry_object x₂) (λ c. covers c ns)
        then leaf_of (entry_object x₁) (λ c. leaf c ns)
        else none)
combine none x₂ xr ns h₁ h₂ k = ap (λ y. leaf_of y (λ c. leaf c ns)) (h₁ refl) ∙ sym (if-none _)
combine (some e₁) none xr ns h₁ h₂ k = ap (λ y. leaf_of y (λ c. leaf c ns)) (h₂ refl)
combine (some e₁) (some e₂) xr ns h₁ h₂ k =
    let w = k e₁ e₂ refl refl in
    ap (λ y. leaf_of y (λ c. leaf c ns)) w.1 ∙ leaf-mod_for w.0 ns ∙ w.2 ns
