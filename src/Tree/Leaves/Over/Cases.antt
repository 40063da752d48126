-- ===== src/Tree/Leaves/Over/Cases.antt =====
-- `overlay` where one of its tests decides, and what becomes of one entry.
use josh.Base.{
  Bool, true, false, Bool-cases, inl, inr, Option, none, some, some_inj, List, [], ◌∷◌, ◌≡◌, refl,
  sym, ap, ◌∙◌, subst, Text, text_eq, text_eq→eq, if◌then◌else◌, if-true, if-false, is_yes→eq,
}
use josh.Tree.Object.{
  Mode, Obj, Obj-discrete, Entries, blob, tree, nil, entry, obj_eq, is_empty, empty_id, find,
}
use josh.Tree.Order.{insert_in_order}
use josh.Tree.Overlay.{Ids, id_of, put_id, apply_ids, insert_all}
use josh.Tree.Leaves.{entry_object, leaf_of, leaf, hit_of, covers, covers-leaf}
use josh.Tree.Leaves.Minus.Cases.{leaf-empty, is_empty-eq, if-none-false}
use josh.Tree.Leaves.Common.Cases.{find-insert_in_order-other, find-insert_in_order-same}

-- The leaves of `r` are those of `a`, and those of `b` that `a` does not cover.
abbrev pub Over : Obj → Obj → Obj → Type 0
Over a b r = (ns : List Text) → leaf r ns ≡ (if covers a ns then leaf a ns else leaf b ns)

pub if-same : (b : Bool) (x : Option Text) → (if b then x else x) ≡ x
if-same true x = refl
if-same false x = refl

pub Over-same : (a : Obj) → Over a a a
Over-same a ns = sym (if-same (covers a ns) (leaf a ns))

pub Over-empty : (b : Obj) → Over empty_id b b
unfolding covers find
Over-empty b [] = refl
Over-empty b (n ∷ ns) = refl

pub Over-nothing : (a : Obj) → Over a empty_id a
Over-nothing a ns = elim (Bool-cases (covers a ns)) [
  | inl h ↦ sym (if-true (covers a ns) _ _ h)
  | inr h ↦ covers-leaf a ns h ∙ sym (leaf-empty ns) ∙ sym (if-false (covers a ns) (leaf a ns) _ h)
]

pub Over-blob : (c : Text) (b : Obj) → Over (blob c) b (blob c)
unfolding covers
Over-blob c b [] = refl
Over-blob c b (n ∷ ns) = refl

pub Over-kinds :
    (es : Entries) (c : Text) → is_empty (tree es) ≡ false → Over (tree es) (blob c) (tree es)
unfolding covers leaf
Over-kinds nil c h ns = absurd (cc)
Over-kinds (entry m k o es) c h [] = refl
Over-kinds (entry m k o es) c h (n ∷ ns) =
    elim (Bool-cases (covers (tree (entry m k o es)) (n ∷ ns))) [
      | inl e ↦ sym (if-true (covers (tree (entry m k o es)) (n ∷ ns)) _ _ e)
      | inr e ↦
          covers-leaf (tree (entry m k o es)) (n ∷ ns) e
          ∙ sym (if-false (covers (tree (entry m k o es)) (n ∷ ns)) _ _ e)
    ]

-- The first tests of `overlay`.
pub guarded :
    (a b r : Obj) (rest : Option Obj)
    → (if obj_eq a b then some a else (if is_empty a then some b else rest)) ≡ some r
    → (rest ≡ some r → is_empty a ≡ false → Over a b r)
    → Over a b r
guarded a b r rest h k = elim (Bool-cases (obj_eq a b)) [
  | inl e ↦
      subst (Over a b) (some_inj (sym (if-true (obj_eq a b) _ _ e) ∙ h))
        (subst (λ x. Over a x a) (is_yes→eq (Obj-discrete a b) e) (Over-same a))
  | inr e ↦
      let h' = sym (if-false (obj_eq a b) _ _ e) ∙ h in
      elim (Bool-cases (is_empty a)) [
        | inl z ↦
            subst (Over a b) (some_inj (sym (if-true (is_empty a) _ _ z) ∙ h'))
              (subst (λ x. Over x b b) (sym (is_empty-eq a z)) (Over-empty b))
        | inr z ↦ k (sym (if-false (is_empty a) _ _ z) ∙ h') z
      ]
]

unfoldable pub put_over : Option (Mode × Obj) → Option Obj → Option Obj
put_over none x = none
put_over (some e) x = some (put_id x e.1)

pub child-apply_ids :
    (es : Entries) (ids : Ids) (n : Text)
    → entry_object (find (apply_ids ids es) n) ≡ put_over (find es n) (id_of ids n)
unfolding find apply_ids put_over
child-apply_ids nil ids n = refl
child-apply_ids (entry m k o es) ids n = elim (Bool-cases (text_eq k n)) [
  | inl e ↦
      ap entry_object (if-true (text_eq k n) _ _ e)
      ∙ ap (λ x. some (put_id (id_of ids x) o)) (text_eq→eq k n e)
      ∙ sym (ap (λ x. put_over x (id_of ids n)) (if-true (text_eq k n) _ _ e))
  | inr e ↦
      ap entry_object (if-false (text_eq k n) _ _ e)
      ∙ child-apply_ids es ids n
      ∙ sym (ap (λ x. put_over x (id_of ids n)) (if-false (text_eq k n) _ _ e))
]

abbrev pub Unique : Entries → Type 0
Unique nil = Unit
Unique (entry m k o es) = (find es k ≡ none) × Unique es

pub insert_all-other :
    (new out : Entries) (n : Text) → find new n ≡ none → find (insert_all out new) n ≡ find out n
unfolding insert_all find
insert_all-other nil out n f = refl
insert_all-other (entry m k o new) out n f =
    let kn = if-none-false (text_eq k n) (m, o) (find new n) f in
    insert_all-other new (insert_in_order out m k o) n (sym (if-false (text_eq k n) _ _ kn) ∙ f)
    ∙ find-insert_in_order-other out m k o n kn

pub insert_all-new :
    (new out : Entries) (n : Text)
    → Unique new
    → find out n ≡ none
    → find (insert_all out new) n ≡ find new n
unfolding insert_all find
insert_all-new nil out n u f = f
insert_all-new (entry m k o new) out n u f = elim (Bool-cases (text_eq k n)) [
  | inl e ↦
      let kn = text_eq→eq k n e in
      insert_all-other new (insert_in_order out m k o) n (ap (find new) (sym kn) ∙ u.0)
      ∙ ap (find (insert_in_order out m k o)) (sym kn)
      ∙ find-insert_in_order-same out m k o (ap (find out) kn ∙ f)
      ∙ sym (if-true (text_eq k n) _ _ e)
  | inr e ↦
      insert_all-new new (insert_in_order out m k o) n u.1
        (find-insert_in_order-other out m k o n e ∙ f)
      ∙ sym (if-false (text_eq k n) _ _ e)
]

pub combine :
    (x₁ x₂ : Option (Mode × Obj)) (xr : Option Obj) (ns : List Text)
    → (x₁ ≡ none → xr ≡ entry_object x₂)
    → ((e₁ : Mode × Obj) → x₁ ≡ some e₁ → x₂ ≡ none → xr ≡ some e₁.1)
    → ((e₁ e₂ : Mode × Obj)
        → x₁ ≡ some e₁
        → x₂ ≡ some e₂
        → (c : Obj) × (xr ≡ some c) × Over e₁.1 e₂.1 c)
    → leaf_of xr (λ c. leaf c ns) ≡ (
        if hit_of (entry_object x₁) (λ c. covers c ns)
        then leaf_of (entry_object x₁) (λ c. leaf c ns)
        else leaf_of (entry_object x₂) (λ c. leaf c ns))
combine none x₂ xr ns h₁ h₂ k = ap (λ y. leaf_of y (λ c. leaf c ns)) (h₁ refl)
combine (some e₁) none xr ns h₁ h₂ k =
    ap (λ y. leaf_of y (λ c. leaf c ns)) (h₂ e₁ refl refl)
    ∙ Over-nothing e₁.1 ns
    ∙ ap (λ y. if covers e₁.1 ns then leaf e₁.1 ns else y) (leaf-empty ns)
combine (some e₁) (some e₂) xr ns h₁ h₂ k =
    let w = k e₁ e₂ refl refl in ap (λ y. leaf_of y (λ c. leaf c ns)) w.1 ∙ w.2 ns

pub entry_object-none : (x : Option (Mode × Obj)) → entry_object x ≡ none → x ≡ none
entry_object-none none h = refl
entry_object-none (some e) h = absurd (cc)

pub second_empty :
    (a b r : Obj) (rest : Option Obj)
    → (if is_empty b then some a else rest) ≡ some r
    → (rest ≡ some r → Over a b r)
    → Over a b r
second_empty a b r rest h k = elim (Bool-cases (is_empty b)) [
  | inl z ↦
      subst (Over a b) (some_inj (sym (if-true (is_empty b) _ _ z) ∙ h))
        (subst (λ x. Over a x a) (sym (is_empty-eq b z)) (Over-nothing a))
  | inr z ↦ k (sym (if-false (is_empty b) _ _ z) ∙ h)
]
