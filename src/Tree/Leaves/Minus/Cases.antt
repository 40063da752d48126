-- ===== src/Tree/Leaves/Minus/Cases.antt =====
-- `subtract` where one of its tests decides, and what becomes of one entry.
use josh.Base.{
  ℕ, zero, suc, Bool, true, false, Bool-cases, inl, inr, Option, none, some, some_inj, List, [],
  ◌∷◌, ◌≡◌, refl, sym, ap, ap₂, ◌∙◌, subst, Text, text_eq, text_eq→eq, if◌then◌else◌, if-true,
  if-false, is_yes→eq,
}
use josh.Tree.Object.{
  Mode, Obj, Obj-discrete, Entries, blob, tree, absent, nil, entry, obj_eq, is_empty, empty_id,
  find,
}
use josh.Tree.Subtract.{Mods, mod_of, mod_for, put_mod, apply_mods}
use josh.Tree.Leaves.{entry_object, leaf_of, leaf, hit_of, hit, hit-leaf, Distincts}

-- The leaves of `r` are those of `a` that `b` does not hit.
abbrev pub Minus : Obj → Obj → Obj → Type 0
Minus a b r = (ns : List Text) → leaf r ns ≡ (if hit b ns then none else leaf a ns)

pub if-none : (b : Bool) → if◌then◌else◌ {A = Option Text} b none none ≡ none
if-none true = refl
if-none false = refl

pub leaf-empty : (ns : List Text) → leaf empty_id ns ≡ none
unfolding leaf find
leaf-empty [] = refl
leaf-empty (n ∷ ns) = refl

pub is_empty-eq : (o : Obj) → is_empty o ≡ true → o ≡ empty_id
is_empty-eq (blob b) h = absurd (cc)
is_empty-eq (absent i) h = absurd (cc)
is_empty-eq (tree nil) h = refl
is_empty-eq (tree (entry m k o es)) h = absurd (cc)

-- The same tree leaves nothing, and what hits everywhere does not either.
pub Minus-same : (a : Obj) → Minus a a empty_id
Minus-same a ns = elim (Bool-cases (hit a ns)) [
  | inl h ↦ leaf-empty ns ∙ sym (if-true (hit a ns) none (leaf a ns) h)
  | inr h ↦ leaf-empty ns ∙ sym (if-false (hit a ns) none (leaf a ns) h ∙ hit-leaf a ns h)
]

pub Minus-nothing : (b : Obj) → Minus empty_id b empty_id
Minus-nothing b ns =
    leaf-empty ns
    ∙ sym (ap (λ x. if hit b ns then none else x) (leaf-empty ns) ∙ if-none (hit b ns))

pub Minus-all : (es : Entries) → Minus (tree es) empty_id (tree es)
unfolding hit leaf find
Minus-all es [] = refl
Minus-all es (n ∷ ns) = refl

pub Minus-blob : (a : Obj) (b : Text) → Minus a (blob b) empty_id
unfolding hit
Minus-blob a b [] = leaf-empty []
Minus-blob a b (n ∷ ns) = leaf-empty (n ∷ ns)

pub Minus-kinds : (b : Text) (es : Entries) → Minus (blob b) (tree es) empty_id
unfolding hit leaf
Minus-kinds b es [] = refl
Minus-kinds b es (n ∷ ns) = leaf-empty (n ∷ ns) ∙ sym (if-none _)

-- The first tests of `subtract`.
pub guarded :
    (a b r : Obj) (rest : Option Obj)
    → (if obj_eq a b then some empty_id else (if is_empty a then some empty_id else rest)) ≡ some r
    → (rest ≡ some r → Minus a b r)
    → Minus a b r
guarded a b r rest h k = elim (Bool-cases (obj_eq a b)) [
  | inl e ↦
      subst (Minus a b) (some_inj (sym (if-true (obj_eq a b) _ _ e) ∙ h))
        (subst (λ x. Minus a x empty_id) (is_yes→eq (Obj-discrete a b) e) (Minus-same a))
  | inr e ↦
      let h' = sym (if-false (obj_eq a b) _ _ e) ∙ h in
      elim (Bool-cases (is_empty a)) [
        | inl z ↦
            subst (Minus a b) (some_inj (sym (if-true (is_empty a) _ _ z) ∙ h'))
              (subst (λ x. Minus x b empty_id) (sym (is_empty-eq a z)) (Minus-nothing b))
        | inr z ↦ k (sym (if-false (is_empty a) _ _ z) ∙ h')
      ]
]

pub if-none-false :
    (b : Bool) (e : Mode × Obj) (y : Option (Mode × Obj))
    → (if b then some e else y) ≡ none
    → b ≡ false
if-none-false true e y q = absurd (cc)
if-none-false false e y q = refl

unfoldable pub put_at : Option (Mode × Obj) → Option (Option Obj) → Option Obj
put_at none x = none
put_at (some e) none = some e.1
put_at (some e) (some o) = o

pub find-put_mod-same :
    (x : Option (Option Obj)) (m : Mode) (k : Text) (o : Obj) (rest : Entries) (n : Text)
    → text_eq k n ≡ true
    → entry_object (find rest n) ≡ none
    → entry_object (find (put_mod x m k o rest) n) ≡ put_at (some (m, o)) x
unfolding find put_at
find-put_mod-same none m k o rest n e h = ap entry_object (if-true (text_eq k n) _ _ e)
find-put_mod-same (some none) m k o rest n e h = h
find-put_mod-same (some (some s)) m k o rest n e h = ap entry_object (if-true (text_eq k n) _ _ e)

pub find-put_mod-other :
    (x : Option (Option Obj)) (m : Mode) (k : Text) (o : Obj) (rest : Entries) (n : Text)
    → text_eq k n ≡ false
    → find (put_mod x m k o rest) n ≡ find rest n
unfolding find
find-put_mod-other none m k o rest n e = if-false (text_eq k n) _ _ e
find-put_mod-other (some none) m k o rest n e = refl
find-put_mod-other (some (some s)) m k o rest n e = if-false (text_eq k n) _ _ e

pub child-apply_mods :
    (es : Entries) (mods : Mods) (n : Text)
    → Distincts es
    → entry_object (find (apply_mods mods es) n) ≡ put_at (find es n) (mod_of mods n)
unfolding find apply_mods put_at
child-apply_mods nil mods n d = refl
child-apply_mods (entry m k o es) mods n d = elim (Bool-cases (text_eq k n)) [
  | inl e ↦
      let kn = text_eq→eq k n e in
      find-put_mod-same (mod_of mods k) m k o (apply_mods mods es) n e (
        child-apply_mods es mods n d.2
        ∙ ap (λ x. put_at x (mod_of mods n)) (ap (find es) (sym kn) ∙ d.0))
      ∙ ap₂ put_at (sym (if-true (text_eq k n) _ _ e)) (ap (mod_of mods) kn)
  | inr e ↦
      ap entry_object (find-put_mod-other (mod_of mods k) m k o (apply_mods mods es) n e)
      ∙ child-apply_mods es mods n d.2
      ∙ ap (λ x. put_at x (mod_of mods n)) (sym (if-false (text_eq k n) _ _ e))
]

pub leaf-absent : (i : ℕ) (ns : List Text) → leaf (absent i) ns ≡ none
unfolding leaf
leaf-absent i [] = refl
leaf-absent i (n ∷ ns) = refl

pub leaf-mod_for : (s : Obj) (ns : List Text) → leaf_of (mod_for s) (λ c. leaf c ns) ≡ leaf s ns
leaf-mod_for (blob b) ns = refl
leaf-mod_for (tree nil) ns = sym (leaf-empty ns)
leaf-mod_for (tree (entry m k o es)) ns = refl
leaf-mod_for (absent zero) ns = sym (leaf-absent zero ns)
leaf-mod_for (absent (suc i)) ns = refl

-- What the modifications say of one name gives what the result has below it.
pub combine :
    (x₁ x₂ : Option (Mode × Obj)) (m : Option (Option Obj)) (ns : List Text)
    → (x₂ ≡ none → m ≡ none)
    → ((e₁ e₂ : Mode × Obj)
        → x₁ ≡ some e₁
        → x₂ ≡ some e₂
        → (s : Obj) × (m ≡ some (mod_for s)) × Minus e₁.1 e₂.1 s)
    → leaf_of (put_at x₁ m) (λ c. leaf c ns) ≡ (
        if hit_of (entry_object x₂) (λ c. hit c ns)
        then none
        else leaf_of (entry_object x₁) (λ c. leaf c ns))
unfolding put_at
combine none x₂ m ns h k = sym (if-none _)
combine (some e₁) none m ns h k = ap (λ y. leaf_of (put_at (some e₁) y) (λ c. leaf c ns)) (h refl)
combine (some e₁) (some e₂) m ns h k =
    let w = k e₁ e₂ refl refl in
    ap (λ y. leaf_of (put_at (some e₁) y) (λ c. leaf c ns)) w.1 ∙ leaf-mod_for w.0 ns ∙ w.2 ns

-- The modification of a name that both trees have.
abbrev pub Modified : Mods → Text → Mode × Obj → Mode × Obj → Type 0
Modified mods n e₁ e₂ = (s : Obj) × (mod_of mods n ≡ some (mod_for s)) × Minus e₁.1 e₂.1 s
