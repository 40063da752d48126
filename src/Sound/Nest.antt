-- ===== src/Sound/Nest.antt =====
-- What `Prefix` builds, and what `Subdir` finds in it.
use josh.Base.{
  Bool, not, ◌&&◌, Option, none, some_inj, if-true, if-false, ◌>>=◌, >>=-eq-some, >>=-some,
  >>=-assoc, >>=-cong, zero, suc, true, false, Bool-cases, inl, inr, some, [], ◌∷◌, ◌++◌, ◌≡◌, ◌≢◌,
  refl, sym, ap, ap₂, ◌∙◌, Text, reverse, length, text_eq, text_eq_refl, text_eq→eq, arith,
}
use mathlib.Core.List.{reverse-reverse, reverse-cons}
use josh.FilePath.{FilePath, Component, normal, root_dir, cur_dir, parent_dir}
use josh.Filter.Op.{prefix}
use josh.Tree.Object.{
  Obj, blob, tree, absent, nil, entry, tree_mode, is_gone, empty_id, find, read_tree, tree_entries,
}
use josh.Tree.Order.{IsBisect, insert_in_order}
use josh.Tree.Insert.{
  component_bytes, replace_child, replace_in, drop_name, insert_oid, insert_reversed, write_child,
  has_nul,
}
use josh.Tree.Lookup.{look}
use josh.Tree.NoZero.{NoZero}
use josh.Apply.Run.{lift}
use josh.Apply.Eval.{Env, apply_op, apply_insert, found_tree}
use josh.Apply.Meaning.{run, run-eq}
use josh.Sound.Plain.{IsNormal}
use josh.Sound.Empty.{subtree_at-empty}
use josh.Sound.Moves.{
  names, below, nest, at, at-nil, at-look, at-empty, IsNormal-tail, IsNormal-head,
}

-- The tree below a name, if it can be written.
unfoldable pub put_below : Text → Obj → Option Obj
unfolding write_child
put_below n t = write_child n t tree_mode empty_id

-- `>>=` of Option, for a file that has the one of Run.
abbrev pub and_then : Option Obj → (Obj → Option Obj) → Option Obj
and_then o f = o >>= f

unfoldable pub try_nest : FilePath → Obj → Option Obj
unfolding put_below
try_nest [] t = some t
try_nest (c ∷ p) t = try_nest p t >>= put_below (component_bytes c)

try_nest-snoc :
    (p : FilePath) (c : Component) (t : Obj)
    → try_nest (p ++ c ∷ []) t ≡ (put_below (component_bytes c) t >>= try_nest p)
unfolding try_nest
try_nest-snoc [] c t = sym (>>=-some (put_below (component_bytes c) t))
try_nest-snoc (d ∷ p) c t =
    ap (λ o. o >>= put_below (component_bytes d)) (try_nest-snoc p c t)
    ∙ >>=-assoc (put_below (component_bytes c) t) (try_nest p) (put_below (component_bytes d))

put_below-below : (n : Text) (t u : Obj) → put_below n t ≡ some u → u ≡ below n t
unfolding put_below below write_child
put_below-below n t u h = elim (Bool-cases (not (is_gone t) && has_nul n)) [
  | inl e ↦ absurd (none-some (sym (if-true (not (is_gone t) && has_nul n) _ _ e) ∙ h))
  | inr e ↦ some_inj (sym h ∙ if-false (not (is_gone t) && has_nul n) _ _ e)
]
  where
    none-some : none ≡ some u → ⊥
    none-some q = cc

-- Where it can be written, a tree is put below the names.
pub try_nest-nest : (p : FilePath) (t u : Obj) → try_nest p t ≡ some u → u ≡ nest p t
unfolding try_nest nest
try_nest-nest [] t u h = sym (some_inj h)
try_nest-nest (c ∷ p) t u h =
    let (v, e, e') = >>=-eq-some (try_nest p t) (put_below (component_bytes c)) h in
    put_below-below (component_bytes c) v u e'
    ∙ ap (below (component_bytes c)) (try_nest-nest p t v e)

-- No name has a NUL.
abbrev pub AreWritable : FilePath → Type 0
AreWritable [] = Unit
AreWritable (c ∷ p) = (has_nul (component_bytes c) ≡ false) × AreWritable p

pub try_nest-some : (p : FilePath) (t : Obj) → AreWritable p → try_nest p t ≡ some (nest p t)
unfolding try_nest nest put_below below write_child
try_nest-some [] t h = refl
try_nest-some (c ∷ p) t h =
    ap (λ o. o >>= put_below (component_bytes c)) (try_nest-some p t h.1)
    ∙ if-false (not (is_gone (nest p t)) && has_nul (component_bytes c)) _ _
        (ap (λ b. not (is_gone (nest p t)) && b) h.0 ∙ and-false (not (is_gone (nest p t))))
  where
    and-false : (b : Bool) → (b && false) ≡ false
    and-false true = refl
    and-false false = refl

below-gone : (n : Text) (t : Obj) → is_gone t ≡ true → below n t ≡ empty_id
unfolding below replace_child replace_in drop_name tree_entries
below-gone n t h = rw h

below-there : (n : Text) (t : Obj) → is_gone t ≡ false → below n t ≡ tree (entry tree_mode n t nil)
unfolding below replace_child replace_in find insert_in_order tree_entries
below-there n t h = rw h

gone-cases : (t : Obj) → NoZero t → is_gone t ≡ true → t ≡ empty_id
gone-cases (blob b) h e = absurd (cc)
gone-cases (tree nil) h e = refl
gone-cases (tree (entry m k o es)) h e = absurd (cc)
gone-cases (absent zero) h e = elim h [ ]
gone-cases (absent (suc i)) h e = absurd (cc)

module _ (env : Env) (is_bisect : IsBisect env.bisect) where
  inserted-nest :
      (c : Component) (p : FilePath) (t : Obj)
      → IsNormal (c ∷ p)
      → insert_reversed env.bisect empty_id (c ∷ p) t tree_mode ≡ try_nest (reverse (c ∷ p)) t
  unfolding insert_reversed try_nest put_below
  inserted-nest c [] t h = refl
  inserted-nest (normal n) (d ∷ p) t h =
      ap
        (λ s. write_child n t tree_mode s >>= λ sub.
          insert_reversed env.bisect empty_id (d ∷ p) sub tree_mode)
        (subtree_at-empty env.bisect is_bisect (reverse (d ∷ p)))
      ∙ >>=-cong (put_below n t) (λ sub. inserted-nest d p sub h)
      ∙ sym (
          ap (λ q. try_nest q t) (reverse-cons (normal n) (d ∷ p))
          ∙ try_nest-snoc (reverse (d ∷ p)) (normal n) t)
  inserted-nest root_dir (d ∷ p) t h = elim h [ ]
  inserted-nest cur_dir (d ∷ p) t h = elim h [ ]
  inserted-nest parent_dir (d ∷ p) t h = elim h [ ]

IsNormal-append : (p q : FilePath) → IsNormal p → IsNormal q → IsNormal (p ++ q)
IsNormal-append [] q h k = k
IsNormal-append (normal s ∷ p) q h k = IsNormal-append p q h k
IsNormal-append (root_dir ∷ p) q h k = elim h [ ]
IsNormal-append (cur_dir ∷ p) q h k = elim h [ ]
IsNormal-append (parent_dir ∷ p) q h k = elim h [ ]

IsNormal-reverse : (p : FilePath) → IsNormal p → IsNormal (reverse p)
IsNormal-reverse [] h = tt
IsNormal-reverse (c ∷ p) h = rw (reverse-cons c p) (
    IsNormal-append (reverse p) (c ∷ []) (IsNormal-reverse p (IsNormal-tail c p h))
      (IsNormal-head c p h))

module _ (env : Env) (is_bisect : IsBisect env.bisect) where
  inserted-reverse :
      (p : FilePath) (q : FilePath) (t : Obj)
      → q ≡ reverse p
      → q ≢ []
      → IsNormal q
      → insert_reversed env.bisect empty_id q t tree_mode ≡ try_nest p t
  inserted-reverse p [] t e ne h = absurd (ne refl)
  inserted-reverse p (c ∷ q) t e ne h =
      inserted-nest env is_bisect c q t h
      ∙ ap (λ r. try_nest r t) (ap reverse e ∙ reverse-reverse p)

  pub run-prefix :
      (p : FilePath) (t : Obj) → p ≢ [] → IsNormal p → run env (prefix p) t ≡ lift (try_nest p t)
  unfolding apply_op apply_insert insert_oid
  run-prefix p t ne h =
      run-eq env (prefix p) t
      ∙ ap lift (
          inserted-reverse p (reverse p) t refl (λ e. ne (sym (reverse-reverse p) ∙ ap reverse e))
            (IsNormal-reverse p h))

below-NoZero : (n : Text) (t : Obj) → NoZero t → NoZero (below n t)
below-NoZero n t h = elim (Bool-cases (is_gone t)) [
  | inl e ↦ rw (below-gone n t e) tt
  | inr e ↦ rw (below-there n t e) (h, tt)
]

pub nest-NoZero : (p : FilePath) (t : Obj) → NoZero t → NoZero (nest p t)
unfolding nest
nest-NoZero [] t h = h
nest-NoZero (c ∷ p) t h = below-NoZero (component_bytes c) (nest p t) (nest-NoZero p t h)

module _ (env : Env) where
  one_below : Text → Text → Obj → Obj
  one_below m n t = found_tree env (look (read_tree (below n t)) m)

  one_below-same : (n : Text) (t : Obj) → NoZero t → one_below n n t ≡ t
  unfolding one_below read_tree find
  one_below-same n t h = elim (Bool-cases (is_gone t)) [
    | inl e ↦ rw (below-gone n t e) (sym (gone-cases t h e))
    | inr e ↦ rw (below-there n t e, text_eq_refl n) refl
  ]

  one_below-other : (m n : Text) (t : Obj) → text_eq n m ≡ false → one_below m n t ≡ empty_id
  unfolding one_below read_tree find
  one_below-other m n t h = elim (Bool-cases (is_gone t)) [
    | inl e ↦ rw (below-gone n t e) refl
    | inr e ↦ rw (below-there n t e, h) refl
  ]

  -- What was put at a path is found there.
  pub at-nest : (p : FilePath) (t : Obj) → NoZero t → at env (names p) (nest p t) ≡ t
  unfolding nest one_below
  at-nest [] t h = at-nil env t
  at-nest (c ∷ p) t h =
      at-look env (component_bytes c) (names p) (below (component_bytes c) (nest p t))
      ∙ ap (at env (names p)) (one_below-same (component_bytes c) (nest p t) (nest-NoZero p t h))
      ∙ at-nest p t h

  -- At another path of that length there is nothing.
  pub at-nest-other :
      (p q : FilePath) (t : Obj)
      → IsNormal p
      → IsNormal q
      → length p ≡ length q
      → p ≢ q
      → NoZero t
      → at env (names q) (nest p t) ≡ empty_id
  unfolding nest one_below
  at-nest-other [] [] t hp hq l ne h = absurd (ne refl)
  at-nest-other [] (d ∷ q) t hp hq l ne h = absurd (cc)
  at-nest-other (c ∷ p) [] t hp hq l ne h = absurd (cc)
  at-nest-other (normal m ∷ p) (normal n ∷ q) t hp hq l ne h =
      at-look env n (names q) (below m (nest p t)) ∙ elim (Bool-cases (text_eq m n)) [
        | inl e ↦
            ap (at env (names q)) (
              ap (λ k. one_below n k (nest p t)) (text_eq→eq m n e)
              ∙ one_below-same n (nest p t) (nest-NoZero p t h))
            ∙ at-nest-other p q t hp hq (omega (arith, l))
                (λ k. ne (ap₂ (λ a b. normal a ∷ b) (text_eq→eq m n e) k)) h
        | inr e ↦ ap (at env (names q)) (one_below-other n m (nest p t) e) ∙ at-empty env (names q)
      ]
  at-nest-other (normal m ∷ p) (root_dir ∷ q) t hp hq l ne h = elim hq [ ]
  at-nest-other (normal m ∷ p) (cur_dir ∷ q) t hp hq l ne h = elim hq [ ]
  at-nest-other (normal m ∷ p) (parent_dir ∷ q) t hp hq l ne h = elim hq [ ]
  at-nest-other (root_dir ∷ p) (d ∷ q) t hp hq l ne h = elim hp [ ]
  at-nest-other (cur_dir ∷ p) (d ∷ q) t hp hq l ne h = elim hp [ ]
  at-nest-other (parent_dir ∷ p) (d ∷ q) t hp hq l ne h = elim hp [ ]
