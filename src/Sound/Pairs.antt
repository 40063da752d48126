-- ===== src/Sound/Pairs.antt =====
-- Two moves side by side in a chain.
use josh.Base.{
  ℕ, Bool, true, false, ◌==◌, [], ◌∷◌, ◌≡◌, ◌≢◌, refl, sym, ap, ◌∙◌, length, is_yes, is_yes→eq,
  if◌then◌else◌, arith,
}
use josh.FilePath.{FilePath, Component, FilePath-discrete}
use josh.Filter.Op.{Filter, prefix, subdir}
use josh.Opt.Step.{cancels, empties, plain, pair_kind}
use josh.Tree.Object.{Obj, empty_id}
use josh.Tree.Order.{IsBisect}
use josh.Tree.NoZero.{NoZero}
use josh.Apply.Run.{ok, ok_inj, lift-eq-ok}
use josh.Apply.Eval.{Env, apply_op, apply_insert}
use josh.Tree.Insert.{insert_oid, insert_reversed}
use josh.Apply.Meaning.{run, run-eq}
use josh.Sound.Plain.{IsPlain, IsNormal, IsMove}
use josh.Sound.Moves.{names, nest, at, run-subdir, apply_subdir-at}
use josh.Sound.Nest.{run-prefix, try_nest-nest, at-nest, at-nest-other}

choice-cancels :
    (s l : Bool) → (if s then cancels else (if l then empties else plain)) ≡ cancels → s ≡ true
choice-cancels true l h = refl
choice-cancels false true h = absurd (cc)
choice-cancels false false h = absurd (cc)

choice-empties :
    (s l : Bool)
    → (if s then cancels else (if l then empties else plain)) ≡ empties
    → (s ≡ false) × (l ≡ true)
choice-empties true l h = absurd (cc)
choice-empties false true h = (refl, refl)
choice-empties false false h = absurd (cc)

==→eq : (m n : ℕ) → (m == n) ≡ true → m ≡ n
==→eq m n h = ground arith

is_yes-ne {ℓ} : {P : Type ℓ} (d : Dec P) → is_yes d ≡ false → ¬ P
is_yes-ne (yes p) h = absurd (cc)
is_yes-ne (no n) h = n

cons-nil : (c : Component) (p : FilePath) → (c ∷ p) ≢ []
cons-nil c p e = cc

nonempty : (a b : FilePath) → length a ≡ length b → a ≢ [] → b ≢ []
nonempty [] b l h e = h refl
nonempty (c ∷ a) [] l h e = absurd (cc)
nonempty (c ∷ a) (d ∷ b) l h e = cc

IsMove-IsNormal : (p : FilePath) → IsMove p → IsNormal p
IsMove-IsNormal [] h = absurd h
IsMove-IsNormal (c ∷ p) h = h

module _ (env : Env) (is_bisect : IsBisect env.bisect) where
  -- A move below a path that has a result.
  moved :
      (a : FilePath) (t u : Obj)
      → IsNormal a
      → run env (prefix a) t ≡ ok u
      → (a ≢ []) × (u ≡ nest a t)
  unfolding apply_op apply_insert insert_oid insert_reversed
  moved [] t u h e = let none_there = sym (run-eq env (prefix []) t) ∙ e in absurd (cc)
  moved (c ∷ a) t u h e = (
    cons-nil c a,
    try_nest-nest (c ∷ a) t u
        (lift-eq-ok _ (sym (run-prefix env is_bisect (c ∷ a) t (cons-nil c a) h) ∙ e)),
  )

  taken :
      (b : FilePath) (t u : Obj)
      → IsNormal b
      → b ≢ []
      → run env (subdir b) t ≡ ok u
      → u ≡ at env (names b) t
  taken [] t u h ne e = absurd (ne refl)
  taken (c ∷ b) t u h ne e = ok_inj (sym e ∙ run-subdir env (c ∷ b) t) ∙ apply_subdir-at env c b t h

  -- A move up and down the same path gives the tree back.
  pub pair_cancels :
      (f g : Filter) (t u r : Obj)
      → IsPlain f
      → IsPlain g
      → NoZero t
      → pair_kind f g ≡ cancels
      → run env f t ≡ ok u
      → run env g u ≡ ok r
      → r ≡ t
  unfolding pair_kind
  pair_cancels (prefix a) (subdir b) t u r hf hg ht k e₁ e₂ =
      let same = choice-cancels (is_yes (FilePath-discrete a b)) (length a == length b) k in
      let eq : a ≡ b = is_yes→eq (FilePath-discrete a b) same in
      let m = moved a t u (IsMove-IsNormal a hf) e₁ in
      taken a u r (IsMove-IsNormal a hf) m.0 (ap (λ p. run env (subdir p) u) eq ∙ e₂)
      ∙ ap (at env (names a)) m.1
      ∙ at-nest env a t ht
  pair_cancels f g t u r hf hg ht k e₁ e₂ = absurd (cc)

  -- A move down and one up another path of that length leave nothing.
  pub pair_empties :
      (f g : Filter) (t u r : Obj)
      → IsPlain f
      → IsPlain g
      → NoZero t
      → pair_kind f g ≡ empties
      → run env f t ≡ ok u
      → run env g u ≡ ok r
      → r ≡ empty_id
  unfolding pair_kind
  pair_empties (prefix a) (subdir b) t u r hf hg ht k e₁ e₂ =
      let w = choice-empties (is_yes (FilePath-discrete a b)) (length a == length b) k in
      let l : length a ≡ length b = ==→eq (length a) (length b) w.1 in
      let m = moved a t u (IsMove-IsNormal a hf) e₁ in
      taken b u r (IsMove-IsNormal b hg) (nonempty a b l m.0) e₂
      ∙ ap (at env (names b)) m.1
      ∙ at-nest-other env a b t (IsMove-IsNormal a hf) (IsMove-IsNormal b hg) l
          (is_yes-ne (FilePath-discrete a b) w.0) ht
  pair_empties f g t u r hf hg ht k e₁ e₂ = absurd (cc)
