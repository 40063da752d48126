-- ===== src/Apply/Modelled.antt =====
-- The filters whose evaluation is modelled: what `env.other` does is of no importance to them.
use josh.Base.{
  ℕ, zero, suc, Bool, true, none, some, List, [], ◌∷◌, ◌≡◌, refl, All?, All?-bind, All?-elim,
}
use josh.Filter.Op.{
  Filter, Filters, meta, paths, adapt, link, unlink, regex_replace, index, invert as invert_op,
  workspace, stored, starlark, pattern, unapply, tree_id, compose, chain, subtract, exclude, select,
  nil, cons,
}
use josh.Filter.Height.{height}
use josh.Opt.Invert.{invert, invert_rev, invert_each, append_filters}
use josh.Tree.Object.{Obj}
use josh.Tree.Subtract as Subtract
use josh.Tree.Overlay.{overlay}
use josh.Apply.Run.{Run, lift}
use josh.Apply.Eval.{Env, apply_seq, apply_each, compose_trees, apply_op, apply}
use josh.Apply.Fuel.{bind_cong, lift_cong}
use josh.Apply.Meaning.{run}

-- Not in the filter nor in its operations: Paths, Adapt, Link, Unlink, RegexReplace, Index, Invert,
-- Workspace, Stored, Starlark, Pattern and Unapply; nor Meta, unless `metas` is true.
abbrev mutual
  pub IsKnown : Bool → Filter → Type 0
  IsKnown metas (meta m f) = (metas ≡ true) × IsKnown metas f
  IsKnown metas paths = ⊥
  IsKnown metas (adapt s) = ⊥
  IsKnown metas (link m) = ⊥
  IsKnown metas unlink = ⊥
  IsKnown metas (regex_replace r) = ⊥
  IsKnown metas index = ⊥
  IsKnown metas invert_op = ⊥
  IsKnown metas (workspace p) = ⊥
  IsKnown metas (stored p) = ⊥
  IsKnown metas (starlark p f) = ⊥
  IsKnown metas (pattern s) = ⊥
  IsKnown metas (unapply r f) = ⊥
  IsKnown metas (tree_id p f) = IsKnown metas f
  IsKnown metas (compose fs) = AreKnown metas fs
  IsKnown metas (chain fs) = AreKnown metas fs
  IsKnown metas (subtract a b) = IsKnown metas a × IsKnown metas b
  IsKnown metas (exclude f) = IsKnown metas f
  IsKnown metas (select f) = IsKnown metas f
  IsKnown metas _ = Unit

  pub AreKnown : Bool → Filters → Type 0
  AreKnown metas nil = Unit
  AreKnown metas (cons f fs) = IsKnown metas f × AreKnown metas fs

module _ (metas : Bool) where
  AreKnown-append :
      (fs gs : Filters)
      → AreKnown metas fs
      → AreKnown metas gs
      → AreKnown metas (append_filters fs gs)
  unfolding append_filters
  AreKnown-append nil gs h k = k
  AreKnown-append (cons f fs) gs h k = (h.0, AreKnown-append fs gs h.1 k)

  mutual
    unfolding invert

    invert-Known : (f : Filter) → IsKnown metas f → All? (IsKnown metas) (invert f)
    invert-Known (meta m f) h = All?-bind _ _ (invert f) _ (invert-Known f h.1) (λ g k. (h.0, k))
    invert-Known (link m) h = absurd h
    invert-Known (pattern s) h = absurd h
    invert-Known (regex_replace r) h = absurd h
    invert-Known (chain fs) h = All?-bind _ _ (invert_rev fs) _ (rev-Known fs h) (λ g k. k)
    invert-Known (compose fs) h = All?-bind _ _ (invert_each fs) _ (each-Known fs h) (λ g k. k)
    invert-Known (exclude f) h = All?-bind _ _ (invert f) _ (invert-Known f h) (λ g k. k)
    invert-Known (select f) h = All?-bind _ _ (invert f) _ (invert-Known f h) (λ g k. k)
    invert-Known _ h = tt

    rev-Known : (fs : Filters) → AreKnown metas fs → All? (AreKnown metas) (invert_rev fs)
    rev-Known nil h = tt
    rev-Known (cons f fs) h = All?-bind _ _ (invert_rev fs) _ (rev-Known fs h.1) (λ gs ks.
        All?-bind _ _ (invert f) _ (invert-Known f h.0)
          (λ g k. AreKnown-append gs (cons g nil) ks (k, tt)))

    each-Known : (fs : Filters) → AreKnown metas fs → All? (AreKnown metas) (invert_each fs)
    each-Known nil h = tt
    each-Known (cons f fs) h =
        All?-bind _ _ (invert f) _ (invert-Known f h.0)
          (λ g k. All?-bind _ _ (invert_each fs) _ (each-Known fs h.1) (λ gs ks. (k, ks)))

  invert-IsKnown : (f : Filter) {g : Filter} → IsKnown metas f → invert f ≡ some g → IsKnown metas g
  invert-IsKnown f h e = All?-elim (IsKnown metas) (invert f) (invert-Known f h) e

-- The filters that are not modelled all fail.
abbrev pub closed : Env → Env
closed env = record {
  bisect = env.bisect;
  object = env.object;
  hex = env.hex;
  parse_id = env.parse_id;
  other = λ f t. none;
}

module _ (env : Env) (metas : Bool) {r s : Filter → Obj → Run Obj}
    (agree : (g : Filter) (u : Obj) → IsKnown metas g → r g u ≡ s g u) where
  seq-closed :
      (fs : Filters) (t : Obj)
      → AreKnown metas fs
      → apply_seq env r fs t ≡ apply_seq (closed env) s fs t
  unfolding apply_seq
  seq-closed nil t h = refl
  seq-closed (cons f fs) t h = bind_cong _ _ (agree f t h.0) (λ u. seq-closed fs u h.1)

  each-closed :
      (fs : Filters) (t : Obj)
      → AreKnown metas fs
      → apply_each env r fs t ≡ apply_each (closed env) s fs t
  unfolding apply_each
  each-closed nil t h = refl
  each-closed (cons f fs) t h =
      bind_cong _ _ (agree f t h.0) (λ u. bind_cong _ _ (each-closed fs t h.1) (λ us. refl))

  compose-closed :
      (fs : Filters) (result taken : Obj) (us : List Obj)
      → AreKnown metas fs
      → compose_trees env r result taken fs us ≡ compose_trees (closed env) s result taken fs us
  unfolding compose_trees
  compose-closed nil result taken us h = refl
  compose-closed (cons f fs) result taken [] h = refl
  compose-closed (cons f fs) result taken (u ∷ us) h = lift_cong (invert f) _ _ λ i ei.
      let hi = invert-IsKnown metas f h.0 ei in
      lift_cong (invert i) _ _ λ g eg.
        let hg = invert-IsKnown metas i hi eg in
        bind_cong _ _ (agree g taken hg) λ x.
          bind_cong {m = lift (Subtract.subtract env.bisect u x)} _ _ refl λ y.
            lift_cong (invert g) _ _ λ b eb.
              bind_cong _ _ (agree b u (invert-IsKnown metas g hg eb)) λ z.
                bind_cong {m = lift (overlay env.bisect taken z)} _ _ refl λ v.
                  bind_cong {m = lift (overlay env.bisect y result)} _ _ refl
                    λ w. compose-closed fs w v us h.1

  op-closed :
      (f : Filter) (t : Obj) → IsKnown metas f → apply_op env r f t ≡ apply_op (closed env) s f t
  unfolding apply_op
  op-closed (meta m f) t h = agree f t h.1
  op-closed (tree_id p f) t h = bind_cong _ _ (agree f t h) (λ u. refl)
  op-closed (compose fs) t h = bind_cong _ _ (each-closed fs t h) (λ us. compose-closed fs _ _ us h)
  op-closed (chain fs) t h = seq-closed fs t h
  op-closed (subtract a b) t h = bind_cong _ _ (agree a t h.0) λ af.
      bind_cong _ _ (agree b t h.1) λ bf. lift_cong (invert b) _ _ λ i ei.
        bind_cong _ _ (agree i bf (invert-IsKnown metas b h.1 ei))
          λ bu. bind_cong _ _ (agree a bu h.0) λ ba. refl
  op-closed (exclude b) t h = bind_cong _ _ (agree b t h) (λ u. refl)
  op-closed (select b) t h = bind_cong _ _ (agree b t h) (λ u. refl)
  op-closed paths t h = absurd h
  op-closed (adapt x) t h = absurd h
  op-closed (link x) t h = absurd h
  op-closed unlink t h = absurd h
  op-closed (regex_replace x) t h = absurd h
  op-closed index t h = absurd h
  op-closed invert_op t h = absurd h
  op-closed (workspace p) t h = absurd h
  op-closed (stored p) t h = absurd h
  op-closed (starlark p f) t h = absurd h
  op-closed (pattern p) t h = absurd h
  op-closed (unapply p f) t h = absurd h
  op-closed _ t h = refl

apply-closed :
    (env : Env) (metas : Bool) (n : ℕ) (f : Filter) (t : Obj)
    → IsKnown metas f
    → apply env n f t ≡ apply (closed env) n f t
unfolding apply
apply-closed env metas zero f t h = refl
apply-closed env metas (suc n) f t h =
    op-closed env metas (λ g u k. apply-closed env metas n g u k) f t h

pub run-closed :
    (env : Env) (metas : Bool) (f : Filter) (t : Obj)
    → IsKnown metas f
    → run env f t ≡ run (closed env) f t
unfolding run
run-closed env metas f t h = apply-closed env metas (height f) f t h
