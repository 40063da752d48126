-- ===== src/Sound/Undo.antt =====
-- What a filter that moves a tree down has made, its `invert` undoes.
use josh.Base.{some, [], ◌∷◌, ◌++◌, ◌≡◌, refl, ap, ◌∙◌}
use josh.FilePath.{FilePath}
use josh.Filter.Op.{
  Filter, Filters, meta, nop, message, squash_none, prune, pin, prefix, subdir, chain, nil, cons,
  to_list,
}
use josh.Opt.Invert.{invert, invert_rev, append_filters}
use josh.Tree.Object.{Obj}
use josh.Tree.Order.{IsBisect}
use josh.Tree.NoZero.{NoZero}
use josh.Apply.Run.{Run, ok, lift}
use josh.Apply.Eval.{Env, apply_op}
use josh.Apply.Meaning.{run, run-eq}
use josh.Sound.Plain.{IsMove}
use josh.Sound.Moves.{nest, run-subdir, apply_subdir-at}
use josh.Sound.Nest.{AreWritable, run-prefix, try_nest-some, at-nest, nest-NoZero}
use josh.Sound.Sequence.{seq, seq-append, run-chain}

-- Prefix with one or more names that a tree may have, what leaves a tree alone, and chains and
-- Meta of these.
abbrev mutual
  pub IsEmbedding : Filter → Type 0
  IsEmbedding nop = Unit
  IsEmbedding (message m r) = Unit
  IsEmbedding squash_none = Unit
  IsEmbedding prune = Unit
  IsEmbedding (pin f) = Unit
  IsEmbedding (prefix p) = IsMove p × AreWritable p
  IsEmbedding (meta m f) = IsEmbedding f
  IsEmbedding (chain fs) = AreEmbeddings fs
  IsEmbedding _ = ⊥

  pub AreEmbeddings : Filters → Type 0
  AreEmbeddings nil = Unit
  AreEmbeddings (cons f fs) = IsEmbedding f × AreEmbeddings fs

to_list-append_filters :
    (fs gs : Filters) → to_list (append_filters fs gs) ≡ to_list fs ++ to_list gs
unfolding to_list append_filters
to_list-append_filters nil gs = refl
to_list-append_filters (cons f fs) gs = ap (λ l. f ∷ l) (to_list-append_filters fs gs)

module _ (env : Env) (is_bisect : IsBisect env.bisect) where
  -- From the tree there and back.
  abbrev Undoes : (Obj → Run Obj) → (Obj → Run Obj) → Type 0
  Undoes there back =
      (t : Obj) → NoZero t → (u : Obj) × (there t ≡ ok u) × NoZero u × (back u ≡ ok t)

  stays :
      (f g : Filter)
      → ((t : Obj) → apply_op env (run env) f t ≡ ok t)
      → ((t : Obj) → apply_op env (run env) g t ≡ ok t)
      → Undoes (run env f) (run env g)
  stays f g h k t z = (t, run-eq env f t ∙ h t, z, run-eq env g t ∙ k t)

  prefix-Undoes :
      (p : FilePath) → IsMove p → AreWritable p → Undoes (run env (prefix p)) (run env (subdir p))
  prefix-Undoes [] h w t z = absurd h
  prefix-Undoes (c ∷ p) h w t z = (
    nest (c ∷ p) t,
    run-prefix env is_bisect (c ∷ p) t (λ e. cc) h ∙ ap lift (try_nest-some (c ∷ p) t w),
    nest-NoZero (c ∷ p) t z,
    run-subdir env (c ∷ p) (nest (c ∷ p) t)
        ∙ ap ok (apply_subdir-at env c p (nest (c ∷ p) t) h ∙ at-nest env (c ∷ p) t z),
  )

  mutual
    unfolding invert apply_op to_list seq

    undone :
        (f : Filter)
        → IsEmbedding f
        → (g : Filter) × (invert f ≡ some g) × Undoes (run env f) (run env g)
    undone nop h = (nop, refl, stays nop nop (λ t. refl) (λ t. refl))
    undone (message m r) h = (nop, refl, stays (message m r) nop (λ t. refl) (λ t. refl))
    undone squash_none h = (nop, refl, stays squash_none nop (λ t. refl) (λ t. refl))
    undone prune h = (prune, refl, stays prune prune (λ t. refl) (λ t. refl))
    undone (pin f) h = (nop, refl, stays (pin f) nop (λ t. refl) (λ t. refl))
    undone (prefix p) h = (subdir p, refl, prefix-Undoes p h.0 h.1)
    undone (meta m f) h =
        let (g, e, back) = undone f h in
        (
          meta m g,
          rw e refl,
          λ t z.
              let (u, e₁, z', e₂) = back t z in
              (u, run-eq env (meta m f) t ∙ e₁, z', run-eq env (meta m g) u ∙ e₂),
        )
    undone (chain fs) h =
        let (gs, e, back) = undone_rev fs h in
        (
          chain gs,
          rw e refl,
          λ t z.
              let (u, e₁, z', e₂) = back t z in
              (u, run-chain env fs t ∙ e₁, z', run-chain env gs u ∙ e₂),
        )
    undone _ h = absurd h

    undone_rev :
        (fs : Filters)
        → AreEmbeddings fs
        → (gs : Filters) × (invert_rev fs ≡ some gs)
          × Undoes (seq env (to_list fs)) (seq env (to_list gs))
    undone_rev nil h = (nil, refl, λ t z. (t, refl, z, refl))
    undone_rev (cons f fs) h =
        let (g, e, back) = undone f h.0 in
        let (gs, es, backs) = undone_rev fs h.1 in
        (
          append_filters gs (cons g nil),
          rw (es, e) refl,
          λ t z.
              let (u, e₁, z₁, e₂) = back t z in
              let (v, d₁, z₂, d₂) = backs u z₁ in
              (
                v,
                rw e₁ d₁,
                z₂,
                ap (λ l. seq env l v) (to_list-append_filters gs (cons g nil))
                    ∙ seq-append env (to_list gs) (g ∷ []) v
                    ∙ rw (d₂, e₂) refl,
              ),
        )

  -- Embeddings are chains and Meta of Nop, Message, Squash without refs, Prune, Pin and of Prefix
  -- with one or more names without a NUL. If lookup is right, an embedding has an inverse and a
  -- result on every tree without the zero id, and the inverse makes of this result the tree again.
  pub run-invert :
      (f : Filter) (t : Obj)
      → IsEmbedding f
      → NoZero t
      → (g : Filter) × (invert f ≡ some g) × (u : Obj) × (run env f t ≡ ok u) × (run env g u ≡ ok t)
  run-invert f t h z =
      let (g, e, back) = undone f h in let (u, e₁, z', e₂) = back t z in (g, e, u, e₁, e₂)
