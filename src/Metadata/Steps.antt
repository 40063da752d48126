-- ===== src/Metadata/Steps.antt =====
-- The steps of a chain do what the chain does.
use josh.Base.{[], ◌∷◌, ◌≡◌, refl, sym, ap₂, ◌∙◌, Text}
use mathlib.Core.Path.{fun_ext}
use josh.Filter.Op.{Filter, Filters, Meta, meta, chain, nil, cons, to_list}
use josh.Tree.Object.{Obj}
use josh.Apply.Run.{◌>>=◌}
use josh.Apply.Eval.{Env, apply_op}
use josh.Apply.Meaning.{run, run-eq}
use josh.Sound.Sequence.{seq, seq-append, run-chain, bind_ok}
use josh.Metadata.{with_meta, propagate_meta, into_meta, merge, steps_of, steps_each, flatten_chain}

module _ (env : Env) where
  run-meta : (m : Meta) (f : Filter) (t : Obj) → run env (meta m f) t ≡ run env f t
  unfolding apply_op
  run-meta m f t = run-eq env (meta m f) t

  run-with_meta : (k v : Text) (f : Filter) (t : Obj) → run env (with_meta k v f) t ≡ run env f t
  unfolding with_meta
  run-with_meta k v (meta m f) t = run-meta _ f t ∙ sym (run-meta m f t)
  run-with_meta k v f t = run-meta _ f t

  run-propagate_meta :
      (m : Meta) (f : Filter) (t : Obj) → run env (propagate_meta f m) t ≡ run env f t
  unfolding propagate_meta
  run-propagate_meta [] f t = refl
  run-propagate_meta ((k, v) ∷ m) f t =
      run-propagate_meta m (with_meta k v f) t ∙ run-with_meta k v f t

  single : (f : Filter) (m : Meta) (t : Obj) → seq env (propagate_meta f m ∷ []) t ≡ run env f t
  unfolding seq
  single f m t = bind_ok (run env (propagate_meta f m) t) ∙ run-propagate_meta m f t

  mutual
    unfolding steps_of seq to_list

    steps_run : (f : Filter) (m : Meta) (t : Obj) → seq env (steps_of m f) t ≡ run env f t
    steps_run (meta m' f) m t = steps_run f m t ∙ sym (run-meta m' f t)
    steps_run (chain fs) m t = each_run fs m t ∙ sym (run-chain env fs t)
    steps_run f m t = single f m t

    each_run :
        (fs : Filters) (m : Meta) (t : Obj) → seq env (steps_each m fs) t ≡ seq env (to_list fs) t
    each_run nil m t = refl
    each_run (cons f fs) m t =
        seq-append env (steps_of (merge (into_meta f) m) f) (steps_each m fs) t
        ∙ ap₂ (λ a k. a >>= k) (steps_run f (merge (into_meta f) m) t)
            (fun_ext (λ u. each_run fs m u))

  -- Applying the steps of flatten_chain one after the other to a tree has the same result as
  -- applying the filter, whatever metadata the filter and its steps have.
  pub seq-flatten_chain : (f : Filter) (t : Obj) → seq env (flatten_chain f) t ≡ run env f t
  unfolding flatten_chain
  seq-flatten_chain f t = steps_run f (merge (into_meta f) []) t
