-- ===== src/Sound/Splits.antt =====
-- `Prefix` one name at a time, and `Subdir` after `Prefix`.
use josh.Base.{Option, none, some, [], ◌∷◌, ◌≡◌, refl, sym, ap, ◌∙◌}
use josh.Tree.Insert.{component_bytes}
use josh.FilePath.{FilePath, Component}
use josh.Filter.Op.{prefix, subdir, chain, of_list}
use josh.Opt.Step.{prefixes, split_prefix}
use josh.Tree.Object.{Obj}
use josh.Tree.Order.{IsBisect}
use josh.Tree.NoZero.{NoZero}
use josh.Apply.Run.{Run, ok, failed, out_of_fuel, lift, ◌>>=◌}
use josh.Apply.Eval.{Env}
use josh.Apply.Meaning.{run}
use josh.Sound.Plain.{IsNormal}
use josh.Sound.Moves.{nest, run-subdir, apply_subdir-at, IsNormal-tail, IsNormal-head}
use josh.Sound.Nest.{run-prefix, at-nest, put_below, try_nest, AreWritable, try_nest-some, and_then}
use josh.Sound.Sequence.{seq, seq-append, run-chain-of_list}

>>=-ok : (r : Run Obj) → (r >>= ok) ≡ r
>>=-ok (ok a) = refl
>>=-ok failed = refl
>>=-ok out_of_fuel = refl

module _ (env : Env) (is_bisect : IsBisect env.bisect) where
  one_prefix :
      (c : Component) (o : Option Obj)
      → IsNormal (c ∷ [])
      → (lift o >>= seq env (prefix (c ∷ []) ∷ []))
        ≡ lift (and_then o (put_below (component_bytes c)))
  unfolding seq try_nest
  one_prefix c none h = refl
  one_prefix c (some t) h =
      ap (λ r. r >>= seq env []) (run-prefix env is_bisect (c ∷ []) t (λ e. cc) h)
      ∙ >>=-ok (lift (put_below (component_bytes c) t))

  seq-prefixes :
      (p : FilePath) (t : Obj) → IsNormal p → seq env (prefixes p) t ≡ lift (try_nest p t)
  unfolding seq prefixes try_nest
  seq-prefixes [] t h = refl
  seq-prefixes (c ∷ p) t h =
      seq-append env (prefixes p) (prefix (c ∷ []) ∷ []) t
      ∙ ap (λ r. r >>= seq env (prefix (c ∷ []) ∷ [])) (seq-prefixes p t (IsNormal-tail c p h))
      ∙ one_prefix c (try_nest p t) (IsNormal-head c p h)

  -- The chain into which step splits a Prefix of one or more names has the same result as the
  -- Prefix on every tree, if lookup is right.
  pub run-split_prefix :
      (c : Component) (p : FilePath) (t : Obj)
      → IsNormal (c ∷ p)
      → run env (split_prefix (c ∷ p)) t ≡ run env (prefix (c ∷ p)) t
  unfolding split_prefix
  run-split_prefix c [] t h = refl
  run-split_prefix c (d ∷ p) t h =
      run-chain-of_list env (prefixes (c ∷ d ∷ p)) t
      ∙ seq-prefixes (c ∷ d ∷ p) t h
      ∙ sym (run-prefix env is_bisect (c ∷ d ∷ p) t (λ e. cc) h)

  -- On a tree without the zero id, a Prefix of one or more names without a NUL and then a Subdir
  -- of the same path give the tree back, if lookup is right.
  pub subdir-prefix :
      (c : Component) (p : FilePath) (t : Obj)
      → IsNormal (c ∷ p)
      → AreWritable (c ∷ p)
      → NoZero t
      → run env (chain (of_list (prefix (c ∷ p) ∷ subdir (c ∷ p) ∷ []))) t ≡ ok t
  unfolding seq
  subdir-prefix c p t h w k =
      run-chain-of_list env (prefix (c ∷ p) ∷ subdir (c ∷ p) ∷ []) t
      ∙ rw
          (
            run-prefix env is_bisect (c ∷ p) t (λ e. cc) h,
            try_nest-some (c ∷ p) t w,
            run-subdir env (c ∷ p) (nest (c ∷ p) t),
            apply_subdir-at env c p (nest (c ∷ p) t) h,
            at-nest env (c ∷ p) t k,
          )
          refl
