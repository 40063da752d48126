-- ===== src/Sound/Sequence.antt =====
-- A chain as the list of its elements.
use josh.Base.{
  true, not, List, [], ◌∷◌, ◌++◌, ◌≡◌, refl, sym, ap, ap₂, ◌∙◌, is_yes→eq, Bool-cases, inl, inr,
  retain,
}
use mathlib.Core.Path.{fun_ext}
use josh.Filter.Op.{
  Filter, Filters, nop, chain, nil, cons, Filter-discrete, filter_eq, to_list, of_list,
}
use josh.Opt.Simplify.{splice_chains, unwrap_chain}
use josh.Tree.Object.{Obj}
use josh.Apply.Run.{Run, ok, failed, out_of_fuel, ◌>>=◌}
use josh.Apply.Eval.{Env, apply_op, apply_seq}
use josh.Apply.Meaning.{run, run-eq}

-- Equality of filters as a test.
pub filter_eq→eq : (f g : Filter) → filter_eq f g ≡ true → f ≡ g
unfolding filter_eq
filter_eq→eq f g h = is_yes→eq (Filter-discrete f g) h

bind_assoc {ℓ} :
    {A : Type ℓ} (m : Run A) (f g : A → Run A) → ((m >>= f) >>= g) ≡ (m >>= λ x. f x >>= g)
bind_assoc (ok a) f g = refl
bind_assoc failed f g = refl
bind_assoc out_of_fuel f g = refl

pub bind_ok {ℓ} : {A : Type ℓ} (m : Run A) → (m >>= ok) ≡ m
bind_ok (ok a) = refl
bind_ok failed = refl
bind_ok out_of_fuel = refl

module _ (env : Env) where
  -- The filters of a list, one after the other.
  unfoldable pub seq : List Filter → Obj → Run Obj
  seq [] t = ok t
  seq (f ∷ fs) t = run env f t >>= seq fs

  apply_seq-to_list : (fs : Filters) (t : Obj) → apply_seq env (run env) fs t ≡ seq (to_list fs) t
  unfolding apply_seq seq to_list
  apply_seq-to_list nil t = refl
  apply_seq-to_list (cons f fs) t =
      ap (λ k. run env f t >>= k) (fun_ext (λ u. apply_seq-to_list fs u))

  pub run-chain : (fs : Filters) (t : Obj) → run env (chain fs) t ≡ seq (to_list fs) t
  unfolding apply_op
  run-chain fs t = run-eq env (chain fs) t ∙ apply_seq-to_list fs t

  pub run-nop : (t : Obj) → run env nop t ≡ ok t
  unfolding apply_op
  run-nop t = run-eq env nop t

  pub seq-append : (fs gs : List Filter) (t : Obj) → seq (fs ++ gs) t ≡ (seq fs t >>= seq gs)
  unfolding seq
  seq-append [] gs t = refl
  seq-append (f ∷ fs) gs t =
      ap (λ k. run env f t >>= k) (fun_ext (λ u. seq-append fs gs u))
      ∙ sym (bind_assoc (run env f t) (seq fs) (seq gs))

to_list-of_list : (fs : List Filter) → to_list (of_list fs) ≡ fs
unfolding to_list of_list
to_list-of_list [] = refl
to_list-of_list (f ∷ fs) = ap (λ k. f ∷ k) (to_list-of_list fs)

module _ (env : Env) where
  pub run-chain-of_list :
      (fs : List Filter) (t : Obj) → run env (chain (of_list fs)) t ≡ seq env fs t
  run-chain-of_list fs t = run-chain env (of_list fs) t ∙ ap (λ k. seq env k t) (to_list-of_list fs)

  -- A nested chain does what its elements do in its place.
  pub seq-splice_chains : (fs : List Filter) (t : Obj) → seq env (splice_chains fs) t ≡ seq env fs t
  unfolding splice_chains seq
  seq-splice_chains [] t = refl
  seq-splice_chains (chain gs ∷ fs) t =
      seq-append env (to_list gs) (splice_chains fs) t
      ∙ ap₂ (λ m k. m >>= k) (sym (run-chain env gs t)) (fun_ext (λ u. seq-splice_chains fs u))
  seq-splice_chains (f ∷ fs) t = ap (λ k. run env f t >>= k) (fun_ext (λ u. seq-splice_chains fs u))

  pub seq-unwrap_chain : (fs : List Filter) (t : Obj) → run env (unwrap_chain fs) t ≡ seq env fs t
  unfolding unwrap_chain
  seq-unwrap_chain [] t = run-chain-of_list [] t
  seq-unwrap_chain (f ∷ []) t = unfold seq in sym (bind_ok (run env f t))
  seq-unwrap_chain (f ∷ g ∷ fs) t = run-chain-of_list (f ∷ g ∷ fs) t

  -- A `Nop` in a chain does nothing.
  pub seq-retain_nop :
      (fs : List Filter) (t : Obj)
      → seq env (retain (λ f. not (filter_eq f nop)) fs) t ≡ seq env fs t
  unfolding seq
  seq-retain_nop [] t = refl
  seq-retain_nop (f ∷ fs) t = elim (Bool-cases (filter_eq f nop)) [
    | inl same ↦ rw same (
        seq-retain_nop fs t
        ∙ sym (
            ap (λ m. m >>= seq env fs)
              (ap (λ g. run env g t) (filter_eq→eq f nop same) ∙ run-nop env t)))
    | inr other ↦ rw other (ap (λ k. run env f t >>= k) (fun_ext (λ u. seq-retain_nop fs u)))
  ]
