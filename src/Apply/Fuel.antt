-- ===== src/Apply/Fuel.antt =====
-- Fuel for `apply`: the nesting of a filter is enough, and more fuel changes nothing.
use mathlib.Core.Path.{fun_ext}
use josh.Base.{
  is_yes, subst, Bool, true, false, if◌then◌else◌, ℕ, zero, suc, ◌-◌, ◌≤◌, ◌≡◌, ◌≢◌, refl, ap,
  Option, none, some, List, [], ◌∷◌, arith, Text,
}
use josh.FilePath.{FilePath, FilePath-discrete}
use josh.Filter.Op.{
  Filter, Filters, meta, tree_id, compose, chain, subtract, exclude, select, insert, object_ref,
  object_deref, export, file, prefix, nil, cons, InsertContent, inline, oid,
}
use josh.Filter.Height.{height, height_all, height_pos}
use josh.Opt.Invert.{invert}
use josh.Opt.Invert.Height.{height-invert}
use josh.Tree.Object.{Obj, blob, tree, absent, blob_mode, zero_id}
use josh.Persist.Utf8.{from_utf8}
use josh.Tree.Lookup.{Found, get_path_entry}
use josh.Tree.Insert.{insert_oid}
use josh.Tree.Subtract as Subtract
use josh.Tree.Overlay.{overlay}
use josh.Apply.Run.{Run, ok, failed, out_of_fuel, ◌>>=◌, lift}
use josh.Apply.Eval.{
  insert_content, insert_object, apply_insert, put_object, ref_found, deref_found, put_deref,
  deref_text, deref_content, link_file, Env, apply, apply_op, apply_seq, apply_each, compose_trees,
}

-- Two ways to make the recursive calls give the same results on filters up to a depth.
abbrev pub Agree : ℕ → (Filter → Obj → Run Obj) → (Filter → Obj → Run Obj) → Type 0
Agree k r s = (g : Filter) (u : Obj) → height g ≤ k → r g u ≡ s g u

pub bind_cong {ℓ κ} :
    {A : Type ℓ} {B : Type κ} {m n : Run A} (f g : A → Run B)
    → m ≡ n
    → ((a : A) → f a ≡ g a)
    → (m >>= f) ≡ (n >>= g)
bind_cong {m} f g e h = rw (← e) (ap (λ k. m >>= k) (fun_ext h))

pub lift_cong {ℓ κ} :
    {A : Type ℓ} {B : Type κ} (o : Option A) (f g : A → Run B)
    → ((a : A) → o ≡ some a → f a ≡ g a)
    → (lift o >>= f) ≡ (lift o >>= g)
lift_cong none f g h = refl
lift_cong (some a) f g h = h a refl

module _ (env : Env) {k : ℕ} {r s : Filter → Obj → Run Obj} (agree : Agree k r s) where
  seq_cong :
      (fs : Filters) (t : Obj) → height_all fs ≤ k → apply_seq env r fs t ≡ apply_seq env s fs t
  unfolding apply_seq height
  seq_cong nil t h = refl
  seq_cong (cons f fs) t h =
      bind_cong _ _ (agree f t (omega arith)) (λ u. seq_cong fs u (omega arith))

  each_cong :
      (fs : Filters) (t : Obj) → height_all fs ≤ k → apply_each env r fs t ≡ apply_each env s fs t
  unfolding apply_each height
  each_cong nil t h = refl
  each_cong (cons f fs) t h =
      bind_cong _ _ (agree f t (omega arith))
        (λ u. bind_cong _ _ (each_cong fs t (omega arith)) (λ us. refl))

  compose_cong :
      (fs : Filters) (result taken : Obj) (us : List Obj)
      → height_all fs ≤ k
      → compose_trees env r result taken fs us ≡ compose_trees env s result taken fs us
  unfolding compose_trees height
  compose_cong nil result taken us h = refl
  compose_cong (cons f fs) result taken [] h = refl
  compose_cong (cons f fs) result taken (u ∷ us) h = lift_cong (invert f) _ _ λ i ei.
      lift_cong (invert i) _ _ λ g eg.
        bind_cong _ _ (agree g taken (omega (arith, height-invert f ei, height-invert i eg))) λ x.
          bind_cong {m = lift (Subtract.subtract env.bisect u x)} _ _ refl λ y.
            lift_cong (invert g) _ _ λ b eb.
              bind_cong _ _
                (agree b u
                  (omega (arith, height-invert f ei, height-invert i eg, height-invert g eb)))
                λ z. bind_cong {m = lift (overlay env.bisect taken z)} _ _ refl λ v.
                  bind_cong {m = lift (overlay env.bisect y result)} _ _ refl
                    λ w. compose_cong fs w v us (omega arith)

  pub op_cong : (f : Filter) (t : Obj) → height f ≤ suc k → apply_op env r f t ≡ apply_op env s f t
  unfolding apply_op height
  op_cong (meta m f) t h = agree f t (omega arith)
  op_cong (tree_id p f) t h = bind_cong _ _ (agree f t (omega arith)) (λ u. refl)
  op_cong (compose fs) t h =
      bind_cong _ _ (each_cong fs t (omega arith)) (λ us. compose_cong fs _ _ us (omega arith))
  op_cong (chain fs) t h = seq_cong fs t (omega arith)
  op_cong (subtract a b) t h = bind_cong _ _ (agree a t (omega arith)) λ af.
      bind_cong _ _ (agree b t (omega arith)) λ bf. lift_cong (invert b) _ _ λ i ei.
        bind_cong _ _ (agree i bf (omega (arith, height-invert b ei)))
          λ bu. bind_cong _ _ (agree a bu (omega arith)) λ ba. refl
  op_cong (exclude b) t h = bind_cong _ _ (agree b t (omega arith)) (λ u. refl)
  op_cong (select b) t h = bind_cong _ _ (agree b t (omega arith)) (λ u. refl)
  op_cong _ t h = refl

-- Any two amounts of fuel that reach the nesting of a filter give the same result.
pub apply_fuel :
    (env : Env) (n m : ℕ) (f : Filter) (t : Obj)
    → height f ≤ n
    → height f ≤ m
    → apply env n f t ≡ apply env m f t
unfolding apply
apply_fuel env zero m f t h k = absurd (omega (arith, height_pos f))
apply_fuel env (suc n) zero f t h k = absurd (omega (arith, height_pos f))
apply_fuel env (suc n) (suc m) f t h k =
    op_cong env {k = height f - 1} (λ g u below. apply_fuel env n m g u (omega arith) (omega arith))
      f t (omega arith)

-- The fuel has not run out.
abbrev pub Ends {ℓ} : {A : Type ℓ} → Run A → Type 0
Ends out_of_fuel = ⊥
Ends _ = Unit

bind-Ends {ℓ κ} :
    {A : Type ℓ} {B : Type κ} (m : Run A) (f : A → Run B)
    → Ends m
    → ((a : A) → Ends (f a))
    → Ends (m >>= f)
bind-Ends (ok a) f h k = k a
bind-Ends failed f h k = tt
bind-Ends out_of_fuel f h k = h

lift-Ends {ℓ} : {A : Type ℓ} (o : Option A) → Ends (lift o)
lift-Ends none = tt
lift-Ends (some a) = tt

bind_lift-Ends {ℓ κ} :
    {A : Type ℓ} {B : Type κ} (o : Option A) (f : A → Run B)
    → ((a : A) → o ≡ some a → Ends (f a))
    → Ends (lift o >>= f)
bind_lift-Ends none f k = tt
bind_lift-Ends (some a) f k = k a refl

if_Ends {ℓ} : {A : Type ℓ} (b : Bool) (x y : Run A) → Ends x → Ends y → Ends (if b then x else y)
if_Ends true x y h k = h
if_Ends false x y h k = k

module _ (env : Env) where
  object-Ends : (p : FilePath) (o : Obj) → Ends (insert_object env p o)
  unfolding insert_object apply_insert
  object-Ends p (blob b) = if_Ends (is_yes (FilePath-discrete p _)) _ _ tt (lift-Ends _)
  object-Ends p (tree es) = if_Ends (is_yes (FilePath-discrete p _)) _ _ tt (lift-Ends _)
  object-Ends p (absent i) = tt

  insert-Ends : (p : FilePath) (c : InsertContent) → Ends (insert_content env p c)
  unfolding insert_content
  insert-Ends p (inline s) = object-Ends p (blob s)
  insert-Ends p (oid i) = object-Ends p (env.object i)

  put-Ends : (p : FilePath) (o : Obj) → Ends (put_object env p o)
  unfolding apply_insert
  put-Ends p (blob b) = lift-Ends _
  put-Ends p (tree es) = lift-Ends _
  put-Ends p (absent i) = tt

  ref-Ends : (p : FilePath) (t : Obj) (e : Found) → Ends (ref_found env p t e)
  unfolding apply_insert
  ref-Ends p t (some (some e)) = lift-Ends _
  ref-Ends p t (some none) = tt
  ref-Ends p t none = tt

  deref-Ends : (p : FilePath) (t : Obj) (e : Found) → Ends (deref_found env p t e)
  unfolding apply_insert
  deref-Ends p t (some (some e)) = content_ends e.1
    where
      put_ends : (o : Option Obj) → Ends (put_deref env p o)
      put_ends (some o) = put-Ends p o
      put_ends none = lift-Ends _

      text_ends : (s : Option Text) → Ends (deref_text env p s)
      text_ends none = tt
      text_ends (some s) = put_ends (env.parse_id s)

      content_ends : (o : Obj) → Ends (deref_content env p o)
      content_ends (blob s) = text_ends (from_utf8 s)
      content_ends (tree es) = put_ends none
      content_ends (absent i) = put_ends none
  deref-Ends p t (some none) = tt
  deref-Ends p t none = tt

module _ (env : Env) {k : ℕ} (r : Filter → Obj → Run Obj)
    (ends : (g : Filter) (u : Obj) → height g ≤ k → Ends (r g u)) where
  seq-Ends : (fs : Filters) (t : Obj) → height_all fs ≤ k → Ends (apply_seq env r fs t)
  unfolding apply_seq height
  seq-Ends nil t h = tt
  seq-Ends (cons f fs) t h =
      bind-Ends (r f t) _ (ends f t (omega arith)) (λ u. seq-Ends fs u (omega arith))

  each-Ends : (fs : Filters) (t : Obj) → height_all fs ≤ k → Ends (apply_each env r fs t)
  unfolding apply_each height
  each-Ends nil t h = tt
  each-Ends (cons f fs) t h =
      bind-Ends (r f t) _ (ends f t (omega arith))
        λ u. bind-Ends (apply_each env r fs t) _ (each-Ends fs t (omega arith)) (λ us. tt)

  compose-Ends :
      (fs : Filters) (result taken : Obj) (us : List Obj)
      → height_all fs ≤ k
      → Ends (compose_trees env r result taken fs us)
  unfolding compose_trees height
  compose-Ends nil result taken us h = tt
  compose-Ends (cons f fs) result taken [] h = tt
  compose-Ends (cons f fs) result taken (u ∷ us) h = bind_lift-Ends (invert f) _ λ i ei.
      bind_lift-Ends (invert i) _ λ g eg.
        bind-Ends (r g taken) _
          (ends g taken (omega (arith, height-invert f ei, height-invert i eg)))
          λ x. bind_lift-Ends (Subtract.subtract env.bisect u x) _ λ y _.
            bind_lift-Ends (invert g) _ λ b eb.
              bind-Ends (r b u) _
                (ends b u
                  (omega (arith, height-invert f ei, height-invert i eg, height-invert g eb)))
                λ z. bind_lift-Ends (overlay env.bisect taken z) _ λ v _.
                  bind_lift-Ends (overlay env.bisect y result) _
                    λ w _. compose-Ends fs w v us (omega arith)

  op-Ends : (f : Filter) (t : Obj) → height f ≤ suc k → Ends (apply_op env r f t)
  unfolding apply_op height
  op-Ends (meta m f) t h = ends f t (omega arith)
  op-Ends (tree_id p f) t h =
      bind-Ends (r f t) _ (ends f t (omega arith)) (λ u. insert-Ends env p (inline (env.hex u)))
  op-Ends (compose fs) t h =
      bind-Ends (apply_each env r fs t) _ (each-Ends fs t (omega arith))
        (λ us. compose-Ends fs _ _ us (omega arith))
  op-Ends (chain fs) t h = seq-Ends fs t (omega arith)
  op-Ends (subtract a b) t h = bind-Ends (r a t) _ (ends a t (omega arith)) λ af.
      bind-Ends (r b t) _ (ends b t (omega arith)) λ bf. bind_lift-Ends (invert b) _ λ i ei.
        bind-Ends (r i bf) _ (ends i bf (omega (arith, height-invert b ei)))
          λ bu. bind-Ends (r a bu) _ (ends a bu (omega arith)) λ ba. lift-Ends _
  op-Ends (exclude b) t h = bind-Ends (r b t) _ (ends b t (omega arith)) (λ u. lift-Ends _)
  op-Ends (select b) t h = bind-Ends (r b t) _ (ends b t (omega arith)) (λ u. lift-Ends _)
  op-Ends (insert p c) t h = insert-Ends env p c
  op-Ends (object_ref p) t h = ref-Ends env p t (get_path_entry t p)
  op-Ends (object_deref p) t h = deref-Ends env p t (get_path_entry t p)
  op-Ends export t h = lift-Ends (insert_oid env.bisect t link_file zero_id blob_mode)
  op-Ends (file d s) t h = lift-Ends _
  op-Ends (prefix p) t h = lift-Ends _
  op-Ends f t h = search lift-Ends

-- The nesting of a filter is enough fuel.
pub apply-Ends : (env : Env) (n : ℕ) (f : Filter) (t : Obj) → height f ≤ n → Ends (apply env n f t)
unfolding apply
apply-Ends env zero f t h = absurd (omega (arith, height_pos f))
apply-Ends env (suc n) f t h =
    op-Ends env {k = height f - 1} (apply env n) (λ g u below. apply-Ends env n g u (omega arith)) f
      t (omega arith)

-- With fuel from the nesting of a filter on, apply never runs out of fuel, and its result does not
-- depend on the fuel.
pub apply_total :
    (env : Env) (n m : ℕ) (f : Filter) (t : Obj)
    → height f ≤ n
    → height f ≤ m
    → (apply env n f t ≢ out_of_fuel) × (apply env n f t ≡ apply env m f t)
apply_total env n m f t h k =
    (λ e. subst Ends e (apply-Ends env n f t h), apply_fuel env n m f t h k)
