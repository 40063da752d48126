-- ===== src/Apply/NoZero.antt =====
-- Applying a filter to a tree writes no zero id.
use josh.Base.{
  ℕ, zero, suc, Bool, true, false, Option, none, some, List, [], ◌∷◌, ◌≡◌, sym, ◌∙◌, Text, is_yes,
  All?, if◌then◌else◌,
}
use josh.FilePath.{FilePath, FilePath-discrete}
use josh.Filter.Op.{
  Filter, Filters, InsertContent, inline, oid, nop, empty, fold, squash_none, squash_some, author,
  committer, message, prune, pin, rev, hook, embed, downstack, meta, insert, file, prefix, subdir,
  tree_id, object_deref, object_ref, export, compose, chain, subtract, exclude, select, nil, cons,
}
use josh.Filter.Height.{height}
use josh.Opt.Invert.{invert}
use josh.Tree.Object.{
  Mode, Obj, blob, tree, absent, tree_mode, blob_mode, empty_id, zero_id, is_tree,
}
use josh.Tree.Order.{IsBisect}
use josh.Tree.Lookup.{Found, get_path_entry}
use josh.Tree.Insert.{insert_oid}
use josh.Tree.Subtract as Subtract
use josh.Tree.Intersect.{intersect}
use josh.Tree.Overlay.{overlay}
use josh.Persist.Utf8.{from_utf8}
use josh.Tree.NoZero.{NoZero}
use josh.Tree.NoZero.Unions.{subtract-NoZero, intersect-NoZero, overlay-NoZero}
use josh.Tree.NoZero.Places.{
  NoZeroFound, Fits, NoZero-Fits, zero-Fits, get_path_entry-NoZero, insert_oid-NoZero,
}
use josh.Apply.Meaning.{run}
use josh.Apply.Modelled.{IsKnown, closed, run-closed}
use josh.Apply.Run.{Run, ok, failed, out_of_fuel, ◌>>=◌, lift}
use josh.Apply.Eval.{
  Env, link_file, apply_insert, insert_object, insert_content, found_tree, found_file, apply_subdir,
  apply_file, put_object, deref_text, deref_content, put_deref, deref_found, apply_deref, ref_found,
  apply_ref, apply_seq, apply_each, compose_trees, apply_op, apply,
}

-- What holds of the value of a run, if it has one.
abbrev pub Always {ℓ} : {A : Type ℓ} → (A → Type 0) → Run A → Type 0
Always P (ok a) = P a
Always P _ = Unit

pub Always-bind {ℓ κ} :
    {A : Type ℓ} {B : Type κ} (P : A → Type 0) (Q : B → Type 0) (m : Run A) (f : A → Run B)
    → Always P m
    → ((a : A) → P a → Always Q (f a))
    → Always Q (m >>= f)
Always-bind P Q (ok a) f h k = k a h
Always-bind P Q failed f h k = tt
Always-bind P Q out_of_fuel f h k = tt

pub Always-then {ℓ κ} :
    {A : Type ℓ} {B : Type κ} (Q : B → Type 0) (m : Run A) (f : A → Run B)
    → ((a : A) → Always Q (f a))
    → Always Q (m >>= f)
Always-then Q (ok a) f h = h a
Always-then Q failed f h = tt
Always-then Q out_of_fuel f h = tt

pub Always-elim {ℓ} :
    {A : Type ℓ} (P : A → Type 0) (m : Run A) {a : A} → Always P m → m ≡ ok a → P a
Always-elim P m h e = rw e at h

pub Always-lift {ℓ} : {A : Type ℓ} (P : A → Type 0) (o : Option A) → All? P o → Always P (lift o)
Always-lift P none h = tt
Always-lift P (some a) h = h

if-Always {ℓ} :
    {A : Type ℓ} (P : A → Type 0) (b : Bool) (x y : Run A)
    → Always P x
    → Always P y
    → Always P (if b then x else y)
if-Always P true x y h k = h
if-Always P false x y h k = k

-- What is assumed of the parts that are parameters: the search of the gix library finds what its
-- documentation says, and no object of the repository has the zero id in it.
pub record IsSafe (env : Env) : Type 0 where
  pub is_bisect : IsBisect env.bisect
  pub object_safe : (i : ℕ) → NoZero (env.object i)
  pub parse_safe : (s : Text) → All? NoZero (env.parse_id s)

-- The filters that are not modelled write no zero id, as in an environment where they fail.
abbrev pub OthersSafe : Env → Type 0
OthersSafe env = (f : Filter) (t : Obj) → NoZero t → All? NoZero (env.other f t)

module _ (env : Env) (safe : IsSafe env) where
  insert-Safe :
      (p : FilePath) (o : Obj) (m : Mode) → Fits o → Always NoZero (apply_insert env p o m)
  unfolding apply_insert
  insert-Safe p o m h =
      Always-lift NoZero (insert_oid env.bisect empty_id p o m)
        (insert_oid-NoZero env.bisect safe.is_bisect empty_id p o m tt h)

  object-Safe : (p : FilePath) (o : Obj) → NoZero o → Always NoZero (insert_object env p o)
  unfolding insert_object
  object-Safe p (blob b) h =
      if-Always NoZero (is_yes (FilePath-discrete p _)) _ _ tt
        (insert-Safe p (blob b) blob_mode (λ _. h))
  object-Safe p (tree es) h =
      if-Always NoZero (is_yes (FilePath-discrete p _)) _ _ h
        (insert-Safe p (tree es) tree_mode (λ _. h))
  object-Safe p (absent i) h = tt

  content-Safe : (p : FilePath) (c : InsertContent) → Always NoZero (insert_content env p c)
  unfolding insert_content
  content-Safe p (inline s) = object-Safe p (blob s) tt
  content-Safe p (oid i) = object-Safe p (env.object i) (safe.object_safe i)

  put-Safe : (p : FilePath) (o : Obj) → NoZero o → Always NoZero (put_object env p o)
  put-Safe p (blob b) h = insert-Safe p (blob b) blob_mode (λ _. h)
  put-Safe p (tree es) h = insert-Safe p (tree es) tree_mode (λ _. h)
  put-Safe p (absent i) h = tt

  found_tree-Safe : (e : Found) → NoZeroFound e → NoZero (found_tree env e)
  found_tree-Safe (some (some e)) h = if-NoZero (is_tree e.0) _ _ h tt
    where
      if-NoZero : (b : Bool) (x y : Obj) → NoZero x → NoZero y → NoZero (if b then x else y)
      if-NoZero true x y p q = p
      if-NoZero false x y p q = q
  found_tree-Safe (some none) h = tt
  found_tree-Safe none h = tt

  found_file-Safe : (e : Found) → NoZeroFound e → Fits (found_file env e).1
  found_file-Safe (some (some e)) h = NoZero-Fits e.1 h
  found_file-Safe (some none) h = zero-Fits
  found_file-Safe none h = zero-Fits

  ref-Safe : (p : FilePath) (t : Obj) (e : Found) → NoZero t → Always NoZero (ref_found env p t e)
  ref-Safe p t (some (some e)) h = insert-Safe p (blob (env.hex e.1)) blob_mode (λ _. tt)
  ref-Safe p t (some none) h = h
  ref-Safe p t none h = h

  put_deref-Safe :
      (p : FilePath) (o : Option Obj) → All? NoZero o → Always NoZero (put_deref env p o)
  put_deref-Safe p (some o) h = put-Safe p o h
  put_deref-Safe p none h = insert-Safe p (blob []) blob_mode (λ _. tt)

  deref_text-Safe : (p : FilePath) (s : Option Text) → Always NoZero (deref_text env p s)
  deref_text-Safe p none = tt
  deref_text-Safe p (some s) = put_deref-Safe p (env.parse_id s) (safe.parse_safe s)

  deref_content-Safe : (p : FilePath) (o : Obj) → Always NoZero (deref_content env p o)
  deref_content-Safe p (blob s) = deref_text-Safe p (from_utf8 s)
  deref_content-Safe p (tree es) = put_deref-Safe p none tt
  deref_content-Safe p (absent i) = put_deref-Safe p none tt

  deref-Safe :
      (p : FilePath) (t : Obj) (e : Found) → NoZero t → Always NoZero (deref_found env p t e)
  deref-Safe p t (some (some e)) h = deref_content-Safe p e.1
  deref-Safe p t (some none) h = h
  deref-Safe p t none h = h

-- Every object of a list.
abbrev pub AllSafe : List Obj → Type 0
AllSafe [] = Unit
AllSafe (u ∷ us) = NoZero u × AllSafe us

module _ (env : Env) (safe : IsSafe env) (r : Filter → Obj → Run Obj)
    (keeps : (g : Filter) (u : Obj) → NoZero u → Always NoZero (r g u)) where
  seq-Safe : (fs : Filters) (t : Obj) → NoZero t → Always NoZero (apply_seq env r fs t)
  unfolding apply_seq
  seq-Safe nil t h = h
  seq-Safe (cons f fs) t h =
      Always-bind NoZero NoZero (r f t) _ (keeps f t h) (λ u hu. seq-Safe fs u hu)

  each-Safe : (fs : Filters) (t : Obj) → NoZero t → Always AllSafe (apply_each env r fs t)
  unfolding apply_each
  each-Safe nil t h = tt
  each-Safe (cons f fs) t h = Always-bind NoZero AllSafe (r f t) _ (keeps f t h) λ u hu.
      Always-bind AllSafe AllSafe (apply_each env r fs t) _ (each-Safe fs t h) λ us hus. (hu, hus)

  compose-Safe :
      (fs : Filters) (result taken : Obj) (us : List Obj)
      → NoZero result
      → NoZero taken
      → AllSafe us
      → Always NoZero (compose_trees env r result taken fs us)
  unfolding compose_trees
  compose-Safe nil result taken us hr ht hs = hr
  compose-Safe (cons f fs) result taken [] hr ht hs = hr
  compose-Safe (cons f fs) result taken (u ∷ us) hr ht hs =
      Always-then NoZero (lift (invert f)) _ λ i. Always-then NoZero (lift (invert i)) _ λ g.
        Always-bind NoZero NoZero (r g taken) _ (keeps g taken ht) λ x hx.
          Always-bind NoZero NoZero (lift (Subtract.subtract env.bisect u x)) _
            (Always-lift NoZero (Subtract.subtract env.bisect u x)
              (subtract-NoZero env.bisect safe.is_bisect u x hs.0))
            λ y hy. Always-then NoZero (lift (invert g)) _ λ b.
              Always-bind NoZero NoZero (r b u) _ (keeps b u hs.0) λ z hz.
                Always-bind NoZero NoZero (lift (overlay env.bisect taken z)) _
                  (Always-lift NoZero (overlay env.bisect taken z)
                    (overlay-NoZero env.bisect safe.is_bisect taken z ht hz))
                  λ v hv.
                    Always-bind NoZero NoZero (lift (overlay env.bisect y result)) _
                      (Always-lift NoZero (overlay env.bisect y result)
                        (overlay-NoZero env.bisect safe.is_bisect y result hy hr))
                      λ w hw. compose-Safe fs w v us hw hv hs.1

  subtract-Safe : (a b : Obj) → NoZero a → Always NoZero (lift (Subtract.subtract env.bisect a b))
  subtract-Safe a b h =
      Always-lift NoZero (Subtract.subtract env.bisect a b)
        (subtract-NoZero env.bisect safe.is_bisect a b h)

  op-Safe : OthersSafe env → (f : Filter) (t : Obj) → NoZero t → Always NoZero (apply_op env r f t)
  unfolding apply_op apply_subdir apply_file apply_deref apply_ref
  op-Safe others nop t h = h
  op-Safe others empty t h = tt
  op-Safe others fold t h = h
  op-Safe others squash_none t h = h
  op-Safe others (author n e) t h = h
  op-Safe others (committer n e) t h = h
  op-Safe others (squash_some refs) t h = tt
  op-Safe others (message m x) t h = h
  op-Safe others prune t h = h
  op-Safe others export t h =
      Always-lift NoZero (insert_oid env.bisect t link_file zero_id blob_mode)
        (insert_oid-NoZero env.bisect safe.is_bisect t link_file zero_id blob_mode h zero-Fits)
  op-Safe others (rev arms) t h = tt
  op-Safe others (insert p c) t h = content-Safe env safe p c
  op-Safe others (file dest source) t h =
      insert-Safe env safe dest _ _
        (found_file-Safe env safe (get_path_entry t source) (get_path_entry-NoZero t source h))
  op-Safe others (subdir p) t h =
      found_tree-Safe env safe (get_path_entry t p) (get_path_entry-NoZero t p h)
  op-Safe others (prefix p) t h = insert-Safe env safe p t tree_mode (NoZero-Fits t h)
  op-Safe others (subtract a b) t h = Always-bind NoZero NoZero (r a t) _ (keeps a t h) λ af ha.
      Always-bind NoZero NoZero (r b t) _ (keeps b t h) λ bf hb.
        Always-then NoZero (lift (invert b)) _ λ i.
          Always-bind NoZero NoZero (r i bf) _ (keeps i bf hb) λ bu hu.
            Always-bind NoZero NoZero (r a bu) _ (keeps a bu hu) λ ba _. subtract-Safe af ba ha
  op-Safe others (exclude b) t h =
      Always-bind NoZero NoZero (r b t) _ (keeps b t h) λ bf _. subtract-Safe t bf h
  op-Safe others (select b) t h = Always-bind NoZero NoZero (r b t) _ (keeps b t h) λ bf _.
      Always-lift NoZero (intersect env.bisect t bf)
        (intersect-NoZero env.bisect safe.is_bisect t bf h)
  op-Safe others (tree_id p f) t h =
      Always-bind NoZero NoZero (r f t) _ (keeps f t h)
        λ u _. content-Safe env safe p (inline (env.hex u))
  op-Safe others (object_ref p) t h = ref-Safe env safe p t (get_path_entry t p) h
  op-Safe others (object_deref p) t h = deref-Safe env safe p t (get_path_entry t p) h
  op-Safe others (compose fs) t h =
      Always-bind AllSafe NoZero (apply_each env r fs t) _ (each-Safe fs t h)
        λ us hus. compose-Safe fs empty_id empty_id us tt tt hus
  op-Safe others (chain fs) t h = seq-Safe fs t h
  op-Safe others (hook x) t h = tt
  op-Safe others (embed p) t h = tt
  op-Safe others (pin f) t h = h
  op-Safe others (downstack x) t h = tt
  op-Safe others (meta m f) t h = keeps f t h
  op-Safe others f t h = Always-lift NoZero (env.other f t) (others f t h)

apply-Safe :
    (env : Env)
    → IsSafe env
    → OthersSafe env
    → (n : ℕ) (f : Filter) (t : Obj) → NoZero t
    → Always NoZero (apply env n f t)
unfolding apply
apply-Safe env safe others zero f t h = tt
apply-Safe env safe others (suc n) f t h =
    op-Safe env safe (apply env n) (λ g u hu. apply-Safe env safe others n g u hu) others f t h

pub run-others-NoZero :
    (env : Env) (f : Filter) (t : Obj) {r : Obj}
    → IsSafe env
    → OthersSafe env
    → NoZero t
    → run env f t ≡ ok r
    → NoZero r
unfolding run
run-others-NoZero env f t safe others h e =
    Always-elim NoZero (apply env (height f) f t) (apply-Safe env safe others (height f) f t h) e

pub closed-IsSafe : (env : Env) → IsSafe env → IsSafe (closed env)
closed-IsSafe env safe = record {
  is_bisect = safe.is_bisect;
  object_safe = safe.object_safe;
  parse_safe = safe.parse_safe;
}

-- In an environment in which lookup is right and no zero id is read, applying a filter to a tree
-- in which the zero id does not occur gives a tree in which it does not occur, if neither the
-- filter nor any that it applies is of a kind whose evaluation is not modelled: Paths, Adapt,
-- Link, Unlink, RegexReplace, Index, Invert, Workspace, Stored, Starlark, Pattern and Unapply.
pub run-NoZero :
    (env : Env) (f : Filter) (t : Obj) {r : Obj}
    → IsSafe env
    → IsKnown true f
    → NoZero t
    → run env f t ≡ ok r
    → NoZero r
run-NoZero env f t safe known h e =
    run-others-NoZero (closed env) f t (closed-IsSafe env safe) (λ g u k. tt) h
      (sym (run-closed env true f t known) ∙ e)
