-- ===== src/Apply/Eval.antt =====
-- `apply_impl` and `tree::compose` for a rewrite that holds a tree alone (`Rewrite::from_tree`), so
-- that what only changes a commit's author, committer or message is the identity.
use josh.Base.{ℕ, zero, suc, Bool, Option, none, some, List, [], ◌∷◌, Text, is_yes, if◌then◌else◌}
use josh.FilePath.{FilePath, FilePath-discrete, cur_dir, normal}
use josh.Filter.Op.{
  Filter, Filters, InsertContent, inline, oid, meta, nop, empty, fold, squash_none, squash_some,
  author, committer, rev, prune, hook, embed, insert, file, prefix, subdir, tree_id, object_deref,
  object_ref, message, export, compose, chain, subtract, exclude, select, pin, downstack, cons, nil,
}
use josh.Opt.Invert.{invert}
use josh.Tree.Object.{
  Mode, Obj, blob, tree, absent, tree_mode, blob_mode, empty_id, zero_id, is_tree,
}
use josh.Tree.Order.{Bisect}
use josh.Tree.Lookup.{Found, get_path_entry}
use josh.Tree.Insert.{insert_oid}
use josh.Tree.Subtract as Subtract
use josh.Tree.Intersect.{intersect}
use josh.Tree.Overlay.{overlay}
use josh.Persist.Utf8.{from_utf8}
use josh.Apply.Run.{Run, ok, failed, out_of_fuel, ◌>>=◌, lift}

-- What the evaluation takes from elsewhere: the gix library's search, the objects of the
-- repository by the ids that a filter names, ids as text, and the filters that are not modelled.
pub record Env : Type 0 where
  pub bisect : Bisect
  pub object : ℕ → Obj
  pub hex : Obj → Text
  pub parse_id : Text → Option Obj
  pub other : Filter → Obj → Option Obj

-- `.link.josh`
abbrev pub link_file : FilePath
link_file = normal (0x2e ∷ 0x6c ∷ 0x69 ∷ 0x6e ∷ 0x6b ∷ 0x2e ∷ 0x6a ∷ 0x6f ∷ 0x73 ∷ 0x68 ∷ []) ∷ []

-- `dest_path == Path::new(".")`
abbrev is_dot : FilePath → Bool
is_dot p = is_yes (FilePath-discrete p (cur_dir ∷ []))

module _ (env : Env) where
  open env use {bisect, object, hex, parse_id, other}

  unfoldable pub apply_insert : FilePath → Obj → Mode → Run Obj
  unfolding insert_oid
  apply_insert p o m = lift (insert_oid bisect empty_id p o m)

  -- `Insert` with a given object: at `.` only a tree is accepted.
  unfoldable pub insert_object : FilePath → Obj → Run Obj
  unfolding apply_insert
  insert_object p (blob b) = if is_dot p then failed else apply_insert p (blob b) blob_mode
  insert_object p (tree es) = if is_dot p then ok (tree es) else apply_insert p (tree es) tree_mode
  insert_object p (absent i) = failed

  unfoldable pub insert_content : FilePath → InsertContent → Run Obj
  unfolding insert_object
  insert_content p (inline s) = insert_object p (blob s)
  insert_content p (oid i) = insert_object p (object i)

  -- An error of a lookup counts as a miss here.
  abbrev pub found_tree : Option (Option (Mode × Obj)) → Obj
  found_tree (some (some e)) = if is_tree e.0 then e.1 else empty_id
  found_tree _ = empty_id

  unfoldable pub apply_subdir : FilePath → Obj → Obj
  unfolding get_path_entry
  apply_subdir p t = found_tree (get_path_entry t p)

  abbrev pub found_file : Option (Option (Mode × Obj)) → Mode × Obj
  found_file (some (some e)) = e
  found_file _ = (blob_mode, zero_id)

  unfoldable pub apply_file : FilePath → FilePath → Obj → Run Obj
  unfolding get_path_entry apply_insert
  apply_file dest source t =
      let e = found_file (get_path_entry t source) in apply_insert dest e.1 e.0

  abbrev pub put_object : FilePath → Obj → Run Obj
  put_object p (tree es) = apply_insert p (tree es) tree_mode
  put_object p (blob s) = apply_insert p (blob s) blob_mode
  put_object p (absent i) = failed

  -- A content that is no id stands for the empty blob.
  abbrev pub put_deref : FilePath → Option Obj → Run Obj
  put_deref p (some o) = put_object p o
  put_deref p none = apply_insert p (blob []) blob_mode

  -- A content that is not UTF-8 is an error.
  abbrev pub deref_text : FilePath → Option Text → Run Obj
  deref_text p none = failed
  deref_text p (some s) = put_deref p (parse_id s)

  abbrev pub deref_content : FilePath → Obj → Run Obj
  deref_content p (blob s) = deref_text p (from_utf8 s)
  deref_content p _ = put_deref p none

  abbrev pub deref_found : FilePath → Obj → Found → Run Obj
  deref_found p t (some (some e)) = deref_content p e.1
  deref_found p t _ = ok t

  unfoldable pub apply_deref : FilePath → Obj → Run Obj
  unfolding get_path_entry apply_insert from_utf8
  apply_deref p t = deref_found p t (get_path_entry t p)

  abbrev pub ref_found : FilePath → Obj → Found → Run Obj
  ref_found p t (some (some e)) = apply_insert p (blob (hex e.1)) blob_mode
  ref_found p t _ = ok t

  unfoldable pub apply_ref : FilePath → Obj → Run Obj
  unfolding get_path_entry apply_insert
  apply_ref p t = ref_found p t (get_path_entry t p)

  -- The elements of a chain one after the other.
  unfoldable pub apply_seq : (Filter → Obj → Run Obj) → Filters → Obj → Run Obj
  apply_seq rec nil t = ok t
  apply_seq rec (cons f fs) t = do u ← rec f t; apply_seq rec fs u

  -- Each element of a `Compose` on the same input.
  unfoldable pub apply_each : (Filter → Obj → Run Obj) → Filters → Obj → Run (List Obj)
  apply_each rec nil t = ok []
  apply_each rec (cons f fs) t = do u ← rec f t; us ← apply_each rec fs t; ok (u ∷ us)

  abbrev pub inverse : Filter → Run Filter
  inverse f = lift (invert f)

  -- `tree::compose`: what an earlier filter has taken from the input is not taken again.
  unfoldable pub compose_trees : (Filter → Obj → Run Obj) → Obj → Obj → Filters → List Obj → Run Obj
  unfolding invert overlay
  compose_trees rec result taken (cons f fs) (applied ∷ us) = do
    i ← inverse f
    g ← inverse i
    taken_applied ← rec g taken
    subtracted ← lift (Subtract.subtract bisect applied taken_applied)
    back ← inverse g
    unapplied ← rec back applied
    taken' ← lift (overlay bisect taken unapplied)
    result' ← lift (overlay bisect subtracted result)
    compose_trees rec result' taken' fs us
  compose_trees rec result taken _ _ = ok result

  -- One level of `apply_impl`, with the recursive calls as an argument.
  unfoldable pub apply_op : (Filter → Obj → Run Obj) → Filter → Obj → Run Obj
  unfolding insert_content apply_insert apply_subdir apply_file apply_deref apply_ref apply_seq
      apply_each compose_trees insert_oid intersect invert
  apply_op rec nop t = ok t
  apply_op rec empty t = ok empty_id
  apply_op rec fold t = ok t
  apply_op rec squash_none t = ok t
  apply_op rec (author n e) t = ok t
  apply_op rec (committer n e) t = ok t
  apply_op rec (squash_some refs) t = failed
  apply_op rec (message m r) t = ok t
  apply_op rec prune t = ok t
  apply_op rec export t = lift (insert_oid bisect t link_file zero_id blob_mode)
  apply_op rec (rev arms) t = failed
  apply_op rec (insert p c) t = insert_content p c
  apply_op rec (file dest source) t = apply_file dest source t
  apply_op rec (subdir p) t = ok (apply_subdir p t)
  apply_op rec (prefix p) t = apply_insert p t tree_mode
  apply_op rec (subtract a b) t = do
    af ← rec a t
    bf ← rec b t
    i ← inverse b
    bu ← rec i bf
    ba ← rec a bu
    lift (Subtract.subtract bisect af ba)
  apply_op rec (exclude b) t = do bf ← rec b t; lift (Subtract.subtract bisect t bf)
  apply_op rec (select b) t = do bf ← rec b t; lift (intersect bisect t bf)
  apply_op rec (tree_id p f) t = do u ← rec f t; insert_content p (inline (hex u))
  apply_op rec (object_ref p) t = apply_ref p t
  apply_op rec (object_deref p) t = apply_deref p t
  apply_op rec (compose fs) t = do
    us ← apply_each rec fs t
    compose_trees rec empty_id empty_id fs us
  apply_op rec (chain fs) t = apply_seq rec fs t
  apply_op rec (hook h) t = failed
  apply_op rec (embed p) t = failed
  apply_op rec (pin f) t = ok t
  apply_op rec (downstack r) t = failed
  apply_op rec (meta m f) t = rec f t
  apply_op rec f t = lift (other f t)

  unfoldable pub apply : ℕ → Filter → Obj → Run Obj
  unfolding apply_op
  apply zero f t = out_of_fuel
  apply (suc n) f t = apply_op (apply n) f t
