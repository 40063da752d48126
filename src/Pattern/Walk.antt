-- ===== src/Pattern/Walk.antt =====
-- `remove_pred` and `remove_pattern` of josh-core/src/filter/tree.rs. A tree is rebuilt from its last
-- entry to its first; results do not depend on the cache.
use josh.Base.{
  ℕ, zero, suc, Bool, true, false, not, ◌&&◌, ◌||◌, Option, none, some, List, [], ◌∷◌, ◌++◌, length,
  Text, ltb, ◌==◌, if◌then◌else◌, ◌>>=◌,
}
use josh.Tree.Object.{
  Mode, tree_mode, commit_mode, file_mode, Obj, Entries, tree, nil, entry, obj_eq, empty_id,
}
use josh.Persist.Utf8.{from_utf8}
use josh.Pattern.Mask.{set, set_bits}
use josh.Pattern.Compile.{
  Glob, PatternComponent, CompiledPattern, star2, glob, closure, initial_state,
}

-- `TreeRebuild`
pub record TreeRebuild : Type 0 where
  pub out : Entries
  pub changed : Bool

unfoldable pub finish_tree : Obj → TreeRebuild → Obj
finish_tree input r = if r.changed then tree r.out else input

-- What is put before the entries that come later.
unfoldable pub put_tree : Text → Obj → Obj → TreeRebuild → TreeRebuild
put_tree k o s r =
    let gone = obj_eq s empty_id in
    record {
      out = if gone then r.out else entry tree_mode k s r.out;
      changed = not (obj_eq s o) || gone || r.changed;
    }

abbrev pub drop_entry : TreeRebuild → TreeRebuild
drop_entry r = record r { changed = true }

unfoldable pub put_blob : Bool → Mode → Text → Obj → TreeRebuild → TreeRebuild
put_blob true m k o r = record r { out = entry m k o r.out }
put_blob false m k o r = drop_entry r

-- The path of an entry in the buffer.
abbrev pub push_name : Text → Text → Text
push_name [] k = k
push_name (c ∷ p) k = (c ∷ p) ++ b'/' ∷ k

module _ (pred : Text → Bool) where
  unfoldable mutual
    unfolding from_utf8 finish_tree put_tree put_blob

    pub remove_pred : Text → Obj → Option Obj
    remove_pred path (tree es) = do r ← pred_entries path es; some (finish_tree (tree es) r)
    remove_pred path _ = none

    pub pred_entries : Text → Entries → Option TreeRebuild
    pred_entries path nil = some (record { out = nil; changed = false })
    pred_entries path (entry tree_mode k o es) = do
      name ← from_utf8 k
      s ← remove_pred (push_name path name) o
      r ← pred_entries path es
      some (put_tree k o s r)
    pred_entries path (entry commit_mode k o es) = do
      name ← from_utf8 k
      r ← pred_entries path es
      some (drop_entry r)
    pred_entries path (entry (file_mode m) k o es) = do
      name ← from_utf8 k
      r ← pred_entries path es
      some (put_blob (pred (push_name path name)) (file_mode m) k o r)

-- An index out of range.
unfoldable pub get_elem? {ℓ} : {A : Type ℓ} → List A → ℕ → Option A
get_elem? [] i = none
get_elem? (x ∷ xs) zero = some x
get_elem? (x ∷ xs) (suc i) = get_elem? xs i

abbrev pub starts_with_dot : Text → Bool
starts_with_dot [] = false
starts_with_dot (c ∷ s) = c == b'.'

module _ (g : Glob) (cs : List PatternComponent) (stars : List Bool) where
  unfoldable pub accepts_at : PatternComponent → ℕ → Option Bool
  unfolding get_elem?
  accepts_at (glob ts) p = some (suc p == length cs)
  accepts_at star2 p = get_elem? stars p

  unfoldable pub accepts_blobs : List ℕ → Option Bool
  unfolding accepts_at
  accepts_blobs [] = some false
  accepts_blobs (p ∷ ps) = do
    c ← get_elem? cs p
    here ← accepts_at c p
    later ← accepts_blobs ps
    some (here || later)

  -- What one position adds to the successor state.
  unfoldable pub advance : Text → PatternComponent → ℕ → ℕ → ℕ
  advance name (glob ts) p next =
      if ltb (suc p) (length cs) && g.token_matches ts name then set (suc p) next else next
  advance name star2 p next = if starts_with_dot name then next else set p next

  unfoldable pub next_state : Text → List ℕ → ℕ → Option ℕ
  unfolding get_elem? advance
  next_state name [] next = some next
  next_state name (p ∷ ps) next = do c ← get_elem? cs p; next_state name ps (advance name c p next)

  unfoldable pub keeps_at : Text → PatternComponent → ℕ → Option Bool
  unfolding get_elem?
  keeps_at name (glob ts) p = some (suc p == length cs && g.token_matches ts name)
  keeps_at name star2 p = do
    all_stars ← get_elem? stars p
    some (all_stars && not (starts_with_dot name))

  -- The loop ends at the first position that keeps the blob.
  unfoldable pub keeps : Text → List ℕ → Option Bool
  unfolding keeps_at
  keeps name [] = some false
  keeps name (p ∷ ps) =
      let rest = keeps name ps in
      get_elem? cs p >>= λ c. keeps_at name c p >>= λ here. if here then some true else rest

  unfoldable mutual
    unfolding from_utf8 finish_tree put_tree put_blob closure set_bits accepts_blobs next_state
        keeps

    pub remove_pattern : Obj → ℕ → Option Obj
    remove_pattern (tree es) m = do
      let state = closure cs m
      accepts ← accepts_blobs (set_bits state)
      r ← pattern_entries es state accepts
      some (finish_tree (tree es) r)
    remove_pattern _ m = none

    pub pattern_entries : Entries → ℕ → Bool → Option TreeRebuild
    pattern_entries nil state accepts = some (record { out = nil; changed = false })
    pattern_entries (entry tree_mode k o es) state accepts = do
      name ← from_utf8 k
      next ← next_state name (set_bits state) 0
      let below = remove_pattern o next
      s ← if next == 0 then some empty_id else below
      r ← pattern_entries es state accepts
      some (put_tree k o s r)
    pattern_entries (entry commit_mode k o es) state accepts = do
      name ← from_utf8 k
      r ← pattern_entries es state accepts
      some (drop_entry r)
    pattern_entries (entry (file_mode m) k o es) state accepts = do
      name ← from_utf8 k
      keep ← if accepts then keeps name (set_bits state) else some false
      r ← pattern_entries es state accepts
      some (put_blob keep (file_mode m) k o r)

-- `Op::Pattern` in `apply_impl` of josh-core/src/filter/mod.rs.
unfoldable pub apply_pattern : Glob → CompiledPattern → Obj → Option Obj
unfolding remove_pred remove_pattern
apply_pattern g cp input =
    if cp.fallback
    then remove_pred (g.full_matches cp.full) [] input
    else remove_pattern g cp.components cp.suffix_all_star input initial_state
