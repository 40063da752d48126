-- ===== src/Persist/RoundTrip/Nested.antt =====
-- The operations that have filters in them are read back if the filters are.
use josh.Base.{◌==◌, false, Option, some, List, [], ◌∷◌, Text, ◌≡◌, ◌≢◌, length, ◌≤◌, arith}
use josh.Filter.Op.{
  Filter, RevMatch, LazyRef, compose, chain, subtract, rev, unapply, squash_some, no_refs, of_list,
}
use josh.Tree.Object.{Obj, Entries, tree_mode}
use josh.Apply.Run.{Run, ok, lift, ◌>>=◌}
use josh.Persist.Utf8.{bytes, IsUtf8}
use josh.Persist.RefText.{Codec, parse_lazy_ref}
use josh.Persist.Entries.{read_persisted, count}
use josh.Persist.Write.{filter_params, keyed, tree_op}
use josh.Persist.RoundTrip.Lists.{read_positions, read_names}
use josh.Persist.Read.{
  read_op, read_entry, read_each, subfilter, read_single, read_compose, read_chain, read_keyed,
  read_rev, read_unapply, read_squash,
}
use josh.Persist.Read.Keys.{of_arms, put_refs, read_rev_key}

module _ (c : Codec) (again : Obj → Run Filter) where
  abbrev pub ReadsNested : Text → (Entries → Run Filter) → Type 0
  ReadsNested name read =
      (o : Obj) → read_entry c again tree_mode name o ≡ (lift (read_persisted o) >>= read)

  pub read_single-params :
      (name : Text) (op : Filter → Filter) (o : Obj) (f : Filter)
      → ReadsNested name (read_single c again op)
      → subfilter c again o ≡ ok f
      → read_op c again (tree_op name (filter_params (o ∷ []))) ≡ ok (op f)
  unfolding read_op tree_op filter_params read_single
  read_single-params name op o f reads h = rw reads (rw h)

  pub read_subtract-params :
      (o o' : Obj) (f g : Filter)
      → subfilter c again o ≡ ok f
      → subfilter c again o' ≡ ok g
      → read_op c again (tree_op (bytes "subtract") (filter_params (o ∷ o' ∷ [])))
        ≡ ok (subtract f g)
  unfolding read_op tree_op filter_params
  read_subtract-params o o' f g h k = rw h (rw k)

  pub read_compose-params :
      (os : List Obj) (fs : List Filter)
      → length os ≤ 10
      → read_each (subfilter c again) os ≡ ok fs
      → read_op c again (tree_op (bytes "compose") (filter_params os)) ≡ ok (compose (of_list fs))
  unfolding read_op tree_op
  read_compose-params os fs le h =
      let (es, written, positions) = read_positions os le in
      rw written (rw (positions, read_compose) (rw h))

  pub read_chain-params :
      (os : List Obj) (fs : List Filter)
      → length os ≢ 0
      → read_each (subfilter c again) os ≡ ok fs
      → read_op c again (tree_op (bytes "chain") (filter_params os)) ≡ ok (chain (of_list fs))
  unfolding read_op tree_op read_chain
  read_chain-params os fs some_step h =
      let (es, written, counted, names) = read_names os in
      let some_entry : (count es == 0) ≡ false = ground arith in
      rw written (rw some_entry (rw names (rw h)))

  -- A key and a filter are read back.
  pub read_keyed-keyed :
      {K : Type 0} (parse : Text → Option K) (key : Text) (k : K) (o : Obj) (f : Filter)
      → IsUtf8 key
      → parse key ≡ some k
      → subfilter c again o ≡ ok f
      → read_keyed c again parse (keyed key o) ≡ ok (k, f)
  unfolding read_keyed keyed
  read_keyed-keyed parse key k o f h e sub = rw h (rw e (rw sub))

  pub read_rev-params :
      (os : List Obj) (arms : List ((RevMatch × LazyRef) × Filter))
      → read_each (read_keyed c again (read_rev_key c)) os ≡ ok arms
      → read_op c again (tree_op (bytes "rev") (filter_params os)) ≡ ok (rev (of_arms arms))
  unfolding read_op tree_op read_rev
  read_rev-params os arms h =
      let (es, written, counted, names) = read_names os in rw written (rw names (rw h))

  pub read_squash-params :
      (os : List Obj) (pairs : List (LazyRef × Filter))
      → length os ≤ 10
      → read_each (read_keyed c again (parse_lazy_ref c)) os ≡ ok pairs
      → read_op c again (tree_op (bytes "squash") (filter_params os))
        ≡ ok (squash_some (put_refs no_refs pairs))
  unfolding read_op tree_op read_squash
  read_squash-params os pairs le h =
      let (es, written, positions) = read_positions os le in rw written (rw positions (rw h))

  pub read_unapply-params :
      (o : Obj) (r : LazyRef) (f : Filter)
      → read_keyed c again (parse_lazy_ref c) o ≡ ok (r, f)
      → read_op c again (tree_op (bytes "unapply") (filter_params (o ∷ []))) ≡ ok (unapply r f)
  unfolding read_op tree_op filter_params read_unapply
  read_unapply-params o r f h = rw h
