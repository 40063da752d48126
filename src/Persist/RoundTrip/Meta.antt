-- ===== src/Persist/RoundTrip/Meta.antt =====
-- The metadata of a filter is read back from among the entries of its tree, wherever the sort puts
-- the entry of the filter itself.
use mathlib.Core.List.{append-nil, append_assoc}
use josh.Base.{
  ℕ, zero, suc, false, some, [], ◌∷◌, ◌++◌, Text, text_eq, ◌≡◌, refl, ap, ◌∙◌, Bool-cases, inl, inr,
  if-true, if-false,
}
use josh.Filter.Op.{Filter, Meta, meta}
use josh.Tree.Object.{Obj, Entries, nil, tree, blob, blob_mode}
use josh.Apply.Run.{Run, ok, lift, >>=-eq-ok}
use josh.Metadata.{meta_put}
use josh.Opt.PrefixSort.{text_le}
use josh.Persist.Utf8.{bytes, IsUtf8}
use josh.Persist.RefText.{Codec}
use josh.Persist.Entries.{
  sort_entries, insert_entry, get_name, read_persisted, write_tree, blob_entry, tree_entry,
}
use josh.Persist.Entries.Order.{get_name-sort_entries}
use josh.Persist.Write.{meta_entries, tree_op}
use josh.Persist.Read.{read_op, read_meta_op, subfilter}
use josh.Persist.Read.Keys.{read_meta}
use josh.Persist.Storable.{AreAfterKey, IsSortedMeta, AreEntries}
use josh.Persist.RoundTrip.Keys.{text_le-false, text_eq-false}

abbrev meta_blobs : Meta → Entries
meta_blobs [] = nil
meta_blobs ((k, v) ∷ m) = blob_entry k v (meta_blobs m)

-- The entries with that of the filter behind the first `i`.
abbrev weave : ℕ → Meta → Obj → Entries
weave zero m o = tree_entry (bytes "0") o (meta_blobs m)
weave (suc i) [] o = tree_entry (bytes "0") o nil
weave (suc i) ((k, v) ∷ m) o = blob_entry k v (weave i m o)

insert_entry-blobs :
    (k v : Text) (m : Meta)
    → AreAfterKey k m
    → insert_entry blob_mode k (blob v) (meta_blobs m) ≡ blob_entry k v (meta_blobs m)
unfolding insert_entry
insert_entry-blobs k v [] h = refl
insert_entry-blobs k v ((k', v') ∷ m) (ne, le, rest) = if-true _ _ _ le

insert_entry-front :
    (k v : Text) (m : Meta) (o : Obj)
    → AreAfterKey k m
    → (j : ℕ) × (insert_entry blob_mode k (blob v) (tree_entry (bytes "0") o (meta_blobs m))
        ≡ weave j ((k, v) ∷ m) o)
unfolding insert_entry
insert_entry-front k v m o h = elim (Bool-cases (text_le k (bytes "0"))) [
  | inl e ↦ (1, if-true _ _ _ e)
  | inr e ↦
      (0, if-false _ _ _ e ∙ ap (λ es. tree_entry (bytes "0") o es) (insert_entry-blobs k v m h))
]

insert_entry-weave :
    (k v : Text) (i : ℕ) (m : Meta) (o : Obj)
    → AreAfterKey k m
    → (j : ℕ) × (insert_entry blob_mode k (blob v) (weave i m o) ≡ weave j ((k, v) ∷ m) o)
unfolding insert_entry
insert_entry-weave k v zero m o h = insert_entry-front k v m o h
insert_entry-weave k v (suc i) [] o h = insert_entry-front k v [] o h
insert_entry-weave k v (suc i) ((k', v') ∷ m) o (ne, le, rest) = (suc (suc i), if-true _ _ _ le)

sort_entries-meta_entries :
    (m : Meta) (o : Obj)
    → IsSortedMeta m
    → (i : ℕ) × (sort_entries (meta_entries m o) ≡ weave i m o)
unfolding sort_entries meta_entries
sort_entries-meta_entries [] o h = (0, refl)
sort_entries-meta_entries ((k, v) ∷ m) o (after, sorted) =
    let (i, woven) = sort_entries-meta_entries m o sorted in
    let (j, inserted) = insert_entry-weave k v i m o after in
    (j, ap (insert_entry blob_mode k (blob v)) woven ∙ inserted)

-- Every key is less than `k`.
abbrev AreBeforeKey : Meta → Text → Type 0
AreBeforeKey [] k = Unit
AreBeforeKey ((k', v) ∷ m) k = (text_eq k k' ≡ false) × (text_le k k' ≡ false) × AreBeforeKey m k

abbrev AllBeforeKeys : Meta → Meta → Type 0
AllBeforeKeys done [] = Unit
AllBeforeKeys done ((k, v) ∷ m) = AreBeforeKey done k × AllBeforeKeys done m

meta_put-last :
    (k v : Text) (done : Meta) → AreBeforeKey done k → meta_put k v done ≡ done ++ (k, v) ∷ []
unfolding meta_put
meta_put-last k v [] h = refl
meta_put-last k v ((k', v') ∷ done) (ne, nle, rest) =
    rw ne (rw nle (ap (λ m. (k', v') ∷ m) (meta_put-last k v done rest)))

AreBeforeKey-append :
    (done : Meta) (k v n : Text)
    → AreBeforeKey done n
    → text_eq n k ≡ false
    → text_le n k ≡ false
    → AreBeforeKey (done ++ (k, v) ∷ []) n
AreBeforeKey-append [] k v n h ne nle = (ne, nle, tt)
AreBeforeKey-append ((k', v') ∷ done) k v n (x, y, rest) ne nle =
    (x, y, AreBeforeKey-append done k v n rest ne nle)

AllBeforeKeys-append :
    (done : Meta) (k v : Text) (m : Meta)
    → AllBeforeKeys done m
    → AreAfterKey k m
    → AllBeforeKeys (done ++ (k, v) ∷ []) m
AllBeforeKeys-append done k v [] h after = tt
AllBeforeKeys-append done k v ((n, w) ∷ m) (h, hs) (ne, le, rest) = (
  AreBeforeKey-append done k v n h (text_eq-false k n ne) (text_le-false k n ne le),
  AllBeforeKeys-append done k v m hs rest,
)

-- An entry that is not that of the filter is put behind the others.
read_meta-entry :
    (done : Meta) (k v : Text) (es : Entries)
    → IsUtf8 k
    → IsUtf8 v
    → text_eq k (bytes "0") ≡ false
    → AreBeforeKey done k
    → read_meta done (blob_entry k v es) ≡ read_meta (done ++ (k, v) ∷ []) es
unfolding read_meta
read_meta-entry done k v es h h' ne before =
    rw h (rw ne (rw h' (rw (meta_put-last k v done before))))

read_meta-blobs :
    (done m : Meta)
    → AllBeforeKeys done m
    → IsSortedMeta m
    → AreEntries m
    → read_meta done (meta_blobs m) ≡ some (done ++ m)
unfolding read_meta
read_meta-blobs done [] before sorted es = rw (append-nil done)
read_meta-blobs done ((k, v) ∷ m) (h, hs) (after, sorted) (u, w, ne, es) =
    read_meta-entry done k v (meta_blobs m) u w ne h
    ∙ read_meta-blobs (done ++ (k, v) ∷ []) m (AllBeforeKeys-append done k v m hs after) sorted es
    ∙ ap some (append_assoc done ((k, v) ∷ []) m)

read_meta-weave :
    (done : Meta) (i : ℕ) (m : Meta) (o : Obj)
    → AllBeforeKeys done m
    → IsSortedMeta m
    → AreEntries m
    → read_meta done (weave i m o) ≡ some (done ++ m)
unfolding read_meta text_eq
read_meta-weave done zero m o before sorted es = read_meta-blobs done m before sorted es
read_meta-weave done (suc i) [] o before sorted es = rw (append-nil done)
read_meta-weave done (suc i) ((k, v) ∷ m) o (h, hs) (after, sorted) (u, w, ne, es) =
    read_meta-entry done k v (weave i m o) u w ne h
    ∙ read_meta-weave (done ++ (k, v) ∷ []) i m o (AllBeforeKeys-append done k v m hs after) sorted
        es
    ∙ ap some (append_assoc done ((k, v) ∷ []) m)

nothing_before : (m : Meta) → AllBeforeKeys [] m
nothing_before [] = tt
nothing_before ((k, v) ∷ m) = (tt, nothing_before m)

get_name-meta_entries :
    (m : Meta) (o : Obj) → AreEntries m → get_name (meta_entries m o) (bytes "0") ≡ some o
unfolding get_name meta_entries
get_name-meta_entries [] o h = refl
get_name-meta_entries ((k, v) ∷ m) o (u, w, ne, es) =
    if-false _ _ _ ne ∙ get_name-meta_entries m o es

module _ (c : Codec) (again : Obj → Run Filter) where
  -- The reader of the entries, wherever they stand.
  read_meta_op-entries :
      (m : Meta) (o : Obj) (f : Filter) (es : Entries)
      → get_name es (bytes "0") ≡ some o
      → read_meta [] es ≡ some m
      → subfilter c again o ≡ ok f
      → read_op c again (tree_op (bytes "meta") (tree es)) ≡ ok (meta m f)
  unfolding read_op tree_op read_meta_op subfilter
  read_meta_op-entries m o f es found metas h =
      let (child, is_there, read) = >>=-eq-ok (lift (read_persisted o)) (λ _. again o) h in
      rw found (rw is_there (rw metas (rw read)))

  pub read_meta-params :
      (m : Meta) (o : Obj) (f : Filter)
      → IsSortedMeta m
      → AreEntries m
      → subfilter c again o ≡ ok f
      → read_op c again (tree_op (bytes "meta") (write_tree (meta_entries m o))) ≡ ok (meta m f)
  unfolding write_tree
  read_meta-params m o f sorted es h =
      let (i, woven) = sort_entries-meta_entries m o sorted in
      let found =
        get_name-sort_entries (meta_entries m o) (bytes "0") ∙ get_name-meta_entries m o es in
      let metas : read_meta [] (sort_entries (meta_entries m o)) ≡ some m =
        ap (read_meta []) woven ∙ read_meta-weave [] i m o (nothing_before m) sorted es in
      read_meta_op-entries m o f (sort_entries (meta_entries m o)) found metas h
