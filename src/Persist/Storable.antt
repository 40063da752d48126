-- ===== src/Persist/Storable.antt =====
-- The filters that the persisted form of josh-filter/src/persist.rs keeps: their texts are UTF-8 and
-- of the form that the reader expects, lists that are read by position have at most ten elements.
use Prim.Native.Nat.{max}
use josh.Base.{ℕ, suc, ◌≤◌, true, false, List, [], ◌∷◌, length, Text, text_eq, ◌≡◌}
use josh.Filter.Op.{
  Filter, Filters, Arms, RefMap, LazyRef, RevMatch, InsertContent, Meta, inline, oid, default,
  resolved, meta, adapt, embed, squash_some, author, committer, rev, regex_replace, hook, insert,
  file, prefix, subdir, workspace, stored, starlark, tree_id, object_deref, object_ref, pattern,
  message, unapply, compose, chain, subtract, exclude, select, pin, downstack, nil, cons, no_arms,
  arm, no_refs, ref,
}
use josh.Opt.PrefixSort.{text_le}
use josh.Refs.{lazy_ref_less}
use josh.Persist.Utf8.{bytes, IsUtf8}
use josh.Persist.PathText.{IsPath}
use josh.Persist.RefText.{Codec, IsRef}

-- Every key is greater than `k`, in the order of strings.
abbrev pub AreAfterKey : Text → Meta → Type 0
AreAfterKey k [] = Unit
AreAfterKey k ((k', v) ∷ m) = (text_eq k k' ≡ false) × (text_le k k' ≡ true) × AreAfterKey k m

-- The keys of a `BTreeMap` increase.
abbrev pub IsSortedMeta : Meta → Type 0
IsSortedMeta [] = Unit
IsSortedMeta ((k, v) ∷ m) = AreAfterKey k m × IsSortedMeta m

-- No key takes the name of the filter's entry.
abbrev pub AreEntries : Meta → Type 0
AreEntries [] = Unit
AreEntries ((k, v) ∷ m) = IsUtf8 k × IsUtf8 v × (text_eq k (bytes "0") ≡ false) × AreEntries m

abbrev pub IsStorableKey : RevMatch → LazyRef → Type 0
IsStorableKey default r = r ≡ resolved 0
IsStorableKey _ r = IsRef r

abbrev pub IsStorableContent : InsertContent → Type 0
IsStorableContent (inline s) = IsUtf8 s
IsStorableContent (oid i) = Unit

abbrev pub length_all : Filters → ℕ
length_all nil = 0
length_all (cons f fs) = suc (length_all fs)

abbrev pub length_refs : RefMap → ℕ
length_refs no_refs = 0
length_refs (ref r f refs) = suc (length_refs refs)

-- Every key is greater than `r`.
abbrev pub AreAfterRef : LazyRef → RefMap → Type 0
AreAfterRef r no_refs = Unit
AreAfterRef r (ref r' f refs) = (lazy_ref_less r r' ≡ true) × AreAfterRef r refs

abbrev pub IsSortedRefs : RefMap → Type 0
IsSortedRefs no_refs = Unit
IsSortedRefs (ref r f refs) = AreAfterRef r refs × IsSortedRefs refs

abbrev pub AreRegexes : Codec → List (Text × Text) → Type 0
AreRegexes c [] = Unit
AreRegexes c ((re, text) ∷ pairs) =
    IsUtf8 re × IsUtf8 text × (c.is_regex re ≡ true) × AreRegexes c pairs

abbrev mutual
  pub IsStorable : Codec → Filter → Type 0
  IsStorable c (meta m f) = IsSortedMeta m × AreEntries m × IsStorable c f
  IsStorable c (adapt s) = IsUtf8 s
  IsStorable c (embed p) = IsPath p
  IsStorable c (squash_some refs) =
      (length_refs refs ≤ 10) × IsSortedRefs refs × AreStorableRefs c refs
  IsStorable c (author name email) = IsUtf8 name × IsUtf8 email
  IsStorable c (committer name email) = IsUtf8 name × IsUtf8 email
  IsStorable c (rev arms) = AreStorableArms c arms
  IsStorable c (regex_replace pairs) = (length pairs ≤ 10) × AreRegexes c pairs
  IsStorable c (hook s) = IsUtf8 s
  IsStorable c (insert p content) = IsPath p × IsStorableContent content
  IsStorable c (file dest src) = IsPath dest × IsPath src
  IsStorable c (prefix p) = IsPath p
  IsStorable c (subdir p) = IsPath p
  IsStorable c (workspace p) = IsPath p
  IsStorable c (stored p) = IsPath p
  IsStorable c (starlark p f) = ⊥
  IsStorable c (tree_id p f) = ⊥
  IsStorable c (object_deref p) = IsPath p
  IsStorable c (object_ref p) = IsPath p
  IsStorable c (pattern glob) = IsUtf8 glob × (c.is_glob glob ≡ true)
  IsStorable c (message fmt re) = IsUtf8 fmt × IsUtf8 re × (c.is_regex re ≡ true)
  IsStorable c (unapply r f) = IsRef r × IsStorable c f
  IsStorable c (compose fs) = (length_all fs ≤ 10) × AreStorable c fs
  IsStorable c (chain nil) = ⊥
  IsStorable c (chain (cons f fs)) = AreStorable c (cons f fs)
  IsStorable c (subtract a b) = IsStorable c a × IsStorable c b
  IsStorable c (exclude f) = IsStorable c f
  IsStorable c (select f) = IsStorable c f
  IsStorable c (pin f) = IsStorable c f
  IsStorable c (downstack r) = IsRef r
  IsStorable c _ = Unit

  pub AreStorable : Codec → Filters → Type 0
  AreStorable c nil = Unit
  AreStorable c (cons f fs) = IsStorable c f × AreStorable c fs

  pub AreStorableArms : Codec → Arms → Type 0
  AreStorableArms c no_arms = Unit
  AreStorableArms c (arm m r f arms) = IsStorableKey m r × IsStorable c f × AreStorableArms c arms

  pub AreStorableRefs : Codec → RefMap → Type 0
  AreStorableRefs c no_refs = Unit
  AreStorableRefs c (ref r f refs) = IsRef r × IsStorable c f × AreStorableRefs c refs

-- How deep filters are nested in one another.
unfoldable mutual
  pub levels : Filter → ℕ
  levels (meta m f) = suc (levels f)
  levels (squash_some refs) = suc (levels_refs refs)
  levels (rev arms) = suc (levels_arms arms)
  levels (starlark p f) = suc (levels f)
  levels (tree_id p f) = suc (levels f)
  levels (unapply r f) = suc (levels f)
  levels (compose fs) = suc (levels_all fs)
  levels (chain fs) = suc (levels_all fs)
  levels (subtract a b) = suc (max (levels a) (levels b))
  levels (exclude f) = suc (levels f)
  levels (select f) = suc (levels f)
  levels (pin f) = suc (levels f)
  levels _ = 1

  pub levels_all : Filters → ℕ
  levels_all nil = 0
  levels_all (cons f fs) = max (levels f) (levels_all fs)

  pub levels_arms : Arms → ℕ
  levels_arms no_arms = 0
  levels_arms (arm m r f arms) = max (levels f) (levels_arms arms)

  pub levels_refs : RefMap → ℕ
  levels_refs no_refs = 0
  levels_refs (ref r f refs) = max (levels f) (levels_refs refs)
