-- ===== src/Refs.antt =====
-- `lazy_refs` and `resolve_refs` of josh-core/src/filter/mod.rs: the names of refs in a filter, and
-- the filter with objects for names.
pub mod Names
pub mod Resolved
use josh.Base.{
  ℕ, ◌<◌, Bool, true, false, Option, none, some, List, [], ◌∷◌, ◌++◌, Text, text_eq, ltb, is_yes,
  ℕ_discrete, if◌then◌else◌,
}
use josh.Filter.Op.{
  Filter, Filters, Arms, RefMap, LazyRef, resolved, lazy, meta, compose, chain, subtract, exclude,
  select, pin, rev, squash_some, downstack, nil, cons, no_arms, arm, no_refs, ref,
}
use josh.Opt.PrefixSort.{text_le}

-- `sort` of strings.
unfoldable pub insert_sorted : Text → List Text → List Text
unfolding text_le
insert_sorted s [] = s ∷ []
insert_sorted s (t ∷ ts) =
    let later = t ∷ insert_sorted s ts in if text_le s t then s ∷ t ∷ ts else later

unfoldable pub sorted : List Text → List Text
unfolding insert_sorted
sorted [] = []
sorted (s ∷ ss) = insert_sorted s (sorted ss)

-- `dedup` of strings.
unfoldable pub deduped : List Text → List Text
unfolding text_eq
deduped [] = []
deduped (s ∷ []) = s ∷ []
deduped (s ∷ t ∷ ts) =
    let rest = deduped (t ∷ ts) in let both = s ∷ rest in if text_eq s t then rest else both

unfoldable pub tidy : List Text → List Text
unfolding sorted deduped
tidy ss = deduped (sorted ss)

-- The name of a ref that is not resolved.
abbrev pub name_of : LazyRef → List Text
name_of (lazy s) = s ∷ []
name_of (resolved i) = []

unfoldable pub arm_names : Arms → List Text
arm_names no_arms = []
arm_names (arm m r f rest) = name_of r ++ arm_names rest

unfoldable pub key_names : RefMap → List Text
key_names no_refs = []
key_names (ref r f rest) = name_of r ++ key_names rest

-- `Meta` wrappers are peeled off.
unfoldable mutual
  unfolding tidy arm_names key_names

  pub lazy_refs : Filter → List Text
  lazy_refs (meta m f) = lazy_refs f
  lazy_refs (compose fs) = tidy (lazy_refs_each fs)
  lazy_refs (chain fs) = tidy (lazy_refs_each fs)
  lazy_refs (exclude f) = tidy (lazy_refs f)
  lazy_refs (select f) = tidy (lazy_refs f)
  lazy_refs (pin f) = tidy (lazy_refs f)
  lazy_refs (subtract a b) = tidy (lazy_refs a ++ lazy_refs b)
  lazy_refs (rev arms) = tidy (tidy (tidy (lazy_refs_arms arms) ++ arm_names arms))
  lazy_refs (squash_some refs) = tidy (key_names refs)
  lazy_refs (downstack r) = tidy (name_of r)
  lazy_refs _ = []

  pub lazy_refs_each : Filters → List Text
  lazy_refs_each nil = []
  lazy_refs_each (cons f fs) = lazy_refs f ++ lazy_refs_each fs

  pub lazy_refs_arms : Arms → List Text
  lazy_refs_arms no_arms = []
  lazy_refs_arms (arm m r f rest) = lazy_refs f ++ lazy_refs_arms rest

-- The order of `LazyRef`, which is derived; an object id is ordered as a number.
unfoldable pub lazy_ref_less : LazyRef → LazyRef → Bool
unfolding text_le
lazy_ref_less (resolved i) (resolved j) = ltb i j
lazy_ref_less (resolved i) (lazy t) = true
lazy_ref_less (lazy s) (resolved j) = false
lazy_ref_less (lazy s) (lazy t) = if text_eq s t then false else text_le s t

unfoldable pub LazyRef-discrete : Discrete LazyRef
LazyRef-discrete = hlevel ℕ_discrete

-- `BTreeMap::insert`
unfoldable pub put_ref : LazyRef → Filter → RefMap → RefMap
unfolding lazy_ref_less
put_ref k f no_refs = ref k f no_refs
put_ref k f (ref k' f' rest) =
    let later = ref k' f' (put_ref k f rest) in
    if is_yes (LazyRef-discrete k k')
    then ref k f rest
    else (if lazy_ref_less k k' then ref k f (ref k' f' rest) else later)

-- What the map has for a name takes its place.
abbrev pub chosen : Text → Option ℕ → LazyRef
chosen s (some i) = resolved i
chosen s none = lazy s

-- `refs` is the map of the names.
module _ (refs : Text → Option ℕ) where
  abbrev pub resolve_ref : LazyRef → LazyRef
  resolve_ref (lazy s) = chosen s (refs s)
  resolve_ref (resolved i) = resolved i

  unfoldable pub resolve_keys : RefMap → RefMap → RefMap
  unfolding put_ref
  resolve_keys done no_refs = done
  resolve_keys done (ref r f rest) = resolve_keys (put_ref (resolve_ref r) f done) rest

  unfoldable mutual
    unfolding resolve_keys

    pub resolve_refs : Filter → Filter
    resolve_refs (compose fs) = compose (resolve_refs_each fs)
    resolve_refs (chain fs) = chain (resolve_refs_each fs)
    resolve_refs (exclude f) = exclude (resolve_refs f)
    resolve_refs (select f) = select (resolve_refs f)
    resolve_refs (pin f) = pin (resolve_refs f)
    resolve_refs (subtract a b) = subtract (resolve_refs a) (resolve_refs b)
    resolve_refs (rev arms) = rev (resolve_refs_arms arms)
    resolve_refs (squash_some map) = squash_some (resolve_keys no_refs map)
    resolve_refs (downstack r) = downstack (resolve_ref r)
    resolve_refs f = f

    pub resolve_refs_each : Filters → Filters
    resolve_refs_each nil = nil
    resolve_refs_each (cons f fs) = cons (resolve_refs f) (resolve_refs_each fs)

    pub resolve_refs_arms : Arms → Arms
    resolve_refs_arms no_arms = no_arms
    resolve_refs_arms (arm m r f rest) =
        arm m (resolve_ref r) (resolve_refs f) (resolve_refs_arms rest)
