-- ===== src/Persist/RoundTrip/Keys.antt =====
-- The keys of the arms of `Rev` are read back, and a sorted map of refs is built again in its order.
use josh.Base.{
  true, false, none, some, List, [], ◌∷◌, Text, ◌≡◌, ◌≢◌, refl, sym, ap, ◌∙◌, all, arith,
  is_yes-false, text_eq, text_eq→eq, text_eq_refl, Bool-cases, inl, inr,
}
use josh.Filter.Op.{
  Filter, RevMatch, LazyRef, RefMap, ancestor_strict, ancestor_inclusive, equal, default, resolved,
  lazy, no_refs, ref,
}
use josh.Refs.{lazy_ref_less, put_ref, LazyRef-discrete}
use josh.Persist.Utf8.{bytes, IsUtf8, utf8_run}
use josh.Persist.RefText.{
  Codec, IsCodec, lazy_ref_text, is_hex_digit, all-cons, parse_lazy_ref-lazy_ref_text,
  lazy_ref_text-IsUtf8,
}
use josh.Persist.Write.{rev_key}
use josh.Opt.PrefixSort.{text_le}
use josh.Persist.Read.Keys.{strip_prefix, read_rev_key, put_refs}
use josh.Persist.Storable.{IsStorableKey, AreAfterRef, IsSortedRefs}

module _ (c : Codec) (laws : IsCodec c) where
  hex_not_equals : (s : Text) → all is_hex_digit s ≡ true → strip_prefix (bytes "=") s ≡ none
  unfolding strip_prefix
  hex_not_equals [] h = refl
  hex_not_equals (d ∷ s) h = let (digit, rest) = all-cons is_hex_digit d s h in ground (arith)

  ref_not_equals : (r : LazyRef) → strip_prefix (bytes "=") (lazy_ref_text c r) ≡ none
  unfolding strip_prefix lazy_ref_text
  ref_not_equals (resolved i) = hex_not_equals (c.hex i) (laws.hex_digits i)
  ref_not_equals (lazy s) = refl

  pub read_rev_key-rev_key :
      (m : RevMatch) (r : LazyRef)
      → IsStorableKey m r
      → read_rev_key c (rev_key c m r) ≡ some (m, r)
  unfolding read_rev_key rev_key
  read_rev_key-rev_key ancestor_strict r h =
      rw (ref_not_equals r) (rw (parse_lazy_ref-lazy_ref_text c laws r h))
  read_rev_key-rev_key ancestor_inclusive r h = rw (parse_lazy_ref-lazy_ref_text c laws r h)
  read_rev_key-rev_key equal r h = rw (parse_lazy_ref-lazy_ref_text c laws r h)
  read_rev_key-rev_key default r h = rw h

  pub rev_key-IsUtf8 : (m : RevMatch) (r : LazyRef) → IsStorableKey m r → IsUtf8 (rev_key c m r)
  unfolding rev_key utf8_run
  rev_key-IsUtf8 ancestor_strict r h = lazy_ref_text-IsUtf8 c laws r h
  rev_key-IsUtf8 ancestor_inclusive r h = lazy_ref_text-IsUtf8 c laws r h
  rev_key-IsUtf8 equal r h = lazy_ref_text-IsUtf8 c laws r h
  rev_key-IsUtf8 default r h = refl

pub text_le_antisymm : (s t : Text) → text_le s t ≡ true → text_le t s ≡ true → s ≡ t
unfolding text_le
text_le_antisymm [] [] h k = refl
text_le_antisymm [] (y ∷ t) h k = absurd (cc)
text_le_antisymm (x ∷ s) [] h k = absurd (cc)
text_le_antisymm (x ∷ s) (y ∷ t) h k = ground (arith, text_le_antisymm s t)

pub text_eq-false : (s t : Text) → text_eq s t ≡ false → text_eq t s ≡ false
text_eq-false s t h = elim (Bool-cases (text_eq t s)) [
  | inl e ↦
      let same : text_eq s s ≡ false = ap (text_eq s) (sym (text_eq→eq t s e)) ∙ h in
      absurd (cc (text_eq_refl s))
  | inr e ↦ e
]

-- Of two different strings one is after the other.
pub text_le-false : (s t : Text) → text_eq s t ≡ false → text_le s t ≡ true → text_le t s ≡ false
text_le-false s t h k = elim (Bool-cases (text_le t s)) [
  | inl e ↦
      let same : text_eq s s ≡ false = ap (text_eq s) (text_le_antisymm s t k e) ∙ h in
      cc (text_eq_refl s)
  | inr e ↦ e
]

lazy_ref_less_asymm : (k r : LazyRef) → lazy_ref_less k r ≡ true → lazy_ref_less r k ≡ false
unfolding lazy_ref_less
lazy_ref_less_asymm (resolved i) (resolved j) h = ground arith
lazy_ref_less_asymm (resolved i) (lazy t) h = refl
lazy_ref_less_asymm (lazy s) (resolved j) h = absurd (cc)
lazy_ref_less_asymm (lazy s) (lazy t) h =
    ground (arith, text_le-false s t, text_eq→eq t s, text_eq→eq s t, text_eq_refl s)

lazy_ref_less-ne : (k r : LazyRef) → lazy_ref_less k r ≡ true → r ≢ k
lazy_ref_less-ne k r h e =
    let h' : lazy_ref_less k k ≡ true = ap (lazy_ref_less k) (sym e) ∙ h in
    cc (lazy_ref_less_asymm k k h')

abbrev append_refs : RefMap → RefMap → RefMap
append_refs no_refs rs = rs
append_refs (ref k f done) rs = ref k f (append_refs done rs)

-- The keys that are there are before `r`.
abbrev AreBefore : RefMap → LazyRef → Type 0
AreBefore no_refs r = Unit
AreBefore (ref k f done) r = (lazy_ref_less k r ≡ true) × AreBefore done r

abbrev AllBefore : RefMap → RefMap → Type 0
AllBefore done no_refs = Unit
AllBefore done (ref r f refs) = AreBefore done r × AllBefore done refs

put_ref-last :
    (done : RefMap) (r : LazyRef) (f : Filter)
    → AreBefore done r
    → put_ref r f done ≡ append_refs done (ref r f no_refs)
unfolding put_ref
put_ref-last no_refs r f h = refl
put_ref-last (ref k g done) r f (h, rest) =
    let other = is_yes-false (LazyRef-discrete r k) (lazy_ref_less-ne k r h) in
    let after = lazy_ref_less_asymm k r h in
    rw other (rw after (ap (ref k g) (put_ref-last done r f rest)))

AreBefore-append :
    (done : RefMap) (k r : LazyRef) (f : Filter)
    → AreBefore done r
    → lazy_ref_less k r ≡ true
    → AreBefore (append_refs done (ref k f no_refs)) r
AreBefore-append no_refs k r f h e = (e, tt)
AreBefore-append (ref k' g done) k r f (h, rest) e = (h, AreBefore-append done k r f rest e)

AllBefore-append :
    (done : RefMap) (k : LazyRef) (f : Filter) (refs : RefMap)
    → AllBefore done refs
    → AreAfterRef k refs
    → AllBefore (append_refs done (ref k f no_refs)) refs
AllBefore-append done k f no_refs h e = tt
AllBefore-append done k f (ref r g refs) (h, hs) (e, es) =
    (AreBefore-append done k r f h e, AllBefore-append done k f refs hs es)

append_refs_assoc :
    (done : RefMap) (k : LazyRef) (f : Filter) (refs : RefMap)
    → append_refs (append_refs done (ref k f no_refs)) refs ≡ append_refs done (ref k f refs)
append_refs_assoc no_refs k f refs = refl
append_refs_assoc (ref k' g done) k f refs = ap (ref k' g) (append_refs_assoc done k f refs)

append_refs-no_refs : (done : RefMap) → append_refs done no_refs ≡ done
append_refs-no_refs no_refs = refl
append_refs-no_refs (ref k f done) = ap (ref k f) (append_refs-no_refs done)

abbrev pub ref_pairs : RefMap → List (LazyRef × Filter)
ref_pairs no_refs = []
ref_pairs (ref r f refs) = (r, f) ∷ ref_pairs refs

put_refs-append :
    (done refs : RefMap)
    → AllBefore done refs
    → IsSortedRefs refs
    → put_refs done (ref_pairs refs) ≡ append_refs done refs
unfolding put_refs
put_refs-append done no_refs h sorted = sym (append_refs-no_refs done)
put_refs-append done (ref r f refs) (h, hs) (first, sorted) =
    ap (λ d. put_refs d (ref_pairs refs)) (put_ref-last done r f h)
    ∙ put_refs-append (append_refs done (ref r f no_refs)) refs
        (AllBefore-append done r f refs hs first) sorted
    ∙ append_refs_assoc done r f refs

nothing_before : (refs : RefMap) → AllBefore no_refs refs
nothing_before no_refs = tt
nothing_before (ref r f refs) = (tt, nothing_before refs)

-- Inserting the pairs of a sorted map in order gives the map.
pub put_refs-ref_pairs :
    (refs : RefMap) → IsSortedRefs refs → put_refs no_refs (ref_pairs refs) ≡ refs
put_refs-ref_pairs refs = put_refs-append no_refs refs (nothing_before refs)
