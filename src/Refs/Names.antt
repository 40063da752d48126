-- ===== src/Refs/Names.antt =====
-- Sorting and removing duplicates keep which names there are.
use josh.Base.{
  Bool, true, false, ◌||◌, Bool-cases, inl, inr, List, [], ◌∷◌, ◌++◌, ◌≡◌, refl, sym, ap, ◌∙◌, Text,
  text_eq, text_eq→eq, is_yes, is_yes→eq,
}
use josh.Refs.{
  insert_sorted, sorted, deduped, tidy, put_ref, key_names, name_of, LazyRef-discrete,
  lazy_ref_less,
}
use josh.Opt.PrefixSort.{text_le}
use josh.Filter.Op.{Filter, RefMap, LazyRef, no_refs, ref}

-- The name is one of the list.
unfoldable pub has : Text → List Text → Bool
has s [] = false
has s (t ∷ ts) = text_eq s t || has s ts

or_swap : (a b c : Bool) → (a || (b || c)) ≡ (b || (a || c))
or_swap true true c = refl
or_swap true false c = refl
or_swap false b c = refl

or_assoc : (a b c : Bool) → ((a || b) || c) ≡ (a || (b || c))
or_assoc true b c = refl
or_assoc false b c = refl

or_twice : (a b : Bool) → (a || (a || b)) ≡ (a || b)
or_twice true b = refl
or_twice false b = refl

has-insert_sorted :
    (s x : Text) (ts : List Text) → has s (insert_sorted x ts) ≡ (text_eq s x || has s ts)
unfolding has insert_sorted
has-insert_sorted s x [] = refl
has-insert_sorted s x (t ∷ ts) = elim (Bool-cases (text_le x t)) [
  | inl e ↦ rw e refl
  | inr e ↦ rw (e, has-insert_sorted s x ts) (or_swap (text_eq s t) (text_eq s x) (has s ts))
]

has-sorted : (s : Text) (ts : List Text) → has s (sorted ts) ≡ has s ts
unfolding has sorted
has-sorted s [] = refl
has-sorted s (t ∷ ts) =
    has-insert_sorted s t (sorted ts) ∙ ap (λ b. text_eq s t || b) (has-sorted s ts)

has-deduped : (s : Text) (ts : List Text) → has s (deduped ts) ≡ has s ts
unfolding has deduped
has-deduped s [] = refl
has-deduped s (t ∷ []) = refl
has-deduped s (t ∷ u ∷ ts) = elim (Bool-cases (text_eq t u)) [
  | inl e ↦ rw e (
      has-deduped s (u ∷ ts)
      ∙ sym (or_twice (text_eq s u) (has s ts))
      ∙ ap (λ x. text_eq s x || (text_eq s u || has s ts)) (sym (text_eq→eq t u e)))
  | inr e ↦ rw (e, has-deduped s (u ∷ ts)) refl
]

pub has-tidy : (s : Text) (ts : List Text) → has s (tidy ts) ≡ has s ts
unfolding tidy
has-tidy s ts = has-deduped s (sorted ts) ∙ has-sorted s ts

pub has-append : (s : Text) (xs ys : List Text) → has s (xs ++ ys) ≡ (has s xs || has s ys)
unfolding has
has-append s [] ys = refl
has-append s (x ∷ xs) ys =
    ap (λ b. text_eq s x || b) (has-append s xs ys)
    ∙ sym (or_assoc (text_eq s x) (has s xs) (has s ys))

pub has-put_ref :
    (s : Text) (k : LazyRef) (f : Filter) (m : RefMap)
    → has s (key_names (put_ref k f m)) ≡ (has s (name_of k) || has s (key_names m))
unfolding put_ref key_names
has-put_ref s k f no_refs = has-append s (name_of k) []
has-put_ref s k f (ref k' f' rest) = elim (Bool-cases (is_yes (LazyRef-discrete k k'))) [
  | inl e ↦ rw e (
      has-append s (name_of k) (key_names rest)
      ∙ sym (or_twice (has s (name_of k)) (has s (key_names rest)))
      ∙ ap (λ b. has s (name_of k) || b)
          (sym (has-append s (name_of k) (key_names rest))
            ∙ ap (λ j. has s (name_of j ++ key_names rest)) (is_yes→eq (LazyRef-discrete k k') e)))
  | inr e ↦ elim (Bool-cases (lazy_ref_less k k')) [
    | inl l ↦ rw (e, l) (has-append s (name_of k) (name_of k' ++ key_names rest))
    | inr l ↦
        rw (e, l)
          (has-append s (name_of k') (key_names (put_ref k f rest))
            ∙ ap (λ b. has s (name_of k') || b) (has-put_ref s k f rest)
            ∙ or_swap (has s (name_of k')) (has s (name_of k)) (has s (key_names rest))
            ∙ ap (λ b. has s (name_of k) || b) (sym (has-append s (name_of k') (key_names rest))))
  ]
]
