-- ===== src/Persist/Entries/Order.antt =====
-- What the order of the entries leaves to the readers by name and by position.
use josh.Base.{
  ℕ, suc, ◌+◌, ◌≤◌, ◌<◌, true, false, some, List, [], ◌∷◌, Text, text_eq, text_eq→eq, text_eq_refl,
  ◌≡◌, refl, sym, ap, ◌∙◌, length, arith, Bool-cases, inl, inr, if◌then◌else◌, if-true, if-false,
}
use josh.Tree.Object.{Mode, Obj, Entries, nil, entry}
use josh.Opt.PrefixSort.{text_le}
use josh.Persist.Decimal.{decimal, decimal_inj, decimal-digit}
use josh.Persist.Entries.{
  insert_entry, sort_entries, index_entries, count, by_position, by_name, get_name,
}

pub text_le_refl : (s : Text) → text_le s s ≡ true
unfolding text_le
text_le_refl [] = refl
text_le_refl (x ∷ s) = ground (arith, text_le_refl s)

apart : (k k' n : Text) → text_le k k' ≡ false → text_eq k n ≡ true → text_eq k' n ≡ false
apart k k' n h e = elim (Bool-cases (text_eq k' n)) [
  | inl e' ↦
      let same : k' ≡ k = text_eq→eq k' n e' ∙ sym (text_eq→eq k n e) in
      let h' : text_le k k ≡ false = ap (text_le k) (sym same) ∙ h in absurd (cc (text_le_refl k))
  | inr e' ↦ e'
]

-- An entry that is sorted in front of its equals is the first of its name.
get_name-insert_entry :
    (m : Mode) (k : Text) (o : Obj) (es : Entries) (n : Text)
    → get_name (insert_entry m k o es) n ≡ get_name (entry m k o es) n
unfolding get_name insert_entry
get_name-insert_entry m k o nil n = refl
get_name-insert_entry m k o (entry m' k' o' es) n = elim (Bool-cases (text_le k k')) [
  | inl e ↦ rw e refl
  | inr e ↦ rw e (
      rw (get_name-insert_entry m k o es n) (elim (Bool-cases (text_eq k n)) [
        | inl eq ↦ rw (eq, apart k k' n e eq) refl
        | inr ne ↦ rw ne refl
      ]))
]

pub get_name-sort_entries : (es : Entries) (n : Text) → get_name (sort_entries es) n ≡ get_name es n
unfolding sort_entries get_name
get_name-sort_entries nil n = refl
get_name-sort_entries (entry m k o es) n =
    get_name-insert_entry m k o (sort_entries es) n
    ∙ ap (λ rest. if text_eq k n then some o else rest) (get_name-sort_entries es n)

count-insert_entry :
    (m : Mode) (k : Text) (o : Obj) (es : Entries) → count (insert_entry m k o es) ≡ suc (count es)
unfolding insert_entry
count-insert_entry m k o nil = refl
count-insert_entry m k o (entry m' k' o' es) = ground (arith, count-insert_entry m k o es)

pub count-sort_entries : (es : Entries) → count (sort_entries es) ≡ count es
unfolding sort_entries
count-sort_entries nil = refl
count-sort_entries (entry m k o es) =
    count-insert_entry m k o (sort_entries es) ∙ ap suc (count-sort_entries es)

pub count-index_entries :
    (m : Mode) (i : ℕ) (os : List Obj) → count (index_entries m i os) ≡ length os
unfolding index_entries
count-index_entries m i [] = refl
count-index_entries m i (o ∷ os) = ap suc (count-index_entries m (suc i) os)

-- An entry of a later index has another name.
later_name :
    (m : Mode) (i j : ℕ) (os : List Obj) {o : Obj}
    → get_name (index_entries m j os) (decimal i) ≡ some o
    → j ≤ i
unfolding get_name index_entries
later_name m i j [] h = cc
later_name m i j (o ∷ os) h = elim (Bool-cases (text_eq (decimal j) (decimal i))) [
  | inl e ↦ omega (arith, decimal_inj j i (text_eq→eq _ _ e))
  | inr e ↦ omega (arith, later_name m i (suc j) os (sym (if-false _ _ _ e) ∙ h))
]

abbrev Finds : Mode → ℕ → List Obj → Entries → Type 0
Finds m i os es =
    (j : ℕ) (o : Obj)
    → get_name (index_entries m i os) (decimal j) ≡ some o
    → get_name es (decimal j) ≡ some o

by_name-Finds :
    (m : Mode) (i : ℕ) (os : List Obj) (es : Entries)
    → Finds m i os es
    → by_name es i (length os) ≡ some os
unfolding by_name index_entries get_name
by_name-Finds m i [] es h = refl
by_name-Finds m i (o ∷ os) es h =
    let here = h i o (if-true _ _ _ (text_eq_refl (decimal i))) in
    let rest = by_name-Finds m (suc i) os es (λ j o' found.
      h j o' (if-false _ _ _ (different j (later_name m j (suc i) os found)) ∙ found)) in
    rw here (rw rest)
  where
    different : (j : ℕ) → suc i ≤ j → text_eq (decimal i) (decimal j) ≡ false
    different j le = elim (Bool-cases (text_eq (decimal i) (decimal j))) [
      | inl e ↦ absurd (omega (arith, decimal_inj i j (text_eq→eq _ _ e)))
      | inr e ↦ e
    ]

-- By their names the entries of a list are found in its order, however many there are.
pub by_name-sort_entries :
    (m : Mode) (os : List Obj)
    → by_name (sort_entries (index_entries m 0 os)) 0 (length os) ≡ some os
by_name-sort_entries m os =
    by_name-Finds m 0 os _ (λ j o h. get_name-sort_entries (index_entries m 0 os) (decimal j) ∙ h)

digits_le : (i : ℕ) → suc i < 10 → text_le (decimal i) (decimal (suc i)) ≡ true
unfolding text_le
digits_le i h = rw (decimal-digit i (omega arith)) (rw (decimal-digit (suc i) h) (ground arith))

-- Names of one digit are in order.
index_entries-sorted :
    (m : Mode) (i : ℕ) (os : List Obj)
    → i + length os ≤ 10
    → sort_entries (index_entries m i os) ≡ index_entries m i os
unfolding sort_entries index_entries insert_entry
index_entries-sorted m i [] h = refl
index_entries-sorted m i (o ∷ []) h = refl
index_entries-sorted m i (o ∷ o' ∷ os) h =
    ap (insert_entry m (decimal i) o) (index_entries-sorted m (suc i) (o' ∷ os) (omega arith))
    ∙ if-true _ _ _ (digits_le i (omega arith))

by_position-index_entries :
    (m : Mode) (i : ℕ) (os : List Obj) → by_position (index_entries m i os) ≡ os
unfolding index_entries
by_position-index_entries m i [] = refl
by_position-index_entries m i (o ∷ os) = ap (λ l. o ∷ l) (by_position-index_entries m (suc i) os)

-- By position at most ten are.
pub by_position-sort_entries :
    (m : Mode) (os : List Obj)
    → length os ≤ 10
    → by_position (sort_entries (index_entries m 0 os)) ≡ os
by_position-sort_entries m os h =
    ap by_position (index_entries-sorted m 0 os (omega arith)) ∙ by_position-index_entries m 0 os
