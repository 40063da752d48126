-- ===== src/Tree/Diff/Loops.antt =====
-- The loops of `diff_paths`: what they return if their bodies return the right changes.
use mathlib.Core.List.Memᴰ
use josh.Base.{
  true, false, none, some, List, [], ◌++◌, ◌≡◌, refl, sym, ◌∙◌, subst, some_inj, ◌↔◌, ◌⊎◌, inl, inr,
  Bool-cases, Text, text_eq, text_eq_refl, text_eq→eq, if-true, if-false,
}
use mathlib.Core.List.{Memᴰ}
use josh.Tree.Object.{Mode, Obj, Entries, nil, entry, find}
use josh.Tree.Leaves.{Distincts}
use josh.Persist.Utf8.{from_utf8-run}
use josh.Pattern.Walk.{push_name}
use josh.Apply.Run.{Run, ok}
use josh.Tree.Diff.{Change, for_entries}
use josh.Tree.Diff.Changes.{AreNamed}

-- The result has the changes of which `P` holds and no other.
abbrev pub Returns : Run (List Change) → (Change → Type 0) → Type 0
Returns run P = (r : List Change) × (run ≡ ok r) × ((c : Change) → Memᴰ c r ↔ P c)

-- A change of one of the entries.
abbrev pub Among : (Text → Obj → Change → Type 0) → Entries → Change → Type 0
Among P es c = (n : Text) × (e : Mode × Obj) × (find es n ≡ some e) × P n e.1 c

pub Returns-iff :
    {run : Run (List Change)} (P Q : Change → Type 0)
    → Returns run P
    → ((c : Change) → P c ↔ Q c)
    → Returns run Q
Returns-iff P Q (r, e, h) k = (r, e, λ c. (λ m. (k c).0 ((h c).0 m), λ q. (h c).1 ((k c).1 q)))

pub Memᴰ-append :
    {r s : List Change} {P Q : Type 0} (c : Change)
    → (Memᴰ c r ↔ P)
    → (Memᴰ c s ↔ Q)
    → Memᴰ c (r ++ s) ↔ (P ⊎ Q)
Memᴰ-append {r} {s} c h k = (
  λ m. elim (Memᴰ.append_cases r m) [ inl x ↦ inl (h.0 x) | inr y ↦ inr (k.0 y) ],
  λ p. elim p [ inl x ↦ Memᴰ.append_left s (h.1 x) | inr y ↦ Memᴰ.append_right r (k.1 y) ],
)

find-head :
    (m : Mode) (k : Text) (o : Obj) (es : Entries) (n : Text)
    → text_eq k n ≡ true
    → find (entry m k o es) n ≡ some (m, o)
unfolding find
find-head m k o es n q = if-true (text_eq k n) _ _ q

find-tail :
    (m : Mode) (k : Text) (o : Obj) (es : Entries) (n : Text)
    → text_eq k n ≡ false
    → find (entry m k o es) n ≡ find es n
unfolding find
find-tail m k o es n q = if-false (text_eq k n) _ _ q

-- Behind an entry there is no entry of its name.
later-other :
    (es : Entries) (k n : Text) {e : Mode × Obj}
    → find es k ≡ none
    → find es n ≡ some e
    → text_eq k n ≡ false
later-other es k n fresh f = elim (Bool-cases (text_eq k n)) [
  | inl q ↦ absurd (none_some (sym (subst (λ x. find es x ≡ none) (text_eq→eq k n q) fresh) ∙ f))
  | inr q ↦ q
]
  where
    none_some : {x : Mode × Obj} → none ≡ some x → ⊥
    none_some q = cc

Among-entry :
    (P : Text → Obj → Change → Type 0) (m : Mode) (k : Text) (o : Obj) (es : Entries) (c : Change)
    → find es k ≡ none
    → (P k o c ⊎ Among P es c) ↔ Among P (entry m k o es) c
Among-entry P m k o es c fresh = (
  λ x. elim x [
    | inl p ↦ (k, (m, o), find-head m k o es k (text_eq_refl k), p)
    | inr (n, e, f, p) ↦ (n, e, find-tail m k o es n (later-other es k n fresh f) ∙ f, p)
  ],
  λ (n, e, f, p). elim (Bool-cases (text_eq k n)) [
    | inl q ↦ inl (
        subst (λ z. P z o c) (sym (text_eq→eq k n q))
          (subst (λ z. P n z.1 c) (some_inj (sym f ∙ find-head m k o es n q)) p))
    | inr q ↦ inr (n, e, sym (find-tail m k o es n q) ∙ f, p)
  ],
)

-- If the body returns the changes of each entry, the loop returns those of all entries.
pub for_entries-Returns :
    (body : Text → Obj → Text → Run (List Change)) (P : Text → Obj → Change → Type 0) (root : Text)
    (es : Entries)
    → AreNamed es
    → Distincts es
    → ((n : Text) (e : Mode × Obj)
        → find es n ≡ some e
        → Returns (body n e.1 (push_name root n)) (P n e.1))
    → Returns (for_entries body root es) (Among P es)
unfolding for_entries find
for_entries-Returns body P root nil u d h =
    ([], refl, λ c. (λ m. absurd (Memᴰ.not-nil m), λ (n, e, f, p). absurd (cc)))
for_entries-Returns body P root (entry m k o es) (u, us, uss) (fresh, d, ds) h =
    let (r, e, here) = h k (m, o) (find-head m k o es k (text_eq_refl k)) in
    let (s, e', later) =
      for_entries-Returns body P root es uss ds
        (λ n x f. h n x (find-tail m k o es n (later-other es k n fresh f) ∙ f)) in
    (
      r ++ s,
      rw (from_utf8-run k u, e, e') refl,
      λ c.
          let (to, from) = Memᴰ-append c (here c) (later c) in
          let (to', from') = Among-entry P m k o es c fresh in
          (λ x. to' (to x), λ x. from (from' x)),
    )
