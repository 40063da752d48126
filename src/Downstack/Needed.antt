-- ===== src/Downstack/Needed.antt =====
-- Which of the intermediate commits `downstack` keeps.
use mathlib.Core.List.{Memᴰ}
use mathlib.Core.List.Memᴰ
use josh.Base.{
  Bool, true, false, not, ◌||◌, List, [], ◌∷◌, ◌≡◌, ◌↔◌, ◌⊎◌, inl, inr, refl, ap, sym, ◌∙◌, subst,
  Bool-cases, is_yes→eq, is_yes-true, any, if-true, if-false,
}
use josh.RevWalk.{Commit}
use josh.Apply.Run.{ok}
use josh.Downstack.{
  Git, DownstackDep, DownstackDep-discrete, is_disjoint, downstack_commit_deps, select_one,
  select_needed,
}

-- A dependency of the change, or of a commit that shares one with what is above it. The lists are
-- those of the commits below the change, from the oldest on.
unfoldable pub IsLinked : List DownstackDep → List (List DownstackDep) → DownstackDep → Type 0
IsLinked change [] x = Memᴰ x change
IsLinked change (d ∷ ds) x =
    IsLinked change ds x ⊎ (Memᴰ x d × (y : DownstackDep) × Memᴰ y d × IsLinked change ds y)

-- A commit shares a dependency with what is above it.
abbrev pub IsNeeded : List DownstackDep → List DownstackDep → List (List DownstackDep) → Type 0
IsNeeded change d ds = (y : DownstackDep) × Memᴰ y d × IsLinked change ds y

-- The commits that are marked are those that are needed.
abbrev pub AreMarked : List DownstackDep → List (List DownstackDep) → List Bool → Type 0
AreMarked change [] [] = Unit
AreMarked change (d ∷ ds) (n ∷ ns) = ((n ≡ true) ↔ IsNeeded change d ds) × AreMarked change ds ns
AreMarked change _ _ = ⊥

any-Memᴰ :
    (p : DownstackDep → Bool) (ds : List DownstackDep)
    → any p ds ≡ true
    → (y : DownstackDep) × Memᴰ y ds × (p y ≡ true)
any-Memᴰ p [] h = absurd (cc)
any-Memᴰ p (d ∷ ds) h = elim (Bool-cases (p d)) [
  | inl e ↦ (d, Memᴰ.head refl, e)
  | inr e ↦
      let (y, m, q) = any-Memᴰ p ds (sym (ap (λ x. x || any p ds) e) ∙ h) in (y, Memᴰ.tail m, q)
]

or-true : (x : Bool) → (x || true) ≡ true
or-true true = refl
or-true false = refl

Memᴰ-any :
    (p : DownstackDep → Bool) (ds : List DownstackDep) (y : DownstackDep)
    → Memᴰ y ds
    → p y ≡ true
    → any p ds ≡ true
Memᴰ-any p [] y m q = absurd (Memᴰ.not-nil m)
Memᴰ-any p (d ∷ ds) y m q = elim (Memᴰ.cases_cons m) [
  | inl e ↦ ap (λ x. x || any p ds) (ap p (sym e) ∙ q)
  | inr m' ↦ ap (λ x. p d || x) (Memᴰ-any p ds y m' q) ∙ or-true (p d)
]

true-false : true ≡ false → ⊥
true-false q = cc

not-true : (x : Bool) → not x ≡ false → x ≡ true
not-true true h = refl
not-true false h = absurd (cc)

-- Two lists are not disjoint if they share an element.
is_disjoint_iff :
    (d a : List DownstackDep)
    → (is_disjoint d a ≡ false) ↔ ((y : DownstackDep) × Memᴰ y d × Memᴰ y a)
unfolding is_disjoint
is_disjoint_iff d a = (
  λ h.
      let (y, m, q) = any-Memᴰ _ d (not-true _ h) in
      let (z, m', q') = any-Memᴰ _ a q in
      (y, m, Memᴰ.cast (is_yes→eq (DownstackDep-discrete y z) q') m'),
  λ (y, m, m').
      ap not (Memᴰ-any _ d y m (Memᴰ-any _ a y m' (is_yes-true (DownstackDep-discrete y y) refl))),
)

-- The marks are right, and the affected dependencies are the linked ones.
abbrev pub Selects :
    List DownstackDep → List (List DownstackDep) → List Bool × List DownstackDep → Type 0
Selects change ds s =
    AreMarked change ds s.0 × ((x : DownstackDep) → Memᴰ x s.1 ↔ IsLinked change ds x)

select_one-Selects :
    (change d : List DownstackDep) (ds : List (List DownstackDep))
    (s : List Bool × List DownstackDep)
    → Selects change ds s
    → Selects change (d ∷ ds) (select_one d s)
unfolding IsLinked
select_one-Selects change d ds (ns, affected) (marked, linked) =
    elim (Bool-cases (is_disjoint d affected)) [
      | inl e ↦ subst (Selects change (d ∷ ds)) (sym (if-true (is_disjoint d affected) _ _ e)) (
        (
          (
            λ q. absurd (true-false (sym q)),
            λ (y, m, l).
                absurd (true-false (sym e ∙ (is_disjoint_iff d affected).1 (y, m, (linked y).1 l))),
          ),
          marked,
        ),
        λ x. (
          λ m. inl ((linked x).0 m),
          λ l. elim l [
            | inl l' ↦ (linked x).1 l'
            | inr (m, y, m', l') ↦
                absurd
                  (true-false (sym e ∙ (is_disjoint_iff d affected).1 (y, m', (linked y).1 l')))
          ],
        ),
      )
      | inr e ↦
          let (y, m, m') = (is_disjoint_iff d affected).0 e in
          subst (Selects change (d ∷ ds)) (sym (if-false (is_disjoint d affected) _ _ e)) (
            ((λ q. (y, m, (linked y).0 m'), λ q. refl), marked),
            λ x. (
              λ n. elim (Memᴰ.append_cases affected n) [
                | inl a ↦ inl ((linked x).0 a)
                | inr a ↦ inr (a, y, m, (linked y).0 m')
              ],
              λ l. elim l [
                | inl l' ↦ Memᴰ.append_left d ((linked x).1 l')
                | inr (a, z, m'', l') ↦ Memᴰ.append_right affected a
              ],
            ),
          )
    ]

module _ (git : Git) where
  -- The dependencies of the commits can be read.
  abbrev pub Reads : List Commit → List (List DownstackDep) → Type 0
  Reads [] [] = Unit
  Reads (c ∷ cs) (d ∷ ds) = (downstack_commit_deps git c ≡ ok d) × Reads cs ds
  Reads _ _ = ⊥

  -- If the dependencies of the commits below a change can be read, then select_needed marks the
  -- commits that share a dependency with the change or with a marked commit above them, and what
  -- it returns as affected are the dependencies of these and of the change.
  pub select_needed-IsLinked :
      (change : List DownstackDep) (cs : List Commit) (ds : List (List DownstackDep))
      → Reads cs ds
      → (s : List Bool × List DownstackDep) × (select_needed git change cs ≡ ok s)
        × AreMarked change ds s.0
        × ((x : DownstackDep) → Memᴰ x s.1 ↔ IsLinked change ds x)
  unfolding select_needed IsLinked
  select_needed-IsLinked change [] [] r = (([], change), refl, tt, λ x. (λ m. m, λ m. m))
  select_needed-IsLinked change (c ∷ cs) (d ∷ ds) (e, r) =
      let (s, e', marked, linked) = select_needed-IsLinked change cs ds r in
      let (marked', linked') = select_one-Selects change d ds s (marked, linked) in
      (select_one d s, rw (e', e) refl, marked', linked')
  select_needed-IsLinked change [] (d ∷ ds) r = absurd r
  select_needed-IsLinked change (c ∷ cs) [] r = absurd r
