-- ===== src/RevWalk/Walked.antt =====
-- The invariant of the walk from a commit to the next.
use mathlib.Core.List.{Memᴰ}
use mathlib.Core.List.Memᴰ
use josh.Base.{
  ℕ, ◌<◌, Bool, true, false, List, [], ◌∷◌, ◌≡◌, refl, ap, sym, subst, inl, inr, Bool-cases, arith,
}
use josh.RevWalk.{Commit, Commits, commit, missing, nil, cons, to_list, mem, explored}
use josh.RevWalk.Recursive.{
  Seen, emitted, walk, walk_parents, walk-visited, walk-pruned, walk-open, walk_all, IsPresent,
  ArePresent, AllPresent,
}
use josh.RevWalk.Visits.{
  parents, generation, generation_all, generation-explored, mem-Memᴰ, not-Memᴰ, Holds, Grows,
  Grows-refl, Grows-trans, pruned-Holds, opened-Holds, emitted-Holds,
}

module _ (prune : Commit → Bool) (first : Bool) (R : Commit → Type 0) where
  -- All commits of the list are visited afterwards.
  abbrev pub Visits : List Commit → List Commit → Seen → Seen → Type 0
  Visits gray cs s s' =
      Holds prune first R gray s'
      × Grows prune first s s'
      × ((y : Commit) → Memᴰ y cs → Memᴰ y s'.0)

  abbrev Above : List Commit → ℕ → Type 0
  Above gray n = (g : Commit) → Memᴰ g gray → n < generation g

  one :
      (c : Commit) (seen : List Commit) → Memᴰ c seen → (y : Commit) → Memᴰ y (c ∷ []) → Memᴰ y seen
  one c seen m y n = elim (Memᴰ.cases_cons n) [
    | inl e ↦ Memᴰ.cast e m
    | inr n' ↦ absurd (Memᴰ.not-nil n')
  ]

  pruned-Grows :
      (c : Commit) (seen post : List Commit) → Grows prune first (seen, post) (c ∷ seen, post)
  pruned-Grows c seen post = record { kept = λ x m. Memᴰ.tail m; fresh = λ x m. inl m }

  opened-Visits :
      (c : Commit) (gray seen post : List Commit) (s : Seen)
      → Holds prune first R gray (seen, post)
      → R c
      → Above gray (generation c)
      → ((y : Commit) → Memᴰ y (parents first c) → generation y < generation c)
      → (¬ Memᴰ c seen)
      → Visits (c ∷ gray) (parents first c) (c ∷ seen, post) s
      → Visits gray (c ∷ []) (seen, post) (emitted c s)
  opened-Visits c gray seen post s h r above below n (h', g, m) = (
    emitted-Holds prune first R gray c s h' r here not_emitted
        (λ y y_in. (m y y_in, not_gray y y_in)),
    record {
      kept = λ x x_in. g.kept x (Memᴰ.tail x_in);
      fresh = λ x x_in. elim (Memᴰ.cases_cons x_in) [
        | inl e ↦ inr (λ old. n (Memᴰ.cast (sym e) old))
        | inr x_in' ↦ elim (g.fresh x x_in') [
          | inl old ↦ inl old
          | inr new ↦ inr (λ old. new (Memᴰ.tail old))
        ]
      ];
    },
    one c s.0 here,
  )
    where
      here : Memᴰ c s.0
      here = g.kept c (Memᴰ.head refl)

      not_emitted : ¬ Memᴰ c s.1
      not_emitted x = elim (g.fresh c x) [
        | inl old ↦ n (h.inside c old)
        | inr new ↦ new (Memᴰ.head refl)
      ]

      not_gray : (y : Commit) → Memᴰ y (parents first c) → ¬ Memᴰ y (c ∷ gray)
      not_gray y y_in o = elim (Memᴰ.cases_cons o) [
        | inl e ↦ absurd (omega (arith, below y y_in, ap generation e))
        | inr o' ↦ absurd (omega (arith, below y y_in, above y o'))
      ]

  module _ (closed : (x y : Commit) → R x → Memᴰ y (parents first x) → prune y ≡ false → R y) where
    mutual
      unfolding generation walk_parents

      walk-Visits :
          (gray : List Commit) (c : Commit) (s : Seen)
          → IsPresent c
          → Holds prune first R gray s
          → (prune c ≡ false → R c)
          → Above gray (generation c)
          → Visits gray (c ∷ []) s (walk prune first c s)
      walk-Visits gray (missing i) s p h r above = absurd p
      walk-Visits gray (commit t ps b) (seen, post) p h r above =
          elim (Bool-cases (mem (commit t ps b) seen)) [
            | inl m ↦
                subst (Visits gray (commit t ps b ∷ []) (seen, post))
                  (sym (walk-visited prune first t ps b seen post m))
                  (
                    h,
                    Grows-refl prune first (seen, post),
                    one (commit t ps b) seen (mem-Memᴰ (commit t ps b) seen m),
                  )
            | inr m ↦ elim (Bool-cases (prune (commit t ps b))) [
              | inl q ↦
                  subst (Visits gray (commit t ps b ∷ []) (seen, post))
                    (sym (walk-pruned prune first t ps b seen post m q))
                    (
                      pruned-Holds prune first R gray (commit t ps b) seen post q h,
                      pruned-Grows (commit t ps b) seen post,
                      one (commit t ps b) (commit t ps b ∷ seen) (Memᴰ.head refl),
                    )
              | inr q ↦
                  subst (Visits gray (commit t ps b ∷ []) (seen, post))
                    (sym (walk-open prune first t ps b seen post m q))
                    (opened-Visits (commit t ps b) gray seen post _ h (r q) above
                      (λ y y_in. omega (arith, generation-explored first ps y y_in))
                      (not-Memᴰ (commit t ps b) seen m)
                      (walk_parents-Visits (commit t ps b ∷ gray) first ps
                        (commit t ps b ∷ seen, post) p
                        (opened-Holds prune first R gray (commit t ps b) seen post h)
                        (λ y y_in u. closed (commit t ps b) y (r q) y_in u)
                        (λ g g_in. elim (Memᴰ.cases_cons g_in) [
                          | inl e ↦ omega (arith, ap generation e)
                          | inr g_in' ↦ omega (arith, above g g_in')
                        ])))
            ]
          ]

      walk_parents-Visits :
          (gray : List Commit) (one_only : Bool) (cs : Commits) (s : Seen)
          → ArePresent cs
          → Holds prune first R gray s
          → ((y : Commit) → Memᴰ y (explored one_only (to_list cs)) → prune y ≡ false → R y)
          → Above gray (generation_all cs)
          → Visits gray (explored one_only (to_list cs)) s (walk_parents prune first one_only cs s)
      walk_parents-Visits gray true nil s p h r above =
          (h, Grows-refl prune first s, λ y m. absurd (Memᴰ.not-nil m))
      walk_parents-Visits gray false nil s p h r above =
          (h, Grows-refl prune first s, λ y m. absurd (Memᴰ.not-nil m))
      walk_parents-Visits gray true (cons c cs) s p h r above =
          walk-Visits gray c s p.0 h (r c (Memᴰ.head refl)) (λ g m. omega (arith, above g m))
      walk_parents-Visits gray false (cons c cs) s p h r above =
          let (h1, g1, m1) =
            walk-Visits gray c s p.0 h (r c (Memᴰ.head refl)) (λ g m. omega (arith, above g m)) in
          let (h2, g2, m2) =
            walk_parents-Visits gray false cs (walk prune first c s) p.1 h1
              (λ y m. r y (Memᴰ.tail m)) (λ g m. omega (arith, above g m)) in
          (
            h2,
            Grows-trans prune first _ _ _ g1 g2,
            λ y m. elim (Memᴰ.cases_cons m) [
              | inl e ↦ Memᴰ.cast e (g2.kept c (m1 c (Memᴰ.head refl)))
              | inr m' ↦ m2 y m'
            ],
          )

    pub walk_all-Visits :
        (tips : List Commit) (s : Seen)
        → AllPresent tips
        → Holds prune first R [] s
        → ((y : Commit) → Memᴰ y tips → prune y ≡ false → R y)
        → Visits [] tips s (walk_all prune first tips s)
    unfolding walk_all
    walk_all-Visits [] s p h r = (h, Grows-refl prune first s, λ y m. absurd (Memᴰ.not-nil m))
    walk_all-Visits (c ∷ cs) s p h r =
        let (h1, g1, m1) =
          walk-Visits [] c s p.0 h (r c (Memᴰ.head refl)) (λ g m. absurd (Memᴰ.not-nil m)) in
        let (h2, g2, m2) =
          walk_all-Visits cs (walk prune first c s) p.1 h1 (λ y m. r y (Memᴰ.tail m)) in
        (
          h2,
          Grows-trans prune first _ _ _ g1 g2,
          λ y m. elim (Memᴰ.cases_cons m) [
            | inl e ↦ Memᴰ.cast e (g2.kept c (m1 c (Memᴰ.head refl)))
            | inr m' ↦ m2 y m'
          ],
        )
