-- ===== src/RevWalk/Visits.antt =====
-- What holds of the walk at every commit: the state after a commit, from the state before.
use mathlib.Core.List.{Memᴰ}
use mathlib.Core.List.Memᴰ
use josh.Base.{
  ℕ, suc, ◌≤◌, Bool, true, false, ◌||◌, List, [], ◌∷◌, ◌≡◌, ap, sym, ◌∙◌, subst, inl, inr, ◌⊎◌,
  Bool-cases, arith, is_yes, is_yes→eq, is_yes-true,
}
use Prim.Native.Nat.{max}
use josh.RevWalk.{
  Commit, Commits, Commit-discrete, commit, missing, nil, cons, to_list, mem, explored,
}
use josh.RevWalk.Recursive.{Seen, emitted}

-- The parents that the walk explores.
abbrev pub parents : Bool → Commit → List Commit
parents first (commit t ps b) = explored first (to_list ps)
parents first (missing i) = []

-- How long the lines of ancestors are.
unfoldable mutual
  pub generation : Commit → ℕ
  generation (commit t ps b) = suc (generation_all ps)
  generation (missing i) = 0

  pub generation_all : Commits → ℕ
  generation_all nil = 0
  generation_all (cons c cs) = max (generation c) (generation_all cs)

pub mem-Memᴰ : (c : Commit) (cs : List Commit) → mem c cs ≡ true → Memᴰ c cs
unfolding mem
mem-Memᴰ c [] h = absurd (cc)
mem-Memᴰ c (d ∷ cs) h = elim (Bool-cases (is_yes (Commit-discrete c d))) [
  | inl e ↦ Memᴰ.head (is_yes→eq (Commit-discrete c d) e)
  | inr e ↦ Memᴰ.tail (mem-Memᴰ c cs (sym (ap (λ x. x || mem c cs) e) ∙ h))
]

pub true-false : true ≡ false → ⊥
true-false q = cc

pub not-Memᴰ : (c : Commit) (cs : List Commit) → mem c cs ≡ false → ¬ Memᴰ c cs
unfolding mem
not-Memᴰ c [] h m = Memᴰ.not-nil m
not-Memᴰ c (d ∷ cs) h m = elim (Memᴰ.cases_cons m) [
  | inl e ↦ true-false (sym (ap (λ x. x || mem c cs) (is_yes-true (Commit-discrete c d) e)) ∙ h)
  | inr m' ↦ elim (Bool-cases (is_yes (Commit-discrete c d))) [
    | inl e ↦ true-false (sym (ap (λ x. x || mem c cs) e) ∙ h)
    | inr e ↦ not-Memᴰ c cs (sym (ap (λ x. x || mem c cs) e) ∙ h) m'
  ]
]

pub generation-explored :
    (first : Bool) (cs : Commits) (y : Commit)
    → Memᴰ y (explored first (to_list cs))
    → generation y ≤ generation_all cs
unfolding generation
generation-explored true nil y m = absurd (Memᴰ.not-nil m)
generation-explored true (cons c cs) y m = elim (Memᴰ.cases_cons m) [
  | inl e ↦ omega (arith, ap generation e)
  | inr m' ↦ absurd (Memᴰ.not-nil m')
]
generation-explored false nil y m = absurd (Memᴰ.not-nil m)
generation-explored false (cons c cs) y m = elim (Memᴰ.cases_cons m) [
  | inl e ↦ omega (arith, ap generation e)
  | inr m' ↦ omega (arith, generation-explored false cs y m')
]

module _ (prune : Commit → Bool) (first : Bool) where
  -- Each commit comes once, and before its parents that are not pruned.
  abbrev pub IsTopological : List Commit → Type 0
  IsTopological [] = Unit
  IsTopological (c ∷ cs) =
      (¬ Memᴰ c cs)
      × ((y : Commit) → Memᴰ y (parents first c) → prune y ≡ false → Memᴰ y cs)
      × IsTopological cs

  -- The state while the commits `gray` are opened and not emitted, and all that is emitted has `R`.
  pub record Holds (R : Commit → Type 0) (gray : List Commit) (s : Seen) : Type 0 where
    pub known : (x : Commit) → Memᴰ x s.0 → Memᴰ x s.1 ⊎ (prune x ≡ true) ⊎ Memᴰ x gray
    pub inside : (x : Commit) → Memᴰ x s.1 → Memᴰ x s.0
    pub order : IsTopological s.1
    pub sound : (x : Commit) → Memᴰ x s.1 → R x

  -- What a part of the walk adds.
  pub record Grows (s s' : Seen) : Type 0 where
    pub kept : (x : Commit) → Memᴰ x s.0 → Memᴰ x s'.0
    pub fresh : (x : Commit) → Memᴰ x s'.1 → Memᴰ x s.1 ⊎ (¬ Memᴰ x s.0)

  pub Grows-refl : (s : Seen) → Grows s s
  Grows-refl s = record { kept = λ x m. m; fresh = λ x m. inl m }

  pub Grows-trans : (s t u : Seen) → Grows s t → Grows t u → Grows s u
  Grows-trans s t u g h = record {
    kept = λ x m. h.kept x (g.kept x m);
    fresh =
        λ x m. elim (h.fresh x m) [ inl m' ↦ g.fresh x m' | inr n ↦ inr (λ m'. n (g.kept x m')) ];
  }

  module _ (R : Commit → Type 0) where
    -- A pruned commit is only marked.
    pub pruned-Holds :
        (gray : List Commit) (c : Commit) (seen post : List Commit)
        → prune c ≡ true
        → Holds R gray (seen, post)
        → Holds R gray (c ∷ seen, post)
    pruned-Holds gray c seen post p h = record {
      known = λ x m. elim (Memᴰ.cases_cons m) [
        | inl e ↦ inr (inl (ap prune e ∙ p))
        | inr m' ↦ h.known x m'
      ];
      inside = λ x m. Memᴰ.tail (h.inside x m);
      order = h.order;
      sound = h.sound;
    }

    pub opened-Holds :
        (gray : List Commit) (c : Commit) (seen post : List Commit)
        → Holds R gray (seen, post)
        → Holds R (c ∷ gray) (c ∷ seen, post)
    opened-Holds gray c seen post h = record {
      known = λ x m. elim (Memᴰ.cases_cons m) [
        | inl e ↦ inr (inr (Memᴰ.head e))
        | inr m' ↦ elim (h.known x m') [
          | inl a ↦ inl a
          | inr (inl b) ↦ inr (inl b)
          | inr (inr o) ↦ inr (inr (Memᴰ.tail o))
        ]
      ];
      inside = λ x m. Memᴰ.tail (h.inside x m);
      order = h.order;
      sound = h.sound;
    }

    -- A commit whose parents are visited is emitted.
    pub emitted-Holds :
        (gray : List Commit) (c : Commit) (s : Seen)
        → Holds R (c ∷ gray) s
        → R c
        → Memᴰ c s.0
        → (¬ Memᴰ c s.1)
        → ((y : Commit) → Memᴰ y (parents first c) → Memᴰ y s.0 × (¬ Memᴰ y (c ∷ gray)))
        → Holds R gray (emitted c s)
    emitted-Holds gray c s h r v n below = record {
      known = λ x m. elim (h.known x m) [
        | inl a ↦ inl (Memᴰ.tail a)
        | inr (inl b) ↦ inr (inl b)
        | inr (inr o) ↦ elim (Memᴰ.cases_cons o) [
          | inl e ↦ inl (Memᴰ.head e)
          | inr o' ↦ inr (inr o')
        ]
      ];
      inside = λ x m. elim (Memᴰ.cases_cons m) [ inl e ↦ Memᴰ.cast e v | inr m' ↦ h.inside x m' ];
      order = (
        n,
        λ y m u. elim (h.known y ((below y m).0)) [
          | inl a ↦ a
          | inr (inl b) ↦ absurd (true-false (sym b ∙ u))
          | inr (inr o) ↦ absurd ((below y m).1 o)
        ],
        h.order,
      );
      sound = λ x m. elim (Memᴰ.cases_cons m) [ inl e ↦ subst R (sym e) r | inr m' ↦ h.sound x m' ];
    }
