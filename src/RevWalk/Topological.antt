-- ===== src/RevWalk/Topological.antt =====
-- The walk yields what is reachable, once each, and children before their parents.
use mathlib.Core.List.{Memᴰ}
use mathlib.Core.List.Memᴰ
use josh.Base.{ℕ, ◌<◌, Bool, false, List, [], ◌∷◌, ◌≡◌, sym, ◌∙◌, subst, ◌↔◌, inl, inr}
use josh.Apply.Run.{ok}
use josh.RevWalk.{Commit, into_topo_vec}
use josh.RevWalk.Recursive.{Seen, walk_all, AllPresent, weight_tips}
use josh.RevWalk.Visits.{true-false, parents, IsTopological, Holds}
use josh.RevWalk.Loop.{into_topo_vec-walk_all}
use josh.RevWalk.Walked.{walk_all-Visits}

-- What is reachable from the tips without passing a pruned commit.
pub data IsReached (prune : Commit → Bool) (first : Bool) (tips : List Commit)
    : Commit → Type 0 where
  tip : {c : Commit} → Memᴰ c tips → prune c ≡ false → IsReached prune first tips c
  parent :
      {c y : Commit}
      → IsReached prune first tips c
      → Memᴰ y (parents first c)
      → prune y ≡ false
      → IsReached prune first tips y

-- The parents of what a topological list has are in the list.
IsTopological-parents :
    (prune : Commit → Bool) (first : Bool) (cs : List Commit) (c y : Commit)
    → IsTopological prune first cs
    → Memᴰ c cs
    → Memᴰ y (parents first c)
    → prune y ≡ false
    → Memᴰ y cs
IsTopological-parents prune first [] c y t m k u = absurd (Memᴰ.not-nil m)
IsTopological-parents prune first (d ∷ cs) c y (n, below, t) m k u = elim (Memᴰ.cases_cons m) [
  | inl e ↦ Memᴰ.tail (below y (subst (λ x. Memᴰ y (parents first x)) e k) u)
  | inr m' ↦ Memᴰ.tail (IsTopological-parents prune first cs c y t m' k u)
]

-- Where no commit is missing and there is fuel for the walk, into_topo_vec returns the commits
-- that are reachable from the tips without passing a pruned commit, each once and before those of
-- its explored parents that are not pruned.
pub into_topo_vec-IsTopological :
    (prune : Commit → Bool) (first : Bool) (fuel : ℕ) (tips : List Commit)
    → AllPresent tips
    → weight_tips tips < fuel
    → (r : List Commit) × (into_topo_vec prune first fuel tips ≡ ok r)
      × IsTopological prune first r
      × ((c : Commit) → Memᴰ c r ↔ IsReached prune first tips c)
into_topo_vec-IsTopological prune first fuel tips p le =
    let start : Holds prune first (IsReached prune first tips) [] ([], []) = record {
      known = λ x m. absurd (Memᴰ.not-nil m);
      inside = λ x m. m;
      order = tt;
      sound = λ x m. absurd (Memᴰ.not-nil m);
    } in
    let (h, g, m) =
      walk_all-Visits prune first (IsReached prune first tips) (λ x y r k u. parent r k u) tips
        ([], []) p start (λ y y_in u. tip y_in u) in
    (
      (walk_all prune first tips ([], [])).1,
      into_topo_vec-walk_all prune first fuel tips p le,
      h.order,
      λ c. (h.sound c, λ r. complete _ h m c r),
    )
  where
    complete :
        (s : Seen)
        → Holds prune first (IsReached prune first tips) [] s
        → ((y : Commit) → Memᴰ y tips → Memᴰ y s.0)
        → (c : Commit) → IsReached prune first tips c
        → Memᴰ c s.1
    complete s h m c (tip k u) = elim (h.known c (m c k)) [
      | inl a ↦ a
      | inr (inl q) ↦ absurd (true-false (sym q ∙ u))
      | inr (inr n) ↦ absurd (Memᴰ.not-nil n)
    ]
    complete s h m c (parent {c = d} r k u) =
        IsTopological-parents prune first s.1 d c h.order (complete s h m d r) k u
