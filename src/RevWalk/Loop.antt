-- ===== src/RevWalk/Loop.antt =====
-- The loop of `dfs` does what the recursive walk does, in at most so many steps.
use josh.Base.{
  ℕ, suc, ◌+◌, ◌-◌, ◌≤◌, ◌<◌, Bool, true, false, List, [], ◌∷◌, ◌++◌, map, ◌≡◌, refl, ap, sym, ◌∙◌,
  subst, inl, inr, Bool-cases, arith, Text, if-true, if-false,
}
use mathlib.Core.List.{append-nil, append_assoc}
use josh.Tree.Object.{Obj}
use josh.Apply.Run.{ok, ◌>>=◌}
use josh.RevWalk.{
  Commit, Commits, commit, missing, nil, cons, to_list, mem, Frame, explore, emit, Walk, explored,
  visit, dfs_step, dfs, push_tips, walk_tips, into_topo_vec,
}
use josh.RevWalk.Recursive.{
  IsPresent, ArePresent, Seen, emitted, weight, weight_all, walk, walk_parents, walk-visited,
  walk-pruned, walk-open, walk_all, AllPresent, weight_tips,
}

module _ (prune : Commit → Bool) (first_parent : Bool) where
  -- The loop comes from the one state to the other in at most so many steps.
  abbrev Comes : ℕ → List Frame → List Frame → Seen → Seen → Type 0
  Comes bound x y s t =
      (k : ℕ) × (k ≤ bound)
      × ((n : ℕ) → dfs prune first_parent (k + n) x s.0 s.1 ≡ dfs prune first_parent n y t.0 t.1)

  Comes-refl : (x : List Frame) (s : Seen) → Comes 0 x x s s
  Comes-refl x s = (0, omega arith, λ n. ap (λ m. dfs prune first_parent m x s.0 s.1) (omega arith))

  Comes-trans :
      (a b : ℕ) (x y z : List Frame) (s t u : Seen)
      → Comes a x y s t
      → Comes b y z t u
      → Comes (a + b) x z s u
  Comes-trans a b x y z s t u (k, le, h) (l, le', h') = (
    k + l,
    omega arith,
    λ n. ap (λ m. dfs prune first_parent m x s.0 s.1) (omega arith) ∙ h (l + n) ∙ h' n,
  )

  Comes-step :
      (frame : Frame) (rest : List Frame) (s : Seen) (w : Walk)
      → dfs_step prune first_parent frame rest s.0 s.1 ≡ ok w
      → Comes 1 (frame ∷ rest) w.stack s (w.visited, w.post)
  unfolding dfs
  Comes-step frame rest s w e = (
    1,
    omega arith,
    λ n.
        ap (λ m. dfs prune first_parent m (frame ∷ rest) s.0 s.1) (one_more n)
        ∙ ap (λ r. r >>= (λ v. dfs prune first_parent n v.stack v.visited v.post)) e,
  )
    where
      one_more : (n : ℕ) → 1 + n ≡ suc n
      one_more n = omega arith

  visited-Comes :
      (t : Obj) (ps : Commits) (b : Text) (rest : List Frame) (seen post : List Commit)
      → mem (commit t ps b) seen ≡ true
      → Comes 1
          (explore (commit t ps b) ∷ rest)
          rest
          (seen, post)
          (walk prune first_parent (commit t ps b) (seen, post))
  unfolding dfs_step
  visited-Comes t ps b rest seen post m =
      subst (Comes 1 (explore (commit t ps b) ∷ rest) rest (seen, post))
        (sym (walk-visited prune first_parent t ps b seen post m))
        (Comes-step (explore (commit t ps b)) rest (seen, post)
          (record { stack = rest; visited = seen; post = post })
          (if-true (mem (commit t ps b) seen) _ _ m))

  pruned-Comes :
      (t : Obj) (ps : Commits) (b : Text) (rest : List Frame) (seen post : List Commit)
      → mem (commit t ps b) seen ≡ false
      → prune (commit t ps b) ≡ true
      → Comes 1
          (explore (commit t ps b) ∷ rest)
          rest
          (seen, post)
          (walk prune first_parent (commit t ps b) (seen, post))
  unfolding dfs_step visit
  pruned-Comes t ps b rest seen post m p =
      subst (Comes 1 (explore (commit t ps b) ∷ rest) rest (seen, post))
        (sym (walk-pruned prune first_parent t ps b seen post m p))
        (Comes-step (explore (commit t ps b)) rest (seen, post)
          (record { stack = rest; visited = commit t ps b ∷ seen; post = post })
          (if-false (mem (commit t ps b) seen) _ _ m ∙ if-true (prune (commit t ps b)) _ _ p))

  -- A commit that is opened takes two steps more than its parents.
  open-Comes :
      (t : Obj) (ps : Commits) (b : Text) (rest : List Frame) (seen post : List Commit)
      → mem (commit t ps b) seen ≡ false
      → prune (commit t ps b) ≡ false
      → Comes
          (weight_all ps)
          (map explore (explored first_parent (to_list ps)) ++ emit (commit t ps b) ∷ rest)
          (emit (commit t ps b) ∷ rest)
          (commit t ps b ∷ seen, post)
          (walk_parents prune first_parent first_parent ps (commit t ps b ∷ seen, post))
      → Comes
          (suc (suc (weight_all ps)))
          (explore (commit t ps b) ∷ rest)
          rest
          (seen, post)
          (walk prune first_parent (commit t ps b) (seen, post))
  unfolding dfs_step visit
  open-Comes t ps b rest seen post m p second =
      subst (Comes (suc (suc (weight_all ps))) (explore (commit t ps b) ∷ rest) rest (seen, post))
        (sym (walk-open prune first_parent t ps b seen post m p))
        (let c = commit t ps b in
          let s1 : Seen = (c ∷ seen, post) in
          let s2 : Seen = walk_parents prune first_parent first_parent ps s1 in
          let frames = map explore (explored first_parent (to_list ps)) ++ emit c ∷ rest in
          let first =
            Comes-step (explore c) rest (seen, post)
              (record { stack = frames; visited = c ∷ seen; post = post })
              (if-false (mem c seen) _ _ m ∙ if-false (prune c) _ _ p) in
          let third =
            Comes-step (emit c) rest s2 (record { stack = rest; visited = s2.0; post = c ∷ s2.1 })
              refl in
          let (k, le, e) =
            Comes-trans 1 (weight_all ps + 1) _ frames rest (seen, post) s1 (emitted c s2) first
              (Comes-trans (weight_all ps) 1 frames (emit c ∷ rest) rest s1 s2 (emitted c s2) second
                third) in
          (k, omega arith, e))

  within : (a b : ℕ) (x y : List Frame) (s u : Seen) → a ≤ b → Comes a x y s u → Comes b x y s u
  within a b x y s u le (k, le', e) = (k, omega arith, e)

  mutual
    unfolding weight walk

    pub walk-Comes :
        (c : Commit) (rest : List Frame) (s : Seen)
        → IsPresent c
        → Comes (weight c) (explore c ∷ rest) rest s (walk prune first_parent c s)
    walk-Comes (missing i) rest s h = absurd h
    walk-Comes (commit t ps b) rest (seen, post) h = elim (Bool-cases (mem (commit t ps b) seen)) [
      | inl m ↦
          within 1 (suc (suc (weight_all ps))) _ _ _ _ (omega arith)
            (visited-Comes t ps b rest seen post m)
      | inr m ↦ elim (Bool-cases (prune (commit t ps b))) [
        | inl p ↦
            within 1 (suc (suc (weight_all ps))) _ _ _ _ (omega arith)
              (pruned-Comes t ps b rest seen post m p)
        | inr p ↦ open-Comes t ps b rest seen post m p (
            walk_parents-Comes first_parent ps (emit (commit t ps b) ∷ rest)
              (commit t ps b ∷ seen, post) h)
      ]
    ]

    pub walk_parents-Comes :
        (first : Bool) (cs : Commits) (rest : List Frame) (s : Seen)
        → ArePresent cs
        → Comes
            (weight_all cs)
            (map explore (explored first (to_list cs)) ++ rest)
            rest
            s
            (walk_parents prune first_parent first cs s)
    walk_parents-Comes true nil rest s h = Comes-refl rest s
    walk_parents-Comes false nil rest s h = Comes-refl rest s
    walk_parents-Comes true (cons c cs) rest s h =
        let (k, le, e) = walk-Comes c rest s h.0 in (k, omega arith, e)
    walk_parents-Comes false (cons c cs) rest s h =
        Comes-trans (weight c) (weight_all cs) _ (map explore (to_list cs) ++ rest) rest s
          (walk prune first_parent c s) _ (walk-Comes c (map explore (to_list cs) ++ rest) s h.0)
          (walk_parents-Comes false cs rest (walk prune first_parent c s) h.1)

walk_all-Comes :
    (prune : Commit → Bool) (first_parent : Bool) (tips : List Commit) (s : Seen)
    → AllPresent tips
    → Comes prune first_parent
        (weight_tips tips)
        (map explore tips)
        []
        s
        (walk_all prune first_parent tips s)
unfolding walk_all weight_tips
walk_all-Comes prune first_parent [] s h = Comes-refl prune first_parent [] s
walk_all-Comes prune first_parent (c ∷ cs) s h =
    Comes-trans prune first_parent (weight c) (weight_tips cs) _ (map explore cs) [] s
      (walk prune first_parent c s) _ (walk-Comes prune first_parent c (map explore cs) s h.0)
      (walk_all-Comes prune first_parent cs (walk prune first_parent c s) h.1)

push_tips-append : (tips cs : List Commit) → AllPresent cs → push_tips tips cs ≡ ok (tips ++ cs)
push_tips-append tips [] h = ap ok (sym (append-nil tips))
push_tips-append tips (missing i ∷ cs) h = absurd h.0
push_tips-append tips (commit t ps b ∷ cs) h =
    push_tips-append (tips ++ commit t ps b ∷ []) cs h.1
    ∙ ap ok (append_assoc tips (commit t ps b ∷ []) cs)

-- With enough fuel, the walk does what the recursive walk does.
pub walk_tips-walk_all :
    (prune : Commit → Bool) (first_parent : Bool) (fuel : ℕ) (tips : List Commit)
    → AllPresent tips
    → weight_tips tips < fuel
    → walk_tips prune first_parent fuel tips ≡ ok (walk_all prune first_parent tips ([], []))
unfolding walk_tips dfs
walk_tips-walk_all prune first_parent fuel tips h le =
    let (k, le', e) = walk_all-Comes prune first_parent tips ([], []) h in
    rw (push_tips-append [] tips h) (
      ap (λ m. dfs prune first_parent m (map explore tips) [] []) (enough k le')
      ∙ e (suc (fuel - suc k)))
  where
    enough : (k : ℕ) → k ≤ weight_tips tips → fuel ≡ k + suc (fuel - suc k)
    enough k l = omega arith

pub into_topo_vec-walk_all :
    (prune : Commit → Bool) (first_parent : Bool) (fuel : ℕ) (tips : List Commit)
    → AllPresent tips
    → weight_tips tips < fuel
    → into_topo_vec prune first_parent fuel tips ≡ ok (walk_all prune first_parent tips ([], [])).1
unfolding into_topo_vec
into_topo_vec-walk_all prune first_parent fuel tips h le =
    ap (λ r. r >>= (λ s. ok s.1)) (walk_tips-walk_all prune first_parent fuel tips h le)
