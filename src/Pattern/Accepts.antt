-- ===== src/Pattern/Accepts.antt =====
-- What a state matches, and that the loops follow it.
use Prim.Native.Nat.{◌^◌}
use josh.Base.{
  ℕ, zero, suc, ◌+◌, ◌<◌, Bool, true, false, not, ◌||◌, List, [], ◌∷◌, any, all, Text, ◌≡◌, ◌↔◌,
  refl, sym, ap, subst, ◌∙◌, arith, inl, inr,
}
use josh.Pattern.Mask.{bit, bit_zero, or-cases, set_bits, bit-lt, any-bits_from, bits_from-any}
use josh.Pattern.Compile.{Glob, PatternComponent, star2, glob, is_star2, closure}
use josh.Pattern.Walk.{starts_with_dot}
use josh.Pattern.Matches.{path_matches, drop, drop-suc}
use josh.Pattern.Closure.{Has, IsClosed, closure_from-Has, closure_from-old, Skips}
use josh.Pattern.Loops.{keeps_here, adds_here}

zero_add : (q : ℕ) → q ≡ 0 + q
zero_add q = omega arith

or_zero : (a b : Bool) → b ≡ false → (a || b) ≡ a
or_zero true b h = refl
or_zero false b h = h

-- A loop over the set bits looks at all of them.
pub any-set_bits :
    (f : ℕ → Bool) (m : ℕ)
    → m < 2 ^ 64
    → (any f (set_bits m) ≡ true) ↔ ((q : ℕ) × Has q m × (f q ≡ true))
unfolding set_bits
any-set_bits f m lt = (
  λ h. let (q, b, e) = any-bits_from f 64 0 m h in (q, b, ap f (zero_add q) ∙ e),
  λ (q, b, e). bits_from-any f 64 0 m q (bit-lt 64 q m b lt) b (ap f (sym (zero_add q)) ∙ e),
)

module _ (g : Glob) (cs : List PatternComponent) where
  -- Some active position matches the path.
  abbrev pub Accepts : ℕ → List Text → Type 0
  Accepts m ns = (p : ℕ) × Has p m × (path_matches g.token_matches (drop p cs) ns ≡ true)

  pub initial-Accepts :
      (ns : List Text) → Accepts 1 ns ↔ (path_matches g.token_matches cs ns ≡ true)
  unfolding bit
  initial-Accepts ns = (λ (p, b, e). only_zero p b e, λ h. (0, refl, h))
    where
      only_zero :
          (p : ℕ)
          → Has p 1
          → path_matches g.token_matches (drop p cs) ns ≡ true
          → path_matches g.token_matches cs ns ≡ true
      only_zero zero b e = e
      only_zero (suc p) b e = absurd (cc (bit_zero p))

  star_skips :
      (s : List PatternComponent) (ns : List Text)
      → path_matches g.token_matches s ns ≡ true
      → path_matches g.token_matches (star2 ∷ s) ns ≡ true
  unfolding path_matches
  star_skips [] ns h = absurd (cc)
  star_skips (c ∷ s) [] h = absurd (cc)
  star_skips (c ∷ s) (n ∷ []) h = ground arith
  star_skips (c ∷ s) (n ∷ n' ∷ ns) h = ground arith

  skips :
      (cs' : List PatternComponent) (p : ℕ) (ns : List Text)
      → drop p cs ≡ cs'
      → Skips cs' p (λ q. path_matches g.token_matches (drop q cs) ns)
  skips [] p ns e = tt
  skips (c ∷ cs') p ns e = (
    λ star h.
        let after = drop-suc cs cs' p e in
        ap (λ s. path_matches g.token_matches s ns) (e ∙ ap (λ d. d ∷ cs') star)
        ∙ star_skips cs' ns (ap (λ s. path_matches g.token_matches s ns) (sym after) ∙ h),
    skips cs' (suc p) ns (drop-suc cs cs' p e),
  )

  -- The closure matches the same.
  pub closure-Accepts : (m : ℕ) (ns : List Text) → Accepts (closure cs m) ns ↔ Accepts m ns
  unfolding closure
  closure-Accepts m ns = (
    λ (p, b, e).
        closure_from-old cs 0 m p (λ q. path_matches g.token_matches (drop q cs) ns)
          (skips cs 0 ns refl) b e,
    λ (p, b, e). (p, closure_from-Has cs 0 m p b, e),
  )

  pub closed_step :
      (cs' : List PatternComponent) (q p m : ℕ) {d : PatternComponent}
      {rest : List PatternComponent}
      → IsClosed cs' q m
      → drop p cs' ≡ star2 ∷ d ∷ rest
      → Has (q + p) m
      → Has (suc (q + p)) m
  closed_step [] q zero m h e b = absurd (cc)
  closed_step [] q (suc p) m h e b = absurd (cc)
  closed_step (c ∷ []) q zero m h e b = absurd (cc)
  closed_step (c ∷ []) q (suc zero) m h e b = absurd (cc)
  closed_step (c ∷ []) q (suc (suc p)) m h e b = absurd (cc)
  closed_step (c ∷ d ∷ cs') q zero m (here, h) e b =
      let same : q + 0 ≡ q = omega arith in
      subst (λ x. Has (suc x) m) (sym same) (here (subst (λ x. Has x m) same b) (cc e))
  closed_step (c ∷ d ∷ cs') q (suc p) m (here, h) e b =
      let same : suc q + p ≡ q + suc p = omega arith in
      subst (λ x. Has (suc x) m) same
        (closed_step (d ∷ cs') (suc q) p m h e (subst (λ x. Has x m) (sym same) b))

  closed_at :
      (p m : ℕ) {d : PatternComponent} {rest : List PatternComponent}
      → IsClosed cs 0 m
      → drop p cs ≡ star2 ∷ d ∷ rest
      → Has p m
      → Has (suc p) m
  closed_at p m closed e b =
      subst (λ x. Has (suc x) m) (sym (zero_add p))
        (closed_step cs 0 p m closed e (subst (λ x. Has x m) (zero_add p) b))

  keeps-matches :
      (n : Text) (s : List PatternComponent)
      → keeps_here g cs n s ≡ true
      → path_matches g.token_matches s (n ∷ []) ≡ true
  unfolding path_matches
  keeps-matches n [] h = cc
  keeps-matches n (glob ts ∷ s) h = ground arith
  keeps-matches n (star2 ∷ s) h = ground arith

  matches-keeps :
      (n : Text) (m : ℕ) (s : List PatternComponent) (p : ℕ)
      → IsClosed cs 0 m
      → drop p cs ≡ s
      → Has p m
      → path_matches g.token_matches s (n ∷ []) ≡ true
      → (q : ℕ) × Has q m × (keeps_here g cs n (drop q cs) ≡ true)
  unfolding path_matches
  matches-keeps n m [] p closed e b h = absurd (cc)
  matches-keeps n m (glob ts ∷ s) p closed e b h = (p, b, rw e (ground arith))
  matches-keeps n m (star2 ∷ []) p closed e b h = (p, b, rw e (ground arith))
  matches-keeps n m (star2 ∷ d ∷ s) p closed e b h =
      elim (or-cases (not (starts_with_dot n)) (all is_star2 (d ∷ s))
        (path_matches g.token_matches (d ∷ s) (n ∷ [])) h) [
          | inl (no_dot, stars) ↦ (p, b, rw e (ground arith))
          | inr later ↦
              matches-keeps n m (d ∷ s) (suc p) closed (drop-suc cs (d ∷ s) p e)
                (closed_at p m closed e b) later
        ]

  -- What the loop over a blob finds is that a position matches its name.
  pub keep-Accepts :
      (n : Text) (m : ℕ)
      → m < 2 ^ 64
      → IsClosed cs 0 m
      → (any (λ p. keeps_here g cs n (drop p cs)) (set_bits m) ≡ true) ↔ Accepts m (n ∷ [])
  keep-Accepts n m lt closed =
      let (out, back) = any-set_bits (λ p. keeps_here g cs n (drop p cs)) m lt in
      (
        λ h. let (p, b, e) = out h in (p, b, keeps-matches n (drop p cs) e),
        λ (p, b, e). back (matches-keeps n m (drop p cs) p closed refl b e),
      )

  adds-matches :
      (n n' : Text) (ns : List Text) (m p j : ℕ) (s : List PatternComponent)
      → drop p cs ≡ s
      → adds_here g cs n j p s ≡ true
      → path_matches g.token_matches (drop j cs) (n' ∷ ns) ≡ true
      → path_matches g.token_matches s (n ∷ n' ∷ ns) ≡ true
  unfolding path_matches
  adds-matches n n' ns m p j [] e h k = absurd (cc)
  adds-matches n n' ns m p j (glob ts ∷ s) e h k =
      let at : j ≡ suc p = ground arith in
      let k' : path_matches g.token_matches s (n' ∷ ns) ≡ true =
        ap (λ l. path_matches g.token_matches l (n' ∷ ns))
          (sym (ap (λ i. drop i cs) at ∙ drop-suc cs s p e))
        ∙ k in
      ground arith
  adds-matches n n' ns m p j (star2 ∷ s) e h k =
      let at : j ≡ p = ground arith in
      let k' : path_matches g.token_matches (star2 ∷ s) (n' ∷ ns) ≡ true =
        ap (λ l. path_matches g.token_matches l (n' ∷ ns)) (sym (ap (λ i. drop i cs) at ∙ e)) ∙ k in
      ground arith

  matches-adds :
      (n n' : Text) (ns : List Text) (m : ℕ) (s : List PatternComponent) (p : ℕ)
      → IsClosed cs 0 m
      → drop p cs ≡ s
      → Has p m
      → path_matches g.token_matches s (n ∷ n' ∷ ns) ≡ true
      → (j q : ℕ) × Has q m
        × (adds_here g cs n j q (drop q cs) ≡ true)
        × (path_matches g.token_matches (drop j cs) (n' ∷ ns) ≡ true)
  unfolding path_matches
  matches-adds n n' ns m [] p closed e b h = absurd (cc)
  matches-adds n n' ns m (glob ts ∷ []) p closed e b h = absurd (ground arith)
  matches-adds n n' ns m (glob ts ∷ d ∷ s) p closed e b h = (
    suc p,
    p,
    b,
    rw e (ground arith),
    ap (λ l. path_matches g.token_matches l (n' ∷ ns)) (drop-suc cs (d ∷ s) p e) ∙ ground arith,
  )
  matches-adds n n' ns m (star2 ∷ []) p closed e b h = (
    p,
    p,
    b,
    rw e (ground arith),
    ap (λ l. path_matches g.token_matches l (n' ∷ ns)) e ∙ ground arith,
  )
  matches-adds n n' ns m (star2 ∷ d ∷ s) p closed e b h =
      elim (or-cases (not (starts_with_dot n))
        (path_matches g.token_matches (star2 ∷ d ∷ s) (n' ∷ ns))
        (path_matches g.token_matches (d ∷ s) (n ∷ n' ∷ ns)) h) [
          | inl (no_dot, below) ↦ (
            p,
            p,
            b,
            rw e (ground arith),
            ap (λ l. path_matches g.token_matches l (n' ∷ ns)) e ∙ below,
          )
          | inr later ↦
              matches-adds n n' ns m (d ∷ s) (suc p) closed (drop-suc cs (d ∷ s) p e)
                (closed_at p m closed e b) later
        ]

  -- The successor state matches what is left of the path.
  pub next-Accepts :
      (n n' : Text) (ns : List Text) (m r : ℕ)
      → m < 2 ^ 64
      → IsClosed cs 0 m
      → ((j : ℕ) → bit j r ≡ (any (λ p. adds_here g cs n j p (drop p cs)) (set_bits m) || bit j 0))
      → Accepts r (n' ∷ ns) ↔ Accepts m (n ∷ n' ∷ ns)
  next-Accepts n n' ns m r lt closed bits = (
    λ (j, b, e).
        let (p, has, adds) =
          (any-set_bits (λ p. adds_here g cs n j p (drop p cs)) m lt).0 (only_added j b) in
        (p, has, adds-matches n n' ns m p j (drop p cs) refl adds e),
    λ (p, b, e).
        let (j, q, has, adds, below) = matches-adds n n' ns m (drop p cs) p closed refl b e in
        (
          j,
          added j ((any-set_bits (λ p. adds_here g cs n j p (drop p cs)) m lt).1 (q, has, adds)),
          below,
        ),
  )
    where
      only_added :
          (j : ℕ) → Has j r → any (λ p. adds_here g cs n j p (drop p cs)) (set_bits m) ≡ true
      only_added j b = sym (bits j ∙ or_zero _ _ (bit_zero j)) ∙ b

      added : (j : ℕ) → any (λ p. adds_here g cs n j p (drop p cs)) (set_bits m) ≡ true → Has j r
      added j h = bits j ∙ or_zero _ _ (bit_zero j) ∙ h
