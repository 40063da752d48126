-- ===== src/Pattern/Closure.antt =====
-- The closure of a state: it is closed, and matches what the state matches.
use Prim.Native.Nat.{◌^◌}
use josh.Base.{
  ℕ, suc, ◌+◌, ◌≤◌, ◌<◌, Bool, true, ◌&&◌, ◌||◌, List, [], ◌∷◌, length, ◌≡◌, refl, sym, ap, ◌∙◌,
  arith, ◌==◌, ◌⊎◌, inl, inr, Bool-cases, if◌then◌else◌,
}
use josh.Pattern.Mask.{bit, set, bit-set, set-lt}
use josh.Pattern.Compile.{PatternComponent, star2, glob, is_star2, closure_from}

abbrev pub Has : ℕ → ℕ → Type 0
Has p m = bit p m ≡ true

-- One round of the loop.
abbrev round : PatternComponent → ℕ → ℕ → ℕ
round c p m = if bit p m && is_star2 c then set (suc p) m else m

set-Has : (q p m : ℕ) → Has q m → Has q (set p m)
set-Has q p m h = bit-set q p m ∙ rw h (ground arith)

round-Has : (c : PatternComponent) (p m q : ℕ) → Has q m → Has q (round c p m)
round-Has c p m q h = ground (arith, set-Has q (suc p) m)

when_set : (q p m : ℕ) → Has p m → Has q (round star2 p m) → Has q (set (suc p) m)
when_set q p m old h = ground arith

-- What a round adds.
Has-round :
    (c : PatternComponent) (p m q : ℕ)
    → Has q (round c p m)
    → Has q m ⊎ ((q ≡ suc p) × Has p m × (c ≡ star2))
Has-round (glob ts) p m q h = inl (ground arith)
Has-round star2 p m q h = elim (Bool-cases (bit p m)) [
  | inl old ↦
      let h' : (q == suc p || bit q m) ≡ true = sym (bit-set q (suc p) m) ∙ when_set q p m old h in
      elim (Bool-cases (q == suc p)) [
        | inl e ↦ inr (ground arith, old, refl)
        | inr ne ↦ inl (ground arith)
      ]
  | inr not_old ↦ inl (ground arith)
]

pub closure_from-Has :
    (cs : List PatternComponent) (p m q : ℕ) → Has q m → Has q (closure_from cs p m)
unfolding closure_from
closure_from-Has [] p m q h = h
closure_from-Has (c ∷ []) p m q h = h
closure_from-Has (c ∷ d ∷ cs) p m q h =
    closure_from-Has (d ∷ cs) (suc p) (round c p m) q (round-Has c p m q h)

-- Rounds from `p` on leave the positions up to `p` alone.
closure_from-below :
    (cs : List PatternComponent) (p m q : ℕ) → q ≤ p → Has q (closure_from cs p m) → Has q m
unfolding closure_from
closure_from-below [] p m q le h = h
closure_from-below (c ∷ []) p m q le h = h
closure_from-below (c ∷ d ∷ cs) p m q le h =
    elim (Has-round c p m q (closure_from-below (d ∷ cs) (suc p) (round c p m) q (omega arith) h)) [
      | inl here ↦ here
      | inr (e, old, star) ↦ absurd (omega arith)
    ]

-- Every `**` that is not the last has its successor.
abbrev pub IsClosed : List PatternComponent → ℕ → ℕ → Type 0
IsClosed [] p m = Unit
IsClosed (c ∷ []) p m = Unit
IsClosed (c ∷ d ∷ cs) p m = (Has p m → c ≡ star2 → Has (suc p) m) × IsClosed (d ∷ cs) (suc p) m

pub closure_from-IsClosed :
    (cs : List PatternComponent) (p m : ℕ) → IsClosed cs p (closure_from cs p m)
unfolding closure_from
closure_from-IsClosed [] p m = tt
closure_from-IsClosed (c ∷ []) p m = tt
closure_from-IsClosed (c ∷ d ∷ cs) p m = (
  λ h star. closure_from-Has (d ∷ cs) (suc p) (round c p m) (suc p) (
      advanced c p m
        (round-old c p m p (omega arith)
          (closure_from-below (d ∷ cs) (suc p) (round c p m) p (omega arith) h))
        star),
  closure_from-IsClosed (d ∷ cs) (suc p) (round c p m),
)
  where
    round-old : (c : PatternComponent) (p m q : ℕ) → q ≤ p → Has q (round c p m) → Has q m
    round-old c p m q le h = elim (Has-round c p m q h) [
      | inl here ↦ here
      | inr (e, old, star) ↦ absurd (omega arith)
    ]

    advanced : (c : PatternComponent) (p m : ℕ) → Has p m → c ≡ star2 → Has (suc p) (round c p m)
    advanced star2 p m h e =
        let here : Has (suc p) (set (suc p) m) = bit-set (suc p) (suc p) m ∙ ground arith in
        rw h here
    advanced (glob ts) p m h e = cc

-- What a `**` matches with its successor it matches itself.
abbrev pub Skips : List PatternComponent → ℕ → (ℕ → Bool) → Type 0
Skips [] p f = Unit
Skips (c ∷ cs) p f = (c ≡ star2 → f (suc p) ≡ true → f p ≡ true) × Skips cs (suc p) f

pub closure_from-old :
    (cs : List PatternComponent) (p m q : ℕ) (f : ℕ → Bool)
    → Skips cs p f
    → Has q (closure_from cs p m)
    → f q ≡ true
    → (r : ℕ) × Has r m × (f r ≡ true)
unfolding closure_from
closure_from-old [] p m q f skips h e = (q, h, e)
closure_from-old (c ∷ []) p m q f skips h e = (q, h, e)
closure_from-old (c ∷ d ∷ cs) p m q f (skip, skips) h e =
    let (r, has, e') = closure_from-old (d ∷ cs) (suc p) (round c p m) q f skips h e in
    elim (Has-round c p m r has) [
      | inl old ↦ (r, old, e')
      | inr (at, old, star) ↦ (p, old, skip star (ap f (sym at) ∙ e'))
    ]

pub closure_from-lt :
    (k : ℕ) (cs : List PatternComponent) (p m : ℕ)
    → p + length cs ≤ k
    → m < 2 ^ k
    → closure_from cs p m < 2 ^ k
unfolding closure_from
closure_from-lt k [] p m le lt = lt
closure_from-lt k (c ∷ []) p m le lt = lt
closure_from-lt k (c ∷ d ∷ cs) p m le lt =
    closure_from-lt k (d ∷ cs) (suc p) (round c p m) (omega arith)
      (ground (arith, set-lt k (suc p) m))
