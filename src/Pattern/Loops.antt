-- ===== src/Pattern/Loops.antt =====
-- The loops over the active positions of a state, position by position.
use Prim.Native.Nat.{◌/◌, ◌%◌, ◌^◌}
use josh.Base.{
  ℕ, zero, suc, ◌+◌, ◌<◌, Bool, true, false, not, ◌&&◌, ◌||◌, Option, some, List, [], ◌∷◌, length,
  any, all, Text, ◌≡◌, refl, sym, ap, ◌∙◌, arith, ltb, ◌==◌, inl, inr, Bool-cases, if◌then◌else◌,
}
use josh.Pattern.Mask.{bit, set, bit-set, set-lt, bits_from, set_bits, bit-lt}
use josh.Pattern.Compile.{Glob, PatternComponent, star2, glob, is_star2, all_star_suffixes}
use josh.Pattern.Walk.{
  get_elem?, starts_with_dot, accepts_at, accepts_blobs, advance, next_state, keeps_at, keeps,
}
use josh.Pattern.Matches.{
  drop, is_nil, get_elem?-drop, get_elem?-lt, length-drop, all_star_suffixes-drop,
}
use josh.Pattern.Closure.{Has}

nil_test :
    (xs : List PatternComponent) (p n : ℕ) → n ≡ p + suc (length xs) → (suc p == n) ≡ is_nil xs
nil_test [] p n h = ground arith
nil_test (x ∷ xs) p n h = ground arith

lt_test :
    (xs : List PatternComponent) (p n : ℕ)
    → n ≡ p + suc (length xs)
    → ltb (suc p) n ≡ not (is_nil xs)
lt_test [] p n h = ground arith
lt_test (x ∷ xs) p n h = ground arith

if-set : (b : Bool) (q m j : ℕ) → bit j (if b then set q m else m) ≡ (b && j == q || bit j m)
if-set true q m j = bit-set j q m
if-set false q m j = refl

if-not-set :
    (b : Bool) (q m j : ℕ) → bit j (if b then m else set q m) ≡ (not b && j == q || bit j m)
if-not-set false q m j = bit-set j q m
if-not-set true q m j = refl

or-false : (a b : Bool) → (a || b) ≡ false → (a ≡ false) × (b ≡ false)
or-false true b h = absurd (cc)
or-false false b h = (refl, h)

or-swap : (a b c : Bool) → (b || (a || c)) ≡ ((a || b) || c)
or-swap true true c = refl
or-swap true false c = refl
or-swap false true c = refl
or-swap false false c = refl

if-or :
    (b : Bool) {c : Bool} {rest : Option Bool}
    → rest ≡ some c
    → (if b then some true else rest) ≡ some (b || c)
if-or true h = refl
if-or false h = h

-- Every position that is visited has a component.
abbrev pub InRange : ℕ → List ℕ → Type 0
InRange k [] = Unit
InRange k (p ∷ ps) = (p < k) × InRange k ps

bits_from-InRange :
    (k width p m : ℕ) → ((q : ℕ) → Has q m → p + q < k) → InRange k (bits_from width p m)
unfolding bits_from bit
bits_from-InRange k zero p m h = tt
bits_from-InRange k (suc width) p m h =
    let rest = bits_from-InRange k width (suc p) (m / 2) (λ q b. omega (arith, h (suc q) b)) in
    elim (Bool-cases (m % 2 == 1)) [
      | inl odd ↦ rw (odd, InRange) (omega (arith, h 0 odd), rest)
      | inr even ↦ rw (even, InRange) rest
    ]

pub set_bits-InRange : (k m : ℕ) → m < 2 ^ k → InRange k (set_bits m)
unfolding set_bits
set_bits-InRange k m lt = bits_from-InRange k 64 0 m (λ q h. omega (arith, bit-lt k q m h lt))

module _ (g : Glob) (cs : List PatternComponent) where
  abbrev stars : List Bool
  stars = all_star_suffixes cs

  -- Whether a position, with the components from it on, keeps a blob of the name.
  abbrev pub keeps_here : Text → List PatternComponent → Bool
  keeps_here name [] = false
  keeps_here name (glob ts ∷ cs') = is_nil cs' && g.token_matches ts name
  keeps_here name (star2 ∷ cs') = all is_star2 cs' && not (starts_with_dot name)

  abbrev pub accepts_here : List PatternComponent → Bool
  accepts_here [] = false
  accepts_here (glob ts ∷ cs') = is_nil cs'
  accepts_here (star2 ∷ cs') = all is_star2 cs'

  -- Whether it adds the position `j` to the successor state.
  abbrev pub adds_here : Text → ℕ → ℕ → List PatternComponent → Bool
  adds_here name j p [] = false
  adds_here name j p (glob ts ∷ cs') = not (is_nil cs') && g.token_matches ts name && j == suc p
  adds_here name j p (star2 ∷ cs') = not (starts_with_dot name) && j == p

  last_position :
      (p : ℕ) (c : PatternComponent)
      → get_elem? cs p ≡ some c
      → (suc p == length cs) ≡ is_nil (drop (suc p) cs)
  last_position p c h =
      nil_test (drop (suc p) cs) p (length cs)
        (length-drop cs (drop (suc p) cs) p (get_elem?-drop cs p h))

  keeps_at-here :
      (name : Text) (p : ℕ) (c : PatternComponent)
      → p < length cs
      → get_elem? cs p ≡ some c
      → keeps_at g cs stars name c p ≡ some (keeps_here name (drop p cs))
  unfolding keeps_at
  keeps_at-here name p (glob ts) lt h =
      rw (get_elem?-drop cs p h)
        (ap (λ b. some (b && g.token_matches ts name)) (last_position p (glob ts) h))
  keeps_at-here name p star2 lt h = rw (all_star_suffixes-drop cs p lt) (rw (get_elem?-drop cs p h))

  pub keeps-any :
      (name : Text) (ps : List ℕ)
      → InRange (length cs) ps
      → keeps g cs stars name ps ≡ some (any (λ p. keeps_here name (drop p cs)) ps)
  unfolding keeps
  keeps-any name [] h = refl
  keeps-any name (p ∷ ps) (lt, h) =
      let (c, found) = get_elem?-lt cs p lt in
      rw found (
        rw (keeps_at-here name p c lt found)
          (if-or (keeps_here name (drop p cs)) (keeps-any name ps h)))

  accepts_at-here :
      (p : ℕ) (c : PatternComponent)
      → p < length cs
      → get_elem? cs p ≡ some c
      → accepts_at g cs stars c p ≡ some (accepts_here (drop p cs))
  unfolding accepts_at
  accepts_at-here p (glob ts) lt h =
      rw (get_elem?-drop cs p h) (ap some (last_position p (glob ts) h))
  accepts_at-here p star2 lt h = rw (all_star_suffixes-drop cs p lt) (rw (get_elem?-drop cs p h))

  pub accepts_blobs-any :
      (ps : List ℕ)
      → InRange (length cs) ps
      → accepts_blobs g cs stars ps ≡ some (any (λ p. accepts_here (drop p cs)) ps)
  unfolding accepts_blobs
  accepts_blobs-any [] h = refl
  accepts_blobs-any (p ∷ ps) (lt, h) =
      let (c, found) = get_elem?-lt cs p lt in
      rw found (rw (accepts_at-here p c lt found) (rw (accepts_blobs-any ps h)))

  keeps-none :
      (name : Text) (cs' : List PatternComponent)
      → accepts_here cs' ≡ false
      → keeps_here name cs' ≡ false
  keeps-none name [] h = refl
  keeps-none name (glob ts ∷ cs') h = rw h
  keeps-none name (star2 ∷ cs') h = rw h

  any-keeps-accepts :
      (name : Text) (ps : List ℕ)
      → any (λ p. accepts_here (drop p cs)) ps ≡ false
      → any (λ p. keeps_here name (drop p cs)) ps ≡ false
  any-keeps-accepts name [] h = refl
  any-keeps-accepts name (p ∷ ps) h =
      let (here, later) = or-false _ _ h in
      rw (any-keeps-accepts name ps later) (rw (keeps-none name (drop p cs) here))

  -- With the test in front, the loop still finds what keeps the blob.
  pub keep_blob :
      (name : Text) (ps : List ℕ)
      → InRange (length cs) ps
      → (if any (λ p. accepts_here (drop p cs)) ps then keeps g cs stars name ps else some false)
        ≡ some (any (λ p. keeps_here name (drop p cs)) ps)
  keep_blob name ps h = elim (Bool-cases (any (λ p. accepts_here (drop p cs)) ps)) [
    | inl e ↦ rw e (keeps-any name ps h)
    | inr e ↦ rw e (ap some (sym (any-keeps-accepts name ps e)))
  ]

  -- The bits of the successor state.
  advance-Has :
      (name : Text) (c : PatternComponent) (p next j : ℕ)
      → get_elem? cs p ≡ some c
      → bit j (advance g cs stars name c p next) ≡ (adds_here name j p (drop p cs) || bit j next)
  unfolding advance
  advance-Has name (glob ts) p next j h = rw (get_elem?-drop cs p h) (
      rw
        (lt_test (drop (suc p) cs) p (length cs)
          (length-drop cs (drop (suc p) cs) p (get_elem?-drop cs p h)))
        (if-set (not (is_nil (drop (suc p) cs)) && g.token_matches ts name) (suc p) next j))
  advance-Has name star2 p next j h =
      rw (get_elem?-drop cs p h) (if-not-set (starts_with_dot name) p next j)

  advance-lt :
      (name : Text) (c : PatternComponent) (p next : ℕ)
      → p < length cs
      → next < 2 ^ length cs
      → advance g cs stars name c p next < 2 ^ length cs
  unfolding advance
  advance-lt name (glob ts) p next lt small = ground (arith, set-lt (length cs) (suc p) next)
  advance-lt name star2 p next lt small = ground (arith, set-lt (length cs) p next)

  -- The successor state has a bit for each number of components, and the bits that are added.
  pub next_state-bits :
      (name : Text) (ps : List ℕ) (next : ℕ)
      → InRange (length cs) ps
      → next < 2 ^ length cs
      → (r : ℕ) × (next_state g cs stars name ps next ≡ some r)
        × (r < 2 ^ length cs)
        × ((j : ℕ) → bit j r ≡ (any (λ p. adds_here name j p (drop p cs)) ps || bit j next))
  unfolding next_state
  next_state-bits name [] next h small = (next, refl, small, λ j. refl)
  next_state-bits name (p ∷ ps) next (lt, h) small =
      let (c, found) = get_elem?-lt cs p lt in
      let (r, e, below, bits) =
        next_state-bits name ps (advance g cs stars name c p next) h
          (advance-lt name c p next lt small) in
      (r, rw found e, below, λ j. bits j ∙ regroup j (advance-Has name c p next j found))
    where
      regroup :
          (j : ℕ) {b : Bool}
          → b ≡ (adds_here name j p (drop p cs) || bit j next)
          → (any (λ p. adds_here name j p (drop p cs)) ps || b) ≡ (
              (adds_here name j p (drop p cs) || any (λ p. adds_here name j p (drop p cs)) ps)
              || bit j next)
      regroup j e = rw e (
          or-swap (adds_here name j p (drop p cs)) (any (λ p. adds_here name j p (drop p cs)) ps)
            (bit j next))
