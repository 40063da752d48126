-- ===== src/Pattern/Mask.antt =====
-- The `u64` sets of positions in josh-filter/src/pattern.rs and josh-core/src/filter/tree.rs.
use Prim.Native.Nat.{◌/◌, ◌%◌, ◌^◌}
use native.Mathlib.Nat.{add-zero}
use josh.Base.{
  ℕ, zero, suc, ◌+◌, ◌*◌, ◌<◌, ◌≡◌, refl, sym, ap, ◌∙◌, Bool, true, false, ◌||◌, ◌&&◌, List, [],
  ◌∷◌, arith, any, ◌==◌, if◌then◌else◌, inl, inr, ◌⊎◌,
}

-- `m & (1 << p) != 0`
unfoldable pub bit : ℕ → ℕ → Bool
bit zero m = m % 2 == 1
bit (suc p) m = bit p (m / 2)

-- `m | (1 << p)`
unfoldable pub set : ℕ → ℕ → ℕ
set zero m = if m % 2 == 1 then m else m + 1
set (suc p) m = m % 2 + 2 * set p (m / 2)

-- `while bits != 0 { p = bits.trailing_zeros(); bits &= bits - 1; … }`: the bits that are set, from
-- the lowest on.
unfoldable pub bits_from : ℕ → ℕ → ℕ → List ℕ
bits_from zero p m = []
bits_from (suc width) p m =
    let rest = bits_from width (suc p) (m / 2) in if m % 2 == 1 then p ∷ rest else rest

unfoldable pub set_bits : ℕ → List ℕ
unfolding bits_from
set_bits m = bits_from 64 0 m

pub bit_zero : (p : ℕ) → bit p 0 ≡ false
unfolding bit
bit_zero zero = refl
bit_zero (suc p) = bit_zero p

same_test : (q p : ℕ) → (q == p) ≡ (suc q == suc p)
same_test q p = ground arith

pub bit-set : (q p m : ℕ) → bit q (set p m) ≡ (q == p || bit q m)
unfolding bit set
bit-set zero zero m = ground arith
bit-set (suc q) zero m =
    let same : (if m % 2 == 1 then m else m + 1) / 2 ≡ m / 2 = ground arith in
    let other : (suc q == 0) ≡ false = ground arith in rw other (ap (bit q) same)
bit-set zero (suc p) m = ground arith
bit-set (suc q) (suc p) m =
    let half : (m % 2 + 2 * set p (m / 2)) / 2 ≡ set p (m / 2) = omega arith in
    ap (bit q) half ∙ bit-set q p (m / 2) ∙ ap (λ b. b || bit q (m / 2)) (same_test q p)

pub set-lt : (k p m : ℕ) → p < k → m < 2 ^ k → set p m < 2 ^ k
unfolding set
set-lt zero p m h lt = absurd (omega arith)
set-lt (suc k) zero m h lt = ground (arith)
set-lt (suc k) (suc p) m h lt = omega (arith, set-lt k p (m / 2) (omega arith) (omega (arith)))

pub bit-lt : (k p m : ℕ) → bit p m ≡ true → m < 2 ^ k → p < k
unfolding bit
bit-lt zero zero m h lt = absurd (ground arith)
bit-lt zero (suc p) m h lt = let zero_half : m / 2 ≡ 0 = omega arith in absurd (cc (bit_zero p))
bit-lt (suc k) zero m h lt = omega arith
bit-lt (suc k) (suc p) m h lt = omega (arith, bit-lt k p (m / 2) h (omega (arith)))

or-right : (a b : Bool) → b ≡ true → (a || b) ≡ true
or-right true b h = refl
or-right false b h = h

any-if :
    (f : ℕ → Bool) (b : Bool) (x : ℕ) (xs : List ℕ)
    → any f (if b then x ∷ xs else xs) ≡ (b && f x || any f xs)
any-if f true x xs = refl
any-if f false x xs = refl

pub or-cases : (a b c : Bool) → (a && b || c) ≡ true → ((a ≡ true) × (b ≡ true)) ⊎ (c ≡ true)
or-cases true true c h = inl (refl, refl)
or-cases true false c h = inr h
or-cases false b c h = inr h

shift : (f : ℕ → Bool) (p q : ℕ) → f (suc p + q) ≡ f (p + suc q)
shift f p q = let e : suc p + q ≡ p + suc q = omega arith in ap f e

-- A bit that the loop visits is set.
pub any-bits_from :
    (f : ℕ → Bool) (width p m : ℕ)
    → any f (bits_from width p m) ≡ true
    → (q : ℕ) × (bit q m ≡ true) × (f (p + q) ≡ true)
unfolding bits_from bit
any-bits_from f zero p m h = absurd (cc)
any-bits_from f (suc width) p m h =
    let rest = bits_from width (suc p) (m / 2) in
    elim (or-cases (m % 2 == 1) (f p) (any f rest) (sym (any-if f (m % 2 == 1) p rest) ∙ h)) [
      | inl (odd, here) ↦ (0, odd, ap f (add-zero p) ∙ here)
      | inr later ↦
          let (q, b, e) = any-bits_from f width (suc p) (m / 2) later in
          (suc q, b, sym (shift f p q) ∙ e)
    ]

-- Every bit below the width that is set is visited.
pub bits_from-any :
    (f : ℕ → Bool) (width p m q : ℕ)
    → q < width
    → bit q m ≡ true
    → f (p + q) ≡ true
    → any f (bits_from width p m) ≡ true
unfolding bits_from bit
bits_from-any f zero p m q lt b e = absurd (omega arith)
bits_from-any f (suc width) p m zero lt b e =
    any-if f (m % 2 == 1) p (bits_from width (suc p) (m / 2))
    ∙ rw b (rw (sym (ap f (add-zero p)) ∙ e))
bits_from-any f (suc width) p m (suc q) lt b e =
    let rest = bits_from width (suc p) (m / 2) in
    let ih : any f rest ≡ true =
      bits_from-any f width (suc p) (m / 2) q (omega arith) b (shift f p q ∙ e) in
    any-if f (m % 2 == 1) p rest ∙ or-right (m % 2 == 1 && f p) _ ih
