-- ===== src/Persist/Decimal.antt =====
-- `to_string` of a `usize`, by which josh-filter/src/persist.rs names the entries of a list.
use Prim.Native.Nat.{◌/◌, ◌%◌}
use josh.Base.{
  ℕ, zero, suc, ◌+◌, ◌-◌, ◌*◌, ◌<◌, ◌≡◌, refl, ap, [], ◌∷◌, Text, arith, ltb, if◌then◌else◌,
}
use josh.Persist.Utf8.{bytes}

-- With as much fuel as the number there are digits enough.
unfoldable pub digits : ℕ → ℕ → Text → Text
digits zero n out = out
digits (suc fuel) n out =
    let d = b'0' + n % 10 in
    let more = digits fuel (n / 10) (d ∷ out) in if ltb n 10 then d ∷ out else more

unfoldable pub decimal : ℕ → Text
unfolding digits
decimal n = digits (suc n) n []

-- What digits spell behind the number `n`.
abbrev pub value : ℕ → Text → ℕ
value n [] = n
value n (c ∷ s) = value (n * 10 + (c - b'0')) s

value-digits : (fuel n : ℕ) (out : Text) → n < fuel → value 0 (digits fuel n out) ≡ value n out
unfolding digits
value-digits zero n out h = absurd (omega arith)
value-digits (suc fuel) n out h = ground (arith, value-digits fuel (n / 10) ((b'0' + n % 10) ∷ out))

-- The digits of a number spell it.
pub value-decimal : (n : ℕ) → value 0 (decimal n) ≡ n
unfolding decimal
value-decimal n = value-digits (suc n) n [] (omega arith)

pub decimal_inj : (m n : ℕ) → decimal m ≡ decimal n → m ≡ n
decimal_inj m n e = cc (value-decimal m, value-decimal n, ap (value 0) e)

-- A number below ten has one digit.
pub decimal-digit : (n : ℕ) → n < 10 → decimal n ≡ (b'0' + n) ∷ []
unfolding decimal digits
decimal-digit n h = ground arith

decimal_example : decimal 10 ≡ bytes "10"
unfolding decimal
decimal_example = refl
