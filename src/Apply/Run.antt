-- ===== src/Apply/Run.antt =====
-- The results of applying a filter: a value, an error, or fuel that ran out.
use josh.Base.{Option, none, some, ◌≡◌, refl}

pub data Run {ℓ} (A : Type ℓ) : Type ℓ where
  ok : A → Run A
  failed out_of_fuel : Run A

module _ {ℓ κ} {A : Type ℓ} {B : Type κ} where
  infixl 5 ◌>>=◌
  abbrev pub ◌>>=◌ : Run A → (A → Run B) → Run B
  out_of_fuel >>= rest = out_of_fuel
  failed >>= rest = failed
  ok value >>= rest = rest value

  -- Where a sequence has a result, its first part has one.
  pub >>=-eq-ok :
      (first : Run A) (rest : A → Run B) {r : B}
      → first >>= rest ≡ ok r
      → (value : A) × (first ≡ ok value) × (rest value ≡ ok r)
  >>=-eq-ok out_of_fuel rest e = cc
  >>=-eq-ok failed rest e = cc
  >>=-eq-ok (ok value) rest e = (value, refl, e)

-- The outcome of a fallible operation on trees.
abbrev pub lift {ℓ} : {A : Type ℓ} → Option A → Run A
lift none = failed
lift (some a) = ok a

pub lift-eq-ok {ℓ} : {A : Type ℓ} (o : Option A) {a : A} → lift o ≡ ok a → o ≡ some a
lift-eq-ok none h = absurd (cc)
lift-eq-ok (some a) h = cc

pub ok_inj {ℓ} : {A : Type ℓ} {a b : A} → ok a ≡ ok b → a ≡ b
ok_inj h = cc
