-- ===== src/Pattern/Matches.antt =====
-- What a pattern means: which paths its components match one by one.
use josh.Base.{
  ℕ, zero, suc, ◌+◌, ◌<◌, Bool, true, false, not, ◌&&◌, ◌||◌, some, some_inj, List, [], ◌∷◌, length,
  all, Text, ◌≡◌, refl, ap, arith,
}
use josh.Pattern.Compile.{Token, PatternComponent, star2, glob, is_star2, all_star_suffixes}
use josh.Pattern.Walk.{get_elem?, starts_with_dot}

abbrev pub drop {ℓ} : {A : Type ℓ} → ℕ → List A → List A
drop zero xs = xs
drop (suc n) [] = []
drop (suc n) (x ∷ xs) = drop n xs

abbrev pub is_nil : List PatternComponent → Bool
is_nil [] = true
is_nil (c ∷ cs) = false

module _ (token_matches : List Token → Text → Bool) where
  -- A glob matches one name; a `**` matches names that do not start with a dot, none or more of them
  -- in front of other components and one or more at the end.
  unfoldable pub path_matches : List PatternComponent → List Text → Bool
  path_matches [] ns = false
  path_matches (c ∷ cs) [] = false
  path_matches (glob ts ∷ cs) (n ∷ []) = token_matches ts n && is_nil cs
  path_matches (glob ts ∷ cs) (n ∷ n' ∷ ns) = token_matches ts n && path_matches cs (n' ∷ ns)
  path_matches (star2 ∷ cs) (n ∷ []) =
      not (starts_with_dot n) && all is_star2 cs || path_matches cs (n ∷ [])
  path_matches (star2 ∷ cs) (n ∷ n' ∷ ns) =
      not (starts_with_dot n) && path_matches (star2 ∷ cs) (n' ∷ ns)
      || path_matches cs (n ∷ n' ∷ ns)

module _ {ℓ} {A : Type ℓ} where
  pub get_elem?-drop :
      (xs : List A) (i : ℕ) {x : A} → get_elem? xs i ≡ some x → drop i xs ≡ x ∷ drop (suc i) xs
  unfolding get_elem?
  get_elem?-drop [] i h = cc
  get_elem?-drop (y ∷ xs) zero h = ap (λ z. z ∷ xs) (some_inj h)
  get_elem?-drop (y ∷ xs) (suc i) h = get_elem?-drop xs i h

  pub get_elem?-lt : (xs : List A) (i : ℕ) → i < length xs → (x : A) × (get_elem? xs i ≡ some x)
  unfolding get_elem?
  get_elem?-lt [] i h = absurd (omega arith)
  get_elem?-lt (x ∷ xs) zero h = (x, refl)
  get_elem?-lt (x ∷ xs) (suc i) h = get_elem?-lt xs i (omega arith)

  pub drop-get_elem? :
      (xs ys : List A) (i : ℕ) {x : A} → drop i xs ≡ x ∷ ys → get_elem? xs i ≡ some x
  unfolding get_elem?
  drop-get_elem? [] ys zero h = cc
  drop-get_elem? [] ys (suc i) h = cc
  drop-get_elem? (y ∷ xs) ys zero h = cc
  drop-get_elem? (y ∷ xs) ys (suc i) h = drop-get_elem? xs ys i h

  pub drop-suc : (xs ys : List A) (i : ℕ) {x : A} → drop i xs ≡ x ∷ ys → drop (suc i) xs ≡ ys
  drop-suc [] ys zero h = cc
  drop-suc [] ys (suc i) h = cc
  drop-suc (y ∷ xs) ys zero h = cc
  drop-suc (y ∷ xs) ys (suc i) h = drop-suc xs ys i h

  pub length-drop :
      (xs ys : List A) (i : ℕ) {x : A} → drop i xs ≡ x ∷ ys → length xs ≡ i + suc (length ys)
  length-drop [] ys zero h = cc
  length-drop [] ys (suc i) h = cc
  length-drop (y ∷ xs) ys zero h = omega (arith, ap length h)
  length-drop (y ∷ xs) ys (suc i) h = omega (arith, length-drop xs ys i h)

-- The flags say whether only `**` follow.
pub all_star_suffixes-drop :
    (cs : List PatternComponent) (i : ℕ)
    → i < length cs
    → get_elem? (all_star_suffixes cs) i ≡ some (all is_star2 (drop i cs))
unfolding all_star_suffixes get_elem?
all_star_suffixes-drop [] i h = absurd (omega arith)
all_star_suffixes-drop (c ∷ []) zero h = refl
all_star_suffixes-drop (c ∷ d ∷ cs) zero h =
    ap (λ b. some (is_star2 c && b)) (some_inj (all_star_suffixes-drop (d ∷ cs) zero (omega arith)))
all_star_suffixes-drop (c ∷ cs) (suc i) h = all_star_suffixes-drop cs i (omega arith)
