-- ===== src/Persist/Utf8.antt =====
-- Strings of the standard library as josh-filter/src/persist.rs uses them: literals,
-- `str::from_utf8` and `to_string_lossy`.
use Prim.Native.Char.{code}
use Prim.Native.String.{String}
use mathlib.Core.List.{append-nil, append_assoc}
use josh.Base.{
  ℕ, Bool, true, false, ◌&&◌, Option, none, some, [], ◌∷◌, ◌++◌, Text, ◌≡◌, ◌≢◌, refl, sym, ap, ◌∙◌,
  leb, if◌then◌else◌,
}

-- The bytes of an ASCII literal.
abbrev pub bytes : String → Text
bytes String.[] = []
bytes (String.◌∷◌ c s) = code c ∷ bytes s

-- What may follow inside a character: `last` one more byte, `two` and `three` that many, and the
-- states after the first bytes 0xE0, 0xED, 0xF0 and 0xF4, which narrow the second byte.
pub data Utf8 : Type 0 where
  start last two three e0 ed f0 f4 bad : Utf8

abbrev within : ℕ → ℕ → ℕ → Bool
within lo hi c = leb lo c && leb c hi

abbrev when : Bool → Utf8 → Utf8
when b q = if b then q else bad

unfoldable pub utf8_first : ℕ → Utf8
utf8_first c =
    if leb c 0x7F
    then start
    else if within 0xC2 0xDF c
    then last
    else if leb c 0xDF
    then bad
    else if leb c 0xE0
    then e0
    else if within 0xE1 0xEC c
    then two
    else if leb c 0xED
    then ed
    else if leb c 0xEF
    then two
    else if leb c 0xF0
    then f0
    else if leb c 0xF3
    then three
    else if leb c 0xF4
    then f4
    else bad

unfoldable pub utf8_step : Utf8 → ℕ → Utf8
unfolding utf8_first
utf8_step start c = utf8_first c
utf8_step last c = when (within 0x80 0xBF c) start
utf8_step two c = when (within 0x80 0xBF c) last
utf8_step three c = when (within 0x80 0xBF c) two
utf8_step e0 c = when (within 0xA0 0xBF c) last
utf8_step ed c = when (within 0x80 0x9F c) last
utf8_step f0 c = when (within 0x90 0xBF c) two
utf8_step f4 c = when (within 0x80 0x8F c) two
utf8_step bad c = bad

unfoldable pub utf8_run : Utf8 → Text → Utf8
unfolding utf8_step
utf8_run q [] = q
utf8_run q (c ∷ s) = utf8_run (utf8_step q c) s

abbrev pub is_start : Utf8 → Bool
is_start start = true
is_start _ = false

-- `str::from_utf8`
unfoldable pub from_utf8 : Text → Option Text
unfolding utf8_run
from_utf8 s = if is_start (utf8_run start s) then some s else none

abbrev pub replacement : Text
replacement = 0xEF ∷ 0xBF ∷ 0xBD ∷ []

-- One round of `to_string_lossy`, at byte `c` behind the bytes `pending` of a character: what is
-- put out, and the state and the bytes that are pending then. A bad byte may start a character.
unfoldable pub lossy_first : Utf8 → ℕ → Text × Utf8 × Text
lossy_first start c = (c ∷ [], start, [])
lossy_first bad c = (replacement, start, [])
lossy_first q c = ([], q, c ∷ [])

abbrev after_replacement : Text × Utf8 × Text → Text × Utf8 × Text
after_replacement (out, q, pending) = (replacement ++ out, q, pending)

unfoldable pub lossy_next : Utf8 → Text → ℕ → Utf8 → Text × Utf8 × Text
unfolding lossy_first utf8_first
lossy_next start pending c q = lossy_first q c
lossy_next old pending c start = (pending ++ c ∷ [], start, [])
lossy_next old pending c bad = after_replacement (lossy_first (utf8_first c) c)
lossy_next old pending c q = ([], q, pending ++ c ∷ [])

-- What is left over at the end is an unfinished character.
unfoldable pub lossy_end : Utf8 → Text
lossy_end start = []
lossy_end _ = replacement

unfoldable mutual
  unfolding lossy_next lossy_end utf8_step

  pub lossy_from : Text × Utf8 × Text → Text → Text
  lossy_from (out, q, pending) [] = out ++ lossy_end q
  lossy_from (out, q, pending) (c ∷ s) =
      out ++ lossy_from (lossy_next q pending c (utf8_step q c)) s

-- `to_string_lossy`
unfoldable pub to_string_lossy : Text → Text
unfolding lossy_from
to_string_lossy s = lossy_from ([], start, []) s

pub utf8_run-append : (q : Utf8) (s t : Text) → utf8_run q (s ++ t) ≡ utf8_run (utf8_run q s) t
unfolding utf8_run
utf8_run-append q [] t = refl
utf8_run-append q (c ∷ s) t = utf8_run-append (utf8_step q c) s t

pub is_start-eq : (q : Utf8) → is_start q ≡ true → q ≡ start
is_start-eq start h = refl
is_start-eq _ h = absurd (cc)

pub from_utf8-run : (s : Text) → is_start (utf8_run start s) ≡ true → from_utf8 s ≡ some s
unfolding from_utf8
from_utf8-run s h = rw h

pub from_utf8-append :
    (s t : Text)
    → is_start (utf8_run start s) ≡ true
    → is_start (utf8_run start t) ≡ true
    → is_start (utf8_run start (s ++ t)) ≡ true
from_utf8-append s t h k = rw (utf8_run-append start s t, is_start-eq _ h) k

-- A string of the source: its bytes are UTF-8.
abbrev pub IsUtf8 : Text → Type 0
IsUtf8 s = is_start (utf8_run start s) ≡ true

-- A round that is not refused puts out or keeps the bytes that it had and its own.
abbrev Keeps : Utf8 → Text → ℕ → Text × Utf8 × Text → Type 0
Keeps q pending c (out, q', pending') =
    (q' ≡ q) × (out ++ pending' ≡ pending ++ c ∷ []) × (q' ≡ start → pending' ≡ [])

lossy_first-Keeps : (q : Utf8) (c : ℕ) → q ≢ bad → Keeps q [] c (lossy_first q c)
unfolding lossy_first
lossy_first-Keeps start c h = (refl, refl, λ e. refl)
lossy_first-Keeps bad c h = absurd (h refl)
lossy_first-Keeps _ c h = (refl, refl, λ e. absurd (cc))

lossy_next-Keeps :
    (old q : Utf8) (pending : Text) (c : ℕ)
    → (old ≡ start → pending ≡ [])
    → q ≢ bad
    → Keeps q pending c (lossy_next old pending c q)
unfolding lossy_next
lossy_next-Keeps start q pending c fresh h = rw (fresh refl) (lossy_first-Keeps q c h)
lossy_next-Keeps _ start pending c fresh h = (refl, simp append-nil, λ e. refl)
lossy_next-Keeps _ bad pending c fresh h = absurd (h refl)
lossy_next-Keeps _ _ pending c fresh h = (refl, refl, λ e. absurd (cc))

utf8_run-bad : (s : Text) → utf8_run bad s ≡ bad
unfolding utf8_run
utf8_run-bad [] = refl
utf8_run-bad (c ∷ s) = utf8_run-bad s

not_bad : (q : Utf8) (s : Text) → is_start (utf8_run q s) ≡ true → q ≢ bad
not_bad q s h e = let eq : is_start (utf8_run bad s) ≡ true = rw (← e) h in cc (utf8_run-bad s)

-- All bytes that are read are put out.
lossy_from-append :
    (q : Utf8) (out pending s : Text)
    → (q ≡ start → pending ≡ [])
    → is_start (utf8_run q s) ≡ true
    → lossy_from (out, q, pending) s ≡ out ++ (pending ++ s)
unfolding lossy_from utf8_run
lossy_from-append q out pending [] fresh h = rw (is_start-eq q h, fresh (is_start-eq q h)) refl
lossy_from-append q out pending (c ∷ s) fresh h =
    let q' = utf8_step q c in
    let r = lossy_next q pending c q' in
    let (state, kept, fresh') = lossy_next-Keeps q q' pending c fresh (not_bad q' s h) in
    let ih = lossy_from-append r.1 r.0 r.2 s fresh' (rw state h) in
    let regroup = append_assoc r.0 r.2 s in
    let split = append_assoc pending (c ∷ []) s in
    ap (λ t. out ++ t) (ih ∙ sym regroup ∙ ap (λ t. t ++ s) kept ∙ split)

pub to_string_lossy_lem : (s : Text) → IsUtf8 s → to_string_lossy s ≡ s
unfolding to_string_lossy
to_string_lossy_lem s h = lossy_from-append start [] [] s (λ e. refl) h
