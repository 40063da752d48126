-- ===== src/Pattern/Equivalence.antt =====
-- The walk by components keeps what the walk by full paths keeps.
use Prim.Native.Nat.{◌^◌}
use native.Mathlib.Nat.{pow-le-pow_right}
use josh.Base.{
  ℕ, zero, suc, ◌≤◌, ◌<◌, Bool, true, false, not, ◌||◌, some, List, [], ◌∷◌, length, any, Text, ◌≡◌,
  ◌≢◌, ◌↔◌, refl, sym, ap, ◌∙◌, arith, ◌==◌, if◌then◌else◌, is_yes-true, if-false, text_eq,
}
use josh.Tree.Object.{
  tree_mode, commit_mode, file_mode, Obj, Obj-discrete, Entries, blob, tree, absent, nil, entry,
  obj_eq, empty_id,
}
use josh.Persist.Utf8.{IsUtf8}
use josh.Pattern.Mask.{bit_zero, set_bits}
use josh.Pattern.Compile.{Glob, PatternComponent, closure, all_star_suffixes}
use josh.Pattern.Walk.{
  put_tree, push_name, remove_pred, pred_entries, remove_pattern, pattern_entries,
}
use josh.Pattern.Matches.{path_matches, drop}
use josh.Pattern.Closure.{IsClosed, closure_from-IsClosed, closure_from-lt}
use josh.Pattern.Loops.{
  set_bits-InRange, accepts_here, keeps_here, accepts_blobs-any, keep_blob, next_state-bits,
}
use josh.Pattern.Accepts.{Accepts, initial-Accepts, closure-Accepts, keep-Accepts, next-Accepts}

-- The name of an entry: in UTF-8, not empty, without a slash.
abbrev pub IsEntryName : Text → Type 0
IsEntryName k = IsUtf8 k × (text_eq k [] ≡ false) × (any (λ c. c == b'/') k ≡ false)

abbrev pub AreNames : List Text → Type 0
AreNames [] = Unit
AreNames (n ∷ ns) = IsEntryName n × AreNames ns

-- Names of entries, and trees where the modes say so, at any depth but not in submodules.
abbrev mutual
  pub IsTree : Obj → Type 0
  IsTree (tree es) = AreEntries es
  IsTree (blob s) = ⊥
  IsTree (absent i) = ⊥

  pub AreEntries : Entries → Type 0
  AreEntries nil = Unit
  AreEntries (entry tree_mode k o es) = IsEntryName k × IsTree o × AreEntries es
  AreEntries (entry commit_mode k o es) = IsEntryName k × AreEntries es
  AreEntries (entry (file_mode m) k o es) = IsEntryName k × AreEntries es

-- The full path of names behind the path in the buffer.
abbrev pub full_path : Text → List Text → Text
full_path path [] = path
full_path path (n ∷ ns) = full_path (push_name path n) ns

abbrev is_entries : Entries → Bool
is_entries nil = false
is_entries (entry m k o es) = true

pub or-middle : (a b : Bool) → (a || true || b) ≡ true
or-middle true b = refl
or-middle false b = refl

empty-put_tree :
    (k : Text) (o : Obj) (b : Bool)
    → put_tree k o empty_id (record { out = nil; changed = b })
      ≡ record { out = nil; changed = true }
unfolding put_tree
empty-put_tree k o b =
    rw (is_yes-true (Obj-discrete (tree nil) (tree nil)) refl)
      (ap (λ c. record { out = nil; changed = c }) (or-middle (not (obj_eq empty_id o)) b))

module _ (pred : Text → Bool) where
  -- Where no path is kept, the tree is empty.
  mutual
    unfolding remove_pred

    nothing_kept :
        (o : Obj) (path : Text)
        → IsTree o
        → ((n : Text) (ns : List Text) → AreNames (n ∷ ns) → pred (full_path path (n ∷ ns)) ≡ false)
        → remove_pred pred path o ≡ some empty_id
    nothing_kept (tree nil) path h unseen = refl
    nothing_kept (tree (entry m k o es)) path h unseen =
        rw (no_entry (entry m k o es) path h unseen)
    nothing_kept (blob s) path h unseen = absurd h
    nothing_kept (absent i) path h unseen = absurd h

    no_entry :
        (es : Entries) (path : Text)
        → AreEntries es
        → ((n : Text) (ns : List Text) → AreNames (n ∷ ns) → pred (full_path path (n ∷ ns)) ≡ false)
        → pred_entries pred path es ≡ some (record { out = nil; changed = is_entries es })
    no_entry nil path h unseen = refl
    no_entry (entry tree_mode k o es) path (u, t, h) unseen = rw u.0 (
        rw (nothing_kept o (push_name path k) t (λ n ns v. unseen k (n ∷ ns) (u, v)))
          (rw (no_entry es path h unseen) (ap some (empty-put_tree k o (is_entries es)))))
    no_entry (entry commit_mode k o es) path (u, h) unseen = rw u.0 (rw (no_entry es path h unseen))
    no_entry (entry (file_mode m) k o es) path (u, h) unseen =
        rw u.0 (rw (no_entry es path h unseen) (rw (unseen k [] (u, tt))))

iff_sym : {X Y : Type 0} → X ↔ Y → Y ↔ X
iff_sym h = (h.1, h.0)

iff_trans : {X Y Z : Type 0} → X ↔ Y → Y ↔ Z → X ↔ Z
iff_trans h k = (λ x. k.0 (h.0 x), λ z. h.1 (k.1 z))

pub zero_small : (k : ℕ) → 0 < 2 ^ k
zero_small zero = omega arith
zero_small (suc k) = omega (arith, zero_small k)

one_lt : (k : ℕ) → 1 < 2 ^ suc k
one_lt k = omega (arith, zero_small k)

one_small : (cs : List PatternComponent) → cs ≢ [] → 1 < 2 ^ length cs
one_small [] h = absurd (h refl)
one_small (c ∷ cs) h = one_lt (length cs)

bool_eq : (a b : Bool) {X : Type 0} → (a ≡ true) ↔ X → (b ≡ true) ↔ X → a ≡ b
bool_eq true b h k = sym (k.1 (h.0 refl))
bool_eq false true h k = h.1 (k.0 refl)
bool_eq false false h k = refl

not_accepted : (b : Bool) {X : Type 0} → (b ≡ true) ↔ X → ¬ X → b ≡ false
not_accepted true h k = absurd (k (h.0 refl))
not_accepted false h k = refl

module _ (g : Glob) (cs : List PatternComponent) (short : length cs ≤ 63) (pred : Text → Bool) where
  -- The paths below `path` that are kept are those that the state matches.
  abbrev Agrees : Text → ℕ → Type 0
  Agrees path m =
      (n : Text) (ns : List Text)
      → AreNames (n ∷ ns)
      → (pred (full_path path (n ∷ ns)) ≡ true) ↔ Accepts g cs m (n ∷ ns)

  abbrev Small : ℕ → Type 0
  Small m = m < 2 ^ length cs

  zero-Accepts : (ns : List Text) → ¬ Accepts g cs 0 ns
  zero-Accepts ns (p, b, e) = cc (bit_zero p)

  Small-lt : (m : ℕ) → Small m → m < 2 ^ 64
  Small-lt m h =
      omega (arith, pow-le-pow_right {n = 2} (omega arith) {i = length cs} {j = 64} (omega arith))

  closure-Small : (m : ℕ) → Small m → Small (closure cs m)
  unfolding closure
  closure-Small m h = closure_from-lt (length cs) cs 0 m (omega arith) h

  closure-IsClosed : (m : ℕ) → IsClosed cs 0 (closure cs m)
  unfolding closure
  closure-IsClosed m = closure_from-IsClosed cs 0 m

  -- A subtree in which nothing can match is left out without a walk.
  below :
      (o : Obj) (path : Text) (r : ℕ)
      → IsTree o
      → Agrees path r
      → remove_pattern g cs (all_star_suffixes cs) o r ≡ remove_pred pred path o
      → (if r == 0 then some empty_id else remove_pattern g cs (all_star_suffixes cs) o r)
        ≡ remove_pred pred path o
  below o path zero t agrees walked = sym (
      nothing_kept pred o path t (λ n ns v.
        not_accepted (pred (full_path path (n ∷ ns))) (agrees n ns v) (zero-Accepts (n ∷ ns))))
  below o path (suc r) t agrees walked = if-false (suc r == 0) _ _ (ground arith) ∙ walked

  mutual
    unfolding remove_pred remove_pattern

    walk :
        (o : Obj) (path : Text) (m : ℕ)
        → IsTree o
        → Small m
        → Agrees path m
        → remove_pattern g cs (all_star_suffixes cs) o m ≡ remove_pred pred path o
    walk (blob s) path m h small agrees = absurd h
    walk (absent i) path m h small agrees = absurd h
    walk (tree es) path m h small agrees =
        let state = closure cs m in
        let small' = closure-Small m small in
        let in_range = set_bits-InRange (length cs) state small' in
        rw (accepts_blobs-any g cs (set_bits state) in_range) (
          rw (
            entries es path state h small' (closure-IsClosed m)
              (λ n ns v. iff_trans (agrees n ns v) (iff_sym (closure-Accepts g cs m (n ∷ ns))))))

    entries :
        (es : Entries) (path : Text) (state : ℕ)
        → AreEntries es
        → Small state
        → IsClosed cs 0 state
        → Agrees path state
        → pattern_entries g cs
            (all_star_suffixes cs)
            es
            state
            (any (λ p. accepts_here g cs (drop p cs)) (set_bits state))
          ≡ pred_entries pred path es
    entries nil path state h small closed agrees = refl
    entries (entry commit_mode k o es) path state (u, h) small closed agrees =
        rw u.0 (rw (entries es path state h small closed agrees) refl)
    entries (entry (file_mode m) k o es) path state (u, h) small closed agrees =
        let in_range = set_bits-InRange (length cs) state small in
        let same : any (λ p. keeps_here g cs k (drop p cs)) (set_bits state)
            ≡ pred (push_name path k) =
          bool_eq _ _ (keep-Accepts g cs k state (Small-lt state small) closed)
            (agrees k [] (u, tt)) in
        rw u.0 (
          rw (keep_blob g cs k (set_bits state) in_range)
            (rw (entries es path state h small closed agrees) (rw same refl)))
    entries (entry tree_mode k o es) path state (u, t, h) small closed agrees =
        let in_range = set_bits-InRange (length cs) state small in
        let (r, e, small', bits) =
          next_state-bits g cs k (set_bits state) 0 in_range (zero_small (length cs)) in
        let next : Agrees (push_name path k) r = λ n ns v.
          iff_trans (agrees k (n ∷ ns) (u, v))
            (iff_sym (next-Accepts g cs k n ns state r (Small-lt state small) closed bits)) in
        rw u.0 (
          rw e (
            rw (below o (push_name path k) r t next (walk o (push_name path k) r t small' next))
              (rw (entries es path state h small closed agrees) refl)))

  -- From the initial state on, the walk keeps what matches.
  pub remove_pattern-remove_pred :
      (o : Obj)
      → cs ≢ []
      → IsTree o
      → ((n : Text) (ns : List Text)
          → AreNames (n ∷ ns)
          → pred (full_path [] (n ∷ ns)) ≡ path_matches g.token_matches cs (n ∷ ns))
      → remove_pattern g cs (all_star_suffixes cs) o 1 ≡ remove_pred pred [] o
  remove_pattern-remove_pred o some_component t same =
      walk o [] 1 t (one_small cs some_component) (λ n ns v. (
        λ h. (initial-Accepts g cs (n ∷ ns)).1 (sym (same n ns v) ∙ h),
        λ h. same n ns v ∙ (initial-Accepts g cs (n ∷ ns)).0 h,
      ))
