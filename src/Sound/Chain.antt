-- ===== src/Sound/Chain.antt =====
-- The rules of `step` for a chain: the result does what the chain does.
use josh.Base.{
  Bool, true, false, not, Bool-cases, inl, inr, Option, none, some, List, [], ◌∷◌, ◌≡◌, refl, sym,
  ap, subst, ◌∙◌, any, retain, traverse, >>=-eq-some, some_inj, if◌then◌else◌, if-true, if-false,
  ◌>>=◌,
}
use josh.Filter.Op.{Filter, nop, empty, chain, filter_eq, of_list}
use josh.Opt.Structure.{resurrects_from_empty}
use josh.Opt.Simplify.{splice_chains}
use josh.Opt.Step.{
  Pair, cancels, empties, plain, pair_kind, Scan, collapsed, kept, scan_pairs, after_empty, is_dead,
  step_flat, step_chain, finish, push,
}
use josh.Tree.Object.{Obj, empty_id}
use josh.Tree.NoZero.{NoZero}
use josh.Apply.Run.{ok, >>=-eq-ok, ok_inj}
use josh.Apply.Eval.{Env, apply_op}
use josh.Apply.Meaning.{run, run-eq}
use josh.Apply.NoZero.{IsSafe, OthersSafe, run-others-NoZero}
use josh.Sound.Plain.{IsPlain, AllPlain, Refines, IsPlain-IsKnown}
use josh.Sound.Empty.{run-Empty, or-false}
use josh.Sound.Sequence.{
  filter_eq→eq, seq, run-chain-of_list, seq-splice_chains, seq-unwrap_chain, seq-retain_nop,
  run-nop,
}
use josh.Sound.Kept.{AllPlain-splice_chains, AllPlain-retain, IsPlain-unwrap_chain}
use josh.Sound.Pairs.{pair_cancels, pair_empties}

abbrev pub Rec : Type 0
Rec = Filter → Option Filter

-- Rewritten filters are plain and refine what they come from.
abbrev pub Sound : Env → Rec → Type 0
Sound env rec = (f g : Filter) → IsPlain f → rec f ≡ some g → IsPlain g × Refines env f g

-- Where the first filters have a result, the others have the same.
abbrev SeqRefines : Env → List Filter → List Filter → Type 0
SeqRefines env fs gs = (t r : Obj) → NoZero t → seq env fs t ≡ ok r → seq env gs t ≡ ok r

-- All that the filters make is empty.
abbrev Vanishes : Env → List Filter → Type 0
Vanishes env fs = (t r : Obj) → NoZero t → seq env fs t ≡ ok r → r ≡ empty_id

-- What a scan of a chain says is true of it.
abbrev ScanOk : Env → List Filter → Scan → Type 0
ScanOk env fs collapsed = Vanishes env fs
ScanOk env fs (kept gs) = AllPlain gs × SeqRefines env fs gs

not-true : (b : Bool) → not b ≡ true → b ≡ false
not-true false h = refl
not-true true h = absurd (cc)

dead-rest :
    (o : Option (List Filter))
    → (elim o [ none ↦ false | some rest ↦ not (any resurrects_from_empty rest) ]) ≡ true
    → (rest : List Filter) × (o ≡ some rest) × (any resurrects_from_empty rest ≡ false)
dead-rest none h = absurd (cc)
dead-rest (some rest) h = (rest, refl, not-true _ h)

module _ (env : Env) (safe : IsSafe env) (others : OthersSafe env) where
  -- The first filter's result, and the others' from there.
  first :
      (f : Filter) (fs : List Filter) (t : Obj) {r : Obj}
      → NoZero t
      → seq env (f ∷ fs) t ≡ ok r
      → (u : Obj) × (run env f t ≡ ok u) × (seq env fs u ≡ ok r) × NoZero u
  unfolding seq
  first f fs t h e =
      let s = >>=-eq-ok (run env f t) (seq env fs) e in
      (s.0, s.1, s.2, run-others-NoZero env f t safe others h s.1)

  then_seq :
      (f : Filter) (fs : List Filter) (t u : Obj) {r : Obj}
      → run env f t ≡ ok u
      → seq env fs u ≡ ok r
      → seq env (f ∷ fs) t ≡ ok r
  unfolding seq
  then_seq f fs t u e₁ e₂ = rw e₁ e₂

  -- Two chains that do the same from the first result on.
  SeqRefines-cons :
      (f g : Filter) (fs gs : List Filter)
      → Refines env f g
      → SeqRefines env fs gs
      → SeqRefines env (f ∷ fs) (g ∷ gs)
  SeqRefines-cons f g fs gs h k t r ht e =
      let s = first f fs t ht e in then_seq g gs t s.0 (h t s.0 ht s.1) (k s.0 r s.3 s.2)

  Vanishes-cons : (f : Filter) (fs : List Filter) → Vanishes env fs → Vanishes env (f ∷ fs)
  Vanishes-cons f fs k t r ht e = let s = first f fs t ht e in k s.0 r s.3 s.2

  seq-Empty :
      (fs : List Filter) (r : Obj)
      → AllPlain fs
      → any resurrects_from_empty fs ≡ false
      → seq env fs empty_id ≡ ok r
      → r ≡ empty_id
  seq-Empty [] r h k e = unfold seq in sym (ok_inj e)
  seq-Empty (f ∷ fs) r h k e =
      let s = first f fs empty_id tt e in
      let alive = or-false (resurrects_from_empty f) (any resurrects_from_empty fs) k in
      let hu = run-Empty env safe.is_bisect f s.0 (IsPlain-IsKnown f h.0) alive.0 s.1 in
      seq-Empty fs r h.1 alive.1 (ap (seq env fs) (sym hu) ∙ s.2)

  makes_empty : (t : Obj) → run env empty t ≡ ok empty_id
  unfolding apply_op
  makes_empty t = run-eq env empty t

  run-empty : (t u : Obj) → run env empty t ≡ ok u → u ≡ empty_id
  run-empty t u e = ok_inj (sym e ∙ makes_empty t)

  dead-Vanishes :
      (fs rest : List Filter)
      → AllPlain fs
      → after_empty fs ≡ some rest
      → any resurrects_from_empty rest ≡ false
      → Vanishes env fs
  unfolding after_empty
  dead-Vanishes [] rest h e k t r ht x = absurd (cc)
  dead-Vanishes (f ∷ fs) rest h e k t r ht x =
      let s = first f fs t ht x in
      elim (Bool-cases (filter_eq f empty)) [
        | inl same ↦
            let hu =
              run-empty t s.0 (ap (λ g. run env g t) (sym (filter_eq→eq f empty same)) ∙ s.1) in
            seq-Empty fs r h.1
              (ap (any resurrects_from_empty)
                  (some_inj (sym (if-true (filter_eq f empty) (some fs) (after_empty fs) same) ∙ e))
                ∙ k)
              (ap (seq env fs) (sym hu) ∙ s.2)
        | inr other ↦
            dead-Vanishes fs rest h.1
              (sym (if-false (filter_eq f empty) (some fs) (after_empty fs) other) ∙ e) k s.0 r s.3
              s.2
      ]

  is_dead-Vanishes : (fs : List Filter) → AllPlain fs → is_dead fs ≡ true → Vanishes env fs
  unfolding is_dead
  is_dead-Vanishes fs h e = let d = dead-rest (after_empty fs) e in dead-Vanishes fs d.0 h d.1 d.2

  -- A chain that does no more than another has what the scan says of the other.
  before :
      (fs gs : List Filter) → SeqRefines env fs gs → (s : Scan) → ScanOk env gs s → ScanOk env fs s
  before fs gs h collapsed k = λ t r ht x. k t r ht (h t r ht x)
  before fs gs h (kept ks) k = (k.0, λ t r ht x. k.1 t r ht (h t r ht x))

  module _ (rec : Rec) (good : Sound env rec) where
    rewritten :
        (f : Filter) (fs : List Filter) (h : Filter) (s : Scan)
        → IsPlain h
        → Refines env f h
        → ScanOk env fs s
        → ScanOk env (f ∷ fs) (push h s)
    rewritten f fs h collapsed p k v = Vanishes-cons f fs v
    rewritten f fs h (kept gs) p k v = ((p, v.0), SeqRefines-cons f h fs gs k v.1)

    scan-Ok :
        (fs : List Filter) (s : Scan) → AllPlain fs → scan_pairs rec fs ≡ some s → ScanOk env fs s
    unfolding scan_pairs
    scan-Ok [] s h e = subst (ScanOk env []) (some_inj e) (tt, λ t r ht x. x)
    scan-Ok (f ∷ []) s h e =
        let m = >>=-eq-some (rec f) (λ g. some (kept (g ∷ []))) e in
        let w = good f m.0 h.0 m.1 in
        subst (ScanOk env (f ∷ [])) (some_inj m.2)
          ((w.0, tt), SeqRefines-cons f m.0 [] [] w.1 (λ t r ht x. x))
    scan-Ok (f ∷ g ∷ rest) s h e =
        by_kind (scan-Ok (g ∷ rest)) (scan-Ok rest) (pair_kind f g) refl e
      where
        two :
            (t r : Obj)
            → NoZero t
            → seq env (f ∷ g ∷ rest) t ≡ ok r
            → (u v : Obj) × (run env f t ≡ ok u) × (run env g u ≡ ok v) × (seq env rest v ≡ ok r)
        two t r ht x =
            let a = first f (g ∷ rest) t ht x in
            let b = first g rest a.0 a.3 a.2 in (a.0, b.0, a.1, b.1, b.2)

        on_rule : Option Scan
        on_rule = do k ← rec f; scan ← scan_pairs rec (g ∷ rest); some (push k scan)

        on-Ok :
            ((n : Scan)
              → AllPlain (g ∷ rest)
              → scan_pairs rec (g ∷ rest) ≡ some n
              → ScanOk env (g ∷ rest) n)
            → on_rule ≡ some s
            → ScanOk env (f ∷ g ∷ rest) s
        on-Ok ih x =
            let m = >>=-eq-some (rec f) _ x in
            let n = >>=-eq-some (scan_pairs rec (g ∷ rest)) _ m.2 in
            let w = good f m.0 h.0 m.1 in
            subst (ScanOk env (f ∷ g ∷ rest)) (some_inj n.2)
              (rewritten f (g ∷ rest) m.0 n.0 w.0 w.1 (ih n.0 h.1 n.1))

        cancels-Ok :
            ((n : Scan) → AllPlain rest → scan_pairs rec rest ≡ some n → ScanOk env rest n)
            → pair_kind f g ≡ cancels
            → scan_pairs rec rest ≡ some s
            → ScanOk env (f ∷ g ∷ rest) s
        cancels-Ok ih k x =
            before (f ∷ g ∷ rest) rest
              (λ t r ht y.
                let w = two t r ht y in
                let back = pair_cancels env safe.is_bisect f g t w.0 w.1 h.0 h.1.0 ht k w.2 w.3 in
                ap (seq env rest) (sym back) ∙ w.4)
              s (ih s h.1.1 x)

        by_kind :
            ((n : Scan)
              → AllPlain (g ∷ rest)
              → scan_pairs rec (g ∷ rest) ≡ some n
              → ScanOk env (g ∷ rest) n)
            → ((n : Scan) → AllPlain rest → scan_pairs rec rest ≡ some n → ScanOk env rest n)
            → (k : Pair) → pair_kind f g ≡ k
            → (elim k [
              | cancels ↦ scan_pairs rec rest
              | empties ↦ if any resurrects_from_empty rest then on_rule else some collapsed
              | plain ↦ on_rule
            ])
              ≡ some s
            → ScanOk env (f ∷ g ∷ rest) s
        by_kind ih₁ ih₂ cancels k x = cancels-Ok ih₂ k x
        by_kind ih₁ ih₂ plain k x = on-Ok ih₁ x
        by_kind ih₁ ih₂ empties k x = elim (Bool-cases (any resurrects_from_empty rest)) [
          | inl alive ↦ on-Ok ih₁ (sym (if-true _ on_rule (some collapsed) alive) ∙ x)
          | inr dead ↦
              subst (ScanOk env (f ∷ g ∷ rest))
                (some_inj (sym (if-false _ on_rule (some collapsed) dead) ∙ x))
                λ t r ht y.
                  let w = two t r ht y in
                  let hv = pair_empties env safe.is_bisect f g t w.0 w.1 h.0 h.1.0 ht k w.2 w.3 in
                  seq-Empty rest r h.1.1 dead (ap (seq env rest) (sym hv) ∙ w.4)
        ]

    traverse-Ok :
        (fs gs : List Filter)
        → AllPlain fs
        → traverse rec fs ≡ some gs
        → AllPlain gs × SeqRefines env fs gs
    traverse-Ok [] gs h e =
        subst (λ k. AllPlain k × SeqRefines env [] k) (some_inj e) (tt, λ t r ht x. x)
    traverse-Ok (f ∷ fs) gs h e =
        let m = >>=-eq-some (rec f) _ e in
        let n = >>=-eq-some (traverse rec fs) _ m.2 in
        let w = good f m.0 h.0 m.1 in
        let v = traverse-Ok fs n.0 h.1 n.1 in
        subst (λ k. AllPlain k × SeqRefines env (f ∷ fs) k) (some_inj n.2)
          ((w.0, v.0), SeqRefines-cons f m.0 fs n.0 w.1 v.1)

    -- A plain filter that does what the list does.
    abbrev FlatOk : List Filter → Filter → Type 0
    FlatOk fs g = IsPlain g × ((t r : Obj) → NoZero t → seq env fs t ≡ ok r → run env g t ≡ ok r)

    finish-Ok : (fs : List Filter) (s : Scan) → ScanOk env fs s → FlatOk fs (finish s)
    finish-Ok fs collapsed k = (tt, λ t r ht x. makes_empty t ∙ ap ok (sym (k t r ht x)))
    finish-Ok fs (kept []) k = (tt, λ t r ht x. run-nop env t ∙ unfold seq in k.1 t r ht x)
    finish-Ok fs (kept (g ∷ gs)) k = (
      IsPlain-unwrap_chain (g ∷ gs) k.0,
      λ t r ht x. seq-unwrap_chain env (g ∷ gs) t ∙ k.1 t r ht x,
    )

    flat-Ok :
        (fs : List Filter) (g : Filter) → AllPlain fs → step_flat rec fs ≡ some g → FlatOk fs g
    unfolding step_flat
    flat-Ok [] g h e =
        subst (FlatOk []) (some_inj e) (tt, λ t r ht x. run-nop env t ∙ unfold seq in x)
    flat-Ok (f ∷ fs) g h e = by_death (is_dead (f ∷ fs)) refl e
      where
        by_death :
            (b : Bool)
            → is_dead (f ∷ fs) ≡ b
            → (if b then some empty else (do scan ← scan_pairs rec (f ∷ fs); some (finish scan)))
              ≡ some g
            → FlatOk (f ∷ fs) g
        by_death true d x =
            subst (FlatOk (f ∷ fs)) (some_inj x)
              (tt, λ t r ht y. makes_empty t ∙ ap ok (sym (is_dead-Vanishes (f ∷ fs) h d t r ht y)))
        by_death false d x =
            let m = >>=-eq-some (scan_pairs rec (f ∷ fs)) _ x in
            subst (FlatOk (f ∷ fs)) (some_inj m.2)
              (finish-Ok (f ∷ fs) m.0 (scan-Ok (f ∷ fs) m.0 h m.1))

    pub step_chain-Sound :
        (fs : List Filter) (g : Filter)
        → AllPlain fs
        → step_chain rec fs ≡ some g
        → IsPlain g × Refines env (chain (of_list fs)) g
    unfolding step_chain
    step_chain-Sound fs g h e =
        let m = >>=-eq-some (traverse rec fs) _ e in
        let v = traverse-Ok fs m.0 h m.1 in
        let w =
          flat-Ok (retain (λ f. not (filter_eq f nop)) (splice_chains m.0)) g
            (AllPlain-retain _ (splice_chains m.0) (AllPlain-splice_chains m.0 v.0)) m.2 in
        (
          w.0,
          λ t r ht x. w.1 t r ht (
              seq-retain_nop env (splice_chains m.0) t
              ∙ seq-splice_chains env m.0 t
              ∙ v.1 t r ht (sym (run-chain-of_list env fs t) ∙ x)),
        )
