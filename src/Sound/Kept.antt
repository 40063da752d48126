-- ===== src/Sound/Kept.antt =====
-- The filters of a chain stay plain.
use josh.Base.{Bool, Bool-cases, inl, inr, List, [], ◌∷◌, ◌++◌, retain}
use josh.Filter.Op.{Filter, Filters, chain, nil, cons, of_list, to_list}
use josh.Opt.Simplify.{splice_chains, unwrap_chain}
use josh.Sound.Plain.{IsPlain, ArePlain, AllPlain}

pub AllPlain-append : (fs gs : List Filter) → AllPlain fs → AllPlain gs → AllPlain (fs ++ gs)
AllPlain-append [] gs h k = k
AllPlain-append (f ∷ fs) gs h k = (h.0, AllPlain-append fs gs h.1 k)

pub AllPlain-to_list : (fs : Filters) → ArePlain fs → AllPlain (to_list fs)
unfolding to_list
AllPlain-to_list nil h = tt
AllPlain-to_list (cons f fs) h = (h.0, AllPlain-to_list fs h.1)

pub ArePlain-of_list : (fs : List Filter) → AllPlain fs → ArePlain (of_list fs)
unfolding of_list
ArePlain-of_list [] h = tt
ArePlain-of_list (f ∷ fs) h = (h.0, ArePlain-of_list fs h.1)

pub AllPlain-splice_chains : (fs : List Filter) → AllPlain fs → AllPlain (splice_chains fs)
unfolding splice_chains
AllPlain-splice_chains [] h = tt
AllPlain-splice_chains (chain gs ∷ fs) h =
    AllPlain-append (to_list gs) (splice_chains fs) (AllPlain-to_list gs h.0)
      (AllPlain-splice_chains fs h.1)
AllPlain-splice_chains (f ∷ fs) h = (h.0, AllPlain-splice_chains fs h.1)

pub AllPlain-retain :
    (keep : Filter → Bool) (fs : List Filter) → AllPlain fs → AllPlain (retain keep fs)
AllPlain-retain keep [] h = tt
AllPlain-retain keep (f ∷ fs) h = elim (Bool-cases (keep f)) [
  | inl e ↦ rw e (h.0, AllPlain-retain keep fs h.1)
  | inr e ↦ rw e (AllPlain-retain keep fs h.1)
]

pub IsPlain-unwrap_chain : (fs : List Filter) → AllPlain fs → IsPlain (unwrap_chain fs)
unfolding unwrap_chain of_list
IsPlain-unwrap_chain [] h = tt
IsPlain-unwrap_chain (f ∷ []) h = h.0
IsPlain-unwrap_chain (f ∷ g ∷ fs) h = ArePlain-of_list (f ∷ g ∷ fs) h
