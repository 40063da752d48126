-- ===== src/Sound/Plain.antt =====
-- The filters whose rewriting by `step` is proved to keep the meaning.
use josh.Base.{false, ◌||◌, List, [], ◌∷◌, ◌≡◌}
use josh.FilePath.{FilePath, normal}
use josh.Filter.Op.{
  Filter, Filters, meta, paths, adapt, link, unlink, regex_replace, index, invert, workspace,
  stored, starlark, pattern, unapply, nop, empty, fold, squash_none, squash_some, author, committer,
  message, prune, pin, rev, hook, embed, downstack, insert, file, prefix, subdir, tree_id,
  object_deref, object_ref, export, compose, chain, subtract, exclude, select, nil, cons,
}
use josh.Opt.Step.{is_long}
use josh.Tree.Object.{Obj}
use josh.Tree.NoZero.{NoZero}
use josh.Apply.Run.{ok}
use josh.Apply.Eval.{Env}
use josh.Apply.Meaning.{run}
use josh.Apply.Modelled.{IsKnown, AreKnown}

-- Only names.
abbrev pub IsNormal : FilePath → Type 0
IsNormal [] = Unit
IsNormal (normal s ∷ p) = IsNormal p
IsNormal (_ ∷ p) = ⊥

-- One or more names.
abbrev pub IsMove : FilePath → Type 0
IsMove [] = ⊥
IsMove (c ∷ p) = IsNormal (c ∷ p)

-- Chains of Nop, Empty, Fold, Squash, Author, Committer, Message, Prune, Export, Hook, Embed,
-- Downstack, Rev, of Prefix and Subdir with one or more names, of Insert and File with paths of one
-- component at most, of ObjectRef and ObjectDeref, and of TreeId, Select and Pin of such filters.
abbrev mutual
  pub IsPlain : Filter → Type 0
  IsPlain nop = Unit
  IsPlain empty = Unit
  IsPlain fold = Unit
  IsPlain squash_none = Unit
  IsPlain (squash_some refs) = Unit
  IsPlain (author n e) = Unit
  IsPlain (committer n e) = Unit
  IsPlain (message m r) = Unit
  IsPlain prune = Unit
  IsPlain export = Unit
  IsPlain (hook h) = Unit
  IsPlain (embed p) = Unit
  IsPlain (downstack r) = Unit
  IsPlain (rev arms) = Unit
  IsPlain (object_ref p) = Unit
  IsPlain (object_deref p) = Unit
  IsPlain (prefix p) = IsMove p
  IsPlain (subdir p) = IsMove p
  IsPlain (insert p c) = is_long p ≡ false
  IsPlain (file dest source) = (is_long source || is_long dest) ≡ false
  IsPlain (tree_id p f) = IsPlain f
  IsPlain (select f) = IsPlain f
  IsPlain (pin f) = IsPlain f
  IsPlain (chain fs) = ArePlain fs
  IsPlain _ = ⊥

  pub ArePlain : Filters → Type 0
  ArePlain nil = Unit
  ArePlain (cons f fs) = IsPlain f × ArePlain fs

abbrev pub AllPlain : List Filter → Type 0
AllPlain [] = Unit
AllPlain (f ∷ fs) = IsPlain f × AllPlain fs

-- Where `f` has a result, `g` has the same.
abbrev pub Refines : Env → Filter → Filter → Type 0
Refines env f g = (t r : Obj) → NoZero t → run env f t ≡ ok r → run env g t ≡ ok r

mutual
  pub IsPlain-IsKnown : (f : Filter) → IsPlain f → IsKnown false f
  IsPlain-IsKnown (tree_id p f) h = IsPlain-IsKnown f h
  IsPlain-IsKnown (select f) h = IsPlain-IsKnown f h
  IsPlain-IsKnown (chain fs) h = ArePlain-AreKnown fs h
  IsPlain-IsKnown (compose fs) h = absurd h
  IsPlain-IsKnown (subtract f g) h = absurd h
  IsPlain-IsKnown (exclude f) h = absurd h
  IsPlain-IsKnown (meta m f) h = absurd h
  IsPlain-IsKnown paths h = absurd h
  IsPlain-IsKnown (adapt x) h = absurd h
  IsPlain-IsKnown (link x) h = absurd h
  IsPlain-IsKnown unlink h = absurd h
  IsPlain-IsKnown (regex_replace x) h = absurd h
  IsPlain-IsKnown index h = absurd h
  IsPlain-IsKnown invert h = absurd h
  IsPlain-IsKnown (workspace p) h = absurd h
  IsPlain-IsKnown (stored p) h = absurd h
  IsPlain-IsKnown (starlark p f) h = absurd h
  IsPlain-IsKnown (pattern p) h = absurd h
  IsPlain-IsKnown (unapply p f) h = absurd h
  IsPlain-IsKnown _ h = tt

  ArePlain-AreKnown : (fs : Filters) → ArePlain fs → AreKnown false fs
  ArePlain-AreKnown nil h = tt
  ArePlain-AreKnown (cons f fs) h = (IsPlain-IsKnown f h.0, ArePlain-AreKnown fs h.1)
