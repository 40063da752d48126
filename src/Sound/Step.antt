-- ===== src/Sound/Step.antt =====
-- `step` as a whole, on plain filters.
use josh.FilePath.{FilePath}
use josh.Filter.Op.{Filter}
use josh.Tree.NoZero.{NoZero}
use josh.Apply.Run.{Run}
use josh.Apply.Eval.{Env}
use josh.Sound.Plain.{IsPlain, Refines}
use josh.Sound.Chain.{Sound}

-- A filter that `step` leaves alone.
abbrev Keeps : Env → Filter → Filter → Type 0
Keeps env f g = IsPlain g × Refines env f g
