-- ===== src/FilePath.antt =====
-- `std::path::Path` as the optimizer sees it: by its components. Equality, `join`, `parent` and
-- `file_name` of the standard library go by components on Unix, where there is no `Prefix`.
use josh.Base.{List, [], ◌∷◌, ◌++◌, Option, none, some, Text, ℕ_discrete}

pub data Component : Type 0 where
  root_dir cur_dir parent_dir : Component
  normal : Text → Component

abbrev pub FilePath : Type 0
FilePath = List Component

unfoldable pub Component-discrete : Discrete Component
Component-discrete = hlevel ℕ_discrete

unfoldable pub FilePath-discrete : Discrete FilePath
FilePath-discrete = hlevel ℕ_discrete

-- A `.` counts as a component only at the front of a path.
unfoldable pub drop_cur_dir : FilePath → FilePath
drop_cur_dir (cur_dir ∷ p) = p
drop_cur_dir p = p

-- `Path::join`: an absolute right side replaces the left one.
unfoldable pub join : FilePath → FilePath → FilePath
unfolding drop_cur_dir
join [] q = q
join (c ∷ p) (root_dir ∷ q) = root_dir ∷ q
join (c ∷ p) q = (c ∷ p) ++ drop_cur_dir q

unfoldable pub init : FilePath → FilePath
init [] = []
init (c ∷ []) = []
init (c ∷ d ∷ p) = c ∷ init (d ∷ p)

unfoldable pub last : FilePath → Option Component
last [] = none
last (c ∷ []) = some c
last (c ∷ d ∷ p) = last (d ∷ p)

-- `Path::file_name`: the last component, if it is a normal one.
abbrev only_normal : Option Component → Option Text
only_normal (some (normal s)) = some s
only_normal _ = none

unfoldable pub file_name : FilePath → Option Text
unfolding last
file_name p = only_normal (last p)

-- `Path::parent`: all but the last component, unless that is the root or there is none.
abbrev parent_of : Option Component → FilePath → Option FilePath
parent_of none p = none
parent_of (some root_dir) p = none
parent_of (some _) p = some p

unfoldable pub parent : FilePath → Option FilePath
unfolding init last
parent p = parent_of (last p) (init p)

-- `PathBuf::pop` keeps the path where it has no parent.
unfoldable pub pop : FilePath → FilePath
unfolding parent
pop p = elim (parent p) [ none ↦ p | some q ↦ q ]
