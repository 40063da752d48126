-- ===== src/Examples/World.antt =====
-- A concrete repository for the evaluation in josh-core/src/filter/mod.rs, and trees in it.
use josh.Base.{some, [], ◌∷◌, refl, Text}
use josh.FilePath.{FilePath, normal}
use josh.Tree.Object.{Obj, blob, tree, nil, entry, tree_mode, blob_mode, find_kind}
use josh.Tree.Order.{IsBisect}
use josh.Apply.Eval.{Env}
use josh.Apply.NoZero.{IsSafe}

abbrev pub env : Env
env = record {
  bisect = find_kind;
  object = λ i. blob (i ∷ []);
  hex = λ o. 0x30 ∷ [];
  parse_id = λ s. some (blob s);
  other = λ f t. some t;
}

pub env-IsBisect : IsBisect env.bisect
env-IsBisect es n dir h = refl

pub env-IsSafe : IsSafe env
env-IsSafe = record { is_bisect = env-IsBisect; object_safe = λ i. tt; parse_safe = λ s. tt }

abbrev pub a : Text
a = b'a' ∷ []

abbrev pub b : Text
b = b'b' ∷ []

abbrev pub path_a : FilePath
path_a = normal a ∷ []

abbrev pub path_b : FilePath
path_b = normal b ∷ []

abbrev pub path_ab : FilePath
path_ab = normal a ∷ normal b ∷ []

-- `a/b` is a file with one byte, `b` another file.
abbrev pub inner : Obj
inner = tree (entry blob_mode b (blob (1 ∷ [])) nil)

abbrev pub sample : Obj
sample = tree (entry tree_mode a inner (entry blob_mode b (blob (2 ∷ [])) nil))
