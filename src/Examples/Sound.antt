-- ===== src/Examples/Sound.antt =====
-- The rewriting and the evaluation of concrete filters.
use josh.Base.{false, none, text_eq, some, List, [], ◌∷◌, ◌≡◌, ◌≢◌, refl, arith}
use josh.FilePath.{normal}
use josh.Filter.Op.{Filter, prefix, subdir, chain, exclude, of_list}
use josh.Filter.Height.{height}
use josh.Opt.Step.{split_subdir, split_prefix}
use josh.Opt.Invert.{invert}
use josh.Opt.Structure.{resurrects_from_empty}
use josh.Tree.Object.{Obj, Obj-discrete, empty_id}
use josh.Tree.Insert.{has_nul}
use josh.Tree.Subtract as Subtract
use josh.Tree.NoZero.{NoZero}
use josh.Apply.Run.{ok, out_of_fuel}
use josh.Apply.Eval.{apply}
use josh.Apply.Meaning.{run}
use josh.Apply.Fuel.{apply_total}
use josh.Apply.NoZero.{run-NoZero}
use josh.Sound.Empty.{run-Empty}
use josh.Sound.Moves.{run-split_subdir}
use josh.Sound.Splits.{run-split_prefix, subdir-prefix}
use josh.Sound.Chain.{Rec}
use josh.Sound.Undo.{run-invert}
use josh.Examples.World.{env, env-IsBisect, env-IsSafe, a, path_a, path_b, path_ab, inner, sample}

-- `:prefix=a:/a:/b`
abbrev up_and_down : List Filter
up_and_down = prefix path_a ∷ subdir path_a ∷ subdir path_b ∷ []

abbrev no_memo : Rec
no_memo f = none

subdir_height : height (chain (of_list up_and_down)) ≡ 2
unfolding height of_list
subdir_height = refl

apply_total_example :
    (apply env 5 (chain (of_list up_and_down)) sample ≢ out_of_fuel)
    × (apply env 5 (chain (of_list up_and_down)) sample
        ≡ apply env 7 (chain (of_list up_and_down)) sample)
apply_total_example =
    apply_total env 5 7 (chain (of_list up_and_down)) sample (omega (arith, subdir_height))
      (omega (arith, subdir_height))

sample_subdir : run env (subdir path_a) sample ≡ ok inner
unfolding run apply height text_eq
sample_subdir = refl

run-NoZero_example : NoZero inner
run-NoZero_example =
    run-NoZero env (subdir path_a) sample env-IsSafe tt ((tt, tt), (tt, tt)) sample_subdir

no_insert : resurrects_from_empty (exclude (subdir path_a)) ≡ false
unfolding resurrects_from_empty
no_insert = refl

empty_excluded : run env (exclude (subdir path_a)) empty_id ≡ ok empty_id
unfolding run apply height Obj-discrete Subtract.subtract
empty_excluded = refl

run-Empty_example : empty_id ≡ empty_id
run-Empty_example =
    run-Empty env env-IsBisect (exclude (subdir path_a)) empty_id tt no_insert empty_excluded

run-split_subdir_example : run env (split_subdir path_ab) sample ≡ run env (subdir path_ab) sample
run-split_subdir_example = run-split_subdir env (normal a) path_b sample tt

run-split_prefix_example : run env (split_prefix path_ab) sample ≡ run env (prefix path_ab) sample
run-split_prefix_example = run-split_prefix env env-IsBisect (normal a) path_b sample tt

subdir-prefix_example :
    run env (chain (of_list (prefix path_ab ∷ subdir path_ab ∷ []))) sample ≡ ok sample
unfolding has_nul
subdir-prefix_example =
    subdir-prefix env env-IsBisect (normal a) path_b sample tt (refl, (refl, tt))
      ((tt, tt), (tt, tt))

-- `:prefix=b:prefix=a`
abbrev embedding : Filter
embedding = chain (of_list (prefix path_b ∷ prefix path_a ∷ []))

run-invert_example :
    (g : Filter) × (invert embedding ≡ some g)
    × (u : Obj) × (run env embedding sample ≡ ok u)
    × (run env g u ≡ ok sample)
unfolding of_list has_nul
run-invert_example =
    run-invert env env-IsBisect embedding sample ((tt, (refl, tt)), ((tt, (refl, tt)), tt))
      ((tt, tt), (tt, tt))

embedding_inverse : invert embedding ≡ some (chain (of_list (subdir path_a ∷ subdir path_b ∷ [])))
unfolding invert of_list
embedding_inverse = refl
