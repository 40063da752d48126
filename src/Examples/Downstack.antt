-- ===== src/Examples/Downstack.antt =====
-- Stacks of commits for `downstack`, and the trailers of a message.
use mathlib.Core.List.{Memᴰ}
use josh.Base.{
  ℕ_discrete, Text-discrete, text_eq, Bool, false, none, some, List, [], ◌∷◌, ◌≡◌, ◌↔◌, refl,
}
use josh.Tree.Object.{Obj, Obj-discrete, blob, tree, nil, entry, tree_mode, blob_mode, find_kind}
use josh.Tree.Order.{lookup_entry}
use josh.Persist.Utf8.{bytes}
use josh.Trailers.{parse_change_meta}
use josh.RevWalk.{Commit, Commit-discrete, commit, cons}
use josh.RevWalk as RevWalk
use josh.Apply.Run.{ok}
use josh.Downstack.{
  Git, DownstackDep, DownstackDep-discrete, path, downstack_commit_deps, select_needed, restack,
  downstack,
}
use josh.Downstack.Needed.{IsLinked, AreMarked, select_needed-IsLinked}
use josh.Downstack.Unchanged.{restack-IsLinear}
use josh.Examples.World.{a, b, inner}

trailers_read :
    parse_change_meta (bytes "Change: no\n\ntext\n\nChange: x\nChange-Series: y\nKey: z\n")
    ≡ (some (bytes "x"), bytes "y" ∷ [])
unfolding parse_change_meta
trailers_read = refl

abbrev git : Git
git = record {
  bisect = find_kind;
  message = λ s. some s;
  rewrite = λ s. some s;
  merge_bases = λ c d. some (d ∷ []);
  merge_trees = λ s t u. none;
}

abbrev with_a : Obj → Obj
with_a o = tree (entry blob_mode a o (entry blob_mode b (blob (2 ∷ [])) nil))

abbrev base : Commit
base = commit (tree (entry blob_mode b (blob (2 ∷ [])) nil)) RevWalk.nil []

abbrev add_a : Commit
add_a = commit (with_a (blob (1 ∷ []))) (cons base RevWalk.nil) []

abbrev edit_a : Commit
edit_a = commit (with_a (blob (3 ∷ []))) (cons add_a RevWalk.nil) []

add_a-deps : downstack_commit_deps git add_a ≡ ok (path a ∷ [])
unfolding downstack_commit_deps lookup_entry find_kind text_eq Obj-discrete ℕ_discrete
add_a-deps = refl

edit_a-deps : downstack_commit_deps git edit_a ≡ ok (path a ∷ [])
unfolding downstack_commit_deps lookup_entry find_kind text_eq Obj-discrete ℕ_discrete
edit_a-deps = refl

edit_a-stays : downstack git 20 edit_a base ≡ ok edit_a
unfolding downstack downstack_commit_deps lookup_entry find_kind text_eq Obj-discrete ℕ_discrete
    Text-discrete Commit-discrete DownstackDep-discrete
edit_a-stays = refl

-- A file that becomes a directory, and a change of a file in it: they share no path.
abbrev make_dir : Commit
make_dir =
    commit (tree (entry tree_mode a inner (entry blob_mode b (blob (2 ∷ [])) nil)))
      (cons add_a RevWalk.nil) []

abbrev edit_dir : Commit
edit_dir =
    commit
      (tree (
        entry tree_mode a (tree (entry blob_mode b (blob (9 ∷ [])) nil))
          (entry blob_mode b (blob (2 ∷ [])) nil)))
      (cons make_dir RevWalk.nil) []

make_dir-dropped :
    select_needed git (path (b'a' ∷ b'/' ∷ b'b' ∷ []) ∷ []) (make_dir ∷ [])
    ≡ ok (false ∷ [], path (b'a' ∷ b'/' ∷ b'b' ∷ []) ∷ [])
unfolding select_needed lookup_entry find_kind text_eq Obj-discrete ℕ_discrete Text-discrete
    DownstackDep-discrete downstack_commit_deps
make_dir-dropped = refl

edit_dir-deps : downstack_commit_deps git edit_dir ≡ ok (path (b'a' ∷ b'/' ∷ b'b' ∷ []) ∷ [])
unfolding downstack_commit_deps lookup_entry find_kind text_eq Obj-discrete ℕ_discrete
edit_dir-deps = refl

select_needed-IsLinked_example :
    (s : List Bool × List DownstackDep) × (select_needed git (path a ∷ []) (add_a ∷ []) ≡ ok s)
    × AreMarked (path a ∷ []) ((path a ∷ []) ∷ []) s.0
    × ((x : DownstackDep) → Memᴰ x s.1 ↔ IsLinked (path a ∷ []) ((path a ∷ []) ∷ []) x)
select_needed-IsLinked_example =
    select_needed-IsLinked git (path a ∷ []) (add_a ∷ []) ((path a ∷ []) ∷ []) (add_a-deps, tt)

add_a-needed : IsLinked (path a ∷ []) [] (path a)
unfolding IsLinked
add_a-needed = Memᴰ.head refl

restack-IsLinear_example : restack git (add_a ∷ []) edit_a base ≡ ok edit_a
restack-IsLinear_example =
    restack-IsLinear git (add_a ∷ []) ((path a ∷ []) ∷ []) (path a ∷ []) base add_a
      (with_a (blob (3 ∷ []))) RevWalk.nil [] (tree (entry blob_mode b (blob (2 ∷ [])) nil)) refl
      (with_a (blob (1 ∷ [])), [], refl, refl, refl) refl (add_a-deps, tt) edit_a-deps
      ((path a, Memᴰ.head refl, add_a-needed), tt)
