-- ===== src/Opt/PrefixSort.antt =====
-- josh-filter/src/opt/prefix_sort.rs: the order of the filters of a `Compose`. Filters whose source
-- or destination paths overlap keep their order, the others are sorted by those paths.
use josh.Base.{
  ℕ, zero, suc, ◌+◌, ◌-◌, Bool, true, false, ◌&&◌, Option, none, some, List, [], ◌∷◌, ◌++◌, length,
  leb, ltb, ◌==◌, if◌then◌else◌, is_yes,
}
use josh.FilePath.{FilePath, Component, Component-discrete, root_dir, cur_dir, parent_dir, normal}
use josh.Filter.Op.{Filter}
use josh.Opt.Paths.{src_path, dst_path}

-- `PathTrie`: the indices of the paths that end at a node, and the children by component.
mutual
  pub data PathTrie : Type 0 where
    node : List ℕ → Children → PathTrie

  pub data Children : Type 0 where
    no_child : Children
    child : Component → PathTrie → Children → Children

abbrev pub empty_trie : PathTrie
empty_trie = node [] no_child

abbrev component_eq : Component → Component → Bool
component_eq c d = is_yes (Component-discrete c d)

-- The trie of one path alone, for a component that has no entry yet.
unfoldable pub branch_of : FilePath → ℕ → PathTrie
branch_of [] i = node (i ∷ []) no_child
branch_of (c ∷ p) i = node [] (child c (branch_of p i) no_child)

unfoldable mutual
  unfolding branch_of

  pub trie_insert : PathTrie → FilePath → ℕ → PathTrie
  trie_insert (node is kids) [] i = node (is ++ i ∷ []) kids
  trie_insert (node is kids) (c ∷ p) i = node is (child_insert kids c p i)

  pub child_insert : Children → Component → FilePath → ℕ → Children
  child_insert no_child c p i = child c (branch_of p i) no_child
  child_insert (child d t kids) c p i =
      let here = child d (trie_insert t p i) kids in
      let later = child d t (child_insert kids c p i) in if component_eq d c then here else later

unfoldable mutual
  pub collect_descendants : PathTrie → List ℕ
  collect_descendants (node is kids) = collect_children kids

  pub collect_children : Children → List ℕ
  collect_children no_child = []
  collect_children (child c (node is below) kids) =
      is ++ (collect_children below ++ collect_children kids)

-- The indices of all paths that begin `path`, or that it begins.
unfoldable mutual
  unfolding collect_descendants

  pub find_overlapping : PathTrie → FilePath → List ℕ
  find_overlapping (node is kids) [] = is ++ collect_children kids
  find_overlapping (node is kids) (c ∷ p) = is ++ find_in_children kids c p

  pub find_in_children : Children → Component → FilePath → List ℕ
  find_in_children no_child c p = []
  find_in_children (child d t kids) c p =
      let here = find_overlapping t p in
      let later = find_in_children kids c p in if component_eq d c then here else later

-- Edges from each filter to the later ones that must come after it.
abbrev pub Edges : Type 0
Edges = List (List ℕ)

abbrev pub no_edges : ℕ → Edges
no_edges zero = []
no_edges (suc n) = [] ∷ no_edges n

unfoldable pub ends_with : List ℕ → ℕ → Bool
ends_with [] i = false
ends_with (x ∷ []) i = x == i
ends_with (x ∷ y ∷ xs) i = ends_with (y ∷ xs) i

unfoldable pub push_outgoing : Edges → ℕ → ℕ → Edges
unfolding ends_with
push_outgoing [] j i = []
push_outgoing (out ∷ rest) zero i = (if ends_with out i then out else out ++ i ∷ []) ∷ rest
push_outgoing (out ∷ rest) (suc j) i = out ∷ push_outgoing rest j i

unfoldable pub push_all : Edges → List ℕ → ℕ → Edges
unfolding push_outgoing
push_all edges [] i = edges
push_all edges (j ∷ js) i = push_all (push_outgoing edges j i) js i

-- The loop of `prefix_sort`, at index `i` of the filters not yet entered.
unfoldable pub edges_from : Edges → PathTrie → PathTrie → ℕ → List Filter → Edges
unfolding push_all find_overlapping trie_insert src_path dst_path
edges_from edges srcs dsts i [] = edges
edges_from edges srcs dsts i (f ∷ fs) =
    let src = src_path f in
    let dst = dst_path f in
    edges_from
      (push_all (push_all edges (find_overlapping srcs src) i) (find_overlapping dsts dst) i)
      (trie_insert srcs src i) (trie_insert dsts dst i) (i + 1) fs

-- `Ord` of the standard library on components and on paths: by kind, then by name.
unfoldable pub kind_rank : Component → ℕ
kind_rank root_dir = 1
kind_rank cur_dir = 2
kind_rank parent_dir = 3
kind_rank (normal s) = 4

unfoldable pub text_le : List ℕ → List ℕ → Bool
text_le [] t = true
text_le (x ∷ s) [] = false
text_le (x ∷ s) (y ∷ t) = let rest = text_le s t in if x == y then rest else ltb x y

abbrev component_le : Component → Component → Bool
component_le (normal s) (normal t) = text_le s t
component_le c d = leb (kind_rank c) (kind_rank d)

unfoldable pub path_le : FilePath → FilePath → Bool
unfolding kind_rank text_le
path_le [] q = true
path_le (c ∷ p) [] = false
path_le (c ∷ p) (d ∷ q) =
    let rest = path_le p q in if component_eq c d then rest else component_le c d

-- `SortKey`: an index with its source and its destination path.
pub record SortKey : Type 0 where
  pub at : ℕ
  pub src : FilePath
  pub dst : FilePath

abbrev path_eq : FilePath → FilePath → Bool
path_eq p q = path_le p q && path_le q p

-- `a >= b` in the order of the heap, which is reversed: the greatest key has the least paths.
unfoldable pub key_ge : SortKey → SortKey → Bool
unfolding path_le
key_ge a b = if path_eq a.src b.src then path_le a.dst b.dst else path_le a.src b.src

-- `BinaryHeap::pop`: a greatest key, the one that stands first where several are equal.
unfoldable pub pop_greatest : SortKey → List SortKey → SortKey × List SortKey
unfolding key_ge
pop_greatest k [] = (k, [])
pop_greatest k (l ∷ ls) =
    let keep = pop_greatest k ls in
    let swap = pop_greatest l ls in
    if key_ge k l then (keep.0, l ∷ keep.1) else (swap.0, k ∷ swap.1)

unfoldable pub nth : List Filter → ℕ → Option Filter
nth [] i = none
nth (f ∷ fs) zero = some f
nth (f ∷ fs) (suc i) = nth fs i

abbrev edges_of : Edges → ℕ → List ℕ
edges_of [] i = []
edges_of (out ∷ rest) zero = out
edges_of (out ∷ rest) (suc i) = edges_of rest i

-- `indegree[j] += 1`
unfoldable pub raise_at : List ℕ → ℕ → List ℕ
raise_at [] j = []
raise_at (d ∷ ds) zero = suc d ∷ ds
raise_at (d ∷ ds) (suc j) = d ∷ raise_at ds j

unfoldable pub raise_each : List ℕ → List ℕ → List ℕ
unfolding raise_at
raise_each ds [] = ds
raise_each ds (j ∷ js) = raise_each (raise_at ds j) js

abbrev zeros : ℕ → List ℕ
zeros zero = []
zeros (suc n) = 0 ∷ zeros n

unfoldable pub indegrees : List ℕ → Edges → List ℕ
unfolding raise_each
indegrees ds [] = ds
indegrees ds (out ∷ rest) = indegrees (raise_each ds out) rest

unfoldable pub key_at : List Filter → ℕ → List SortKey
unfolding nth src_path dst_path
key_at fs i = elim (nth fs i) [
  | none ↦ []
  | some f ↦ record { at = i; src = src_path f; dst = dst_path f } ∷ []
]

-- The keys of the filters with no edge into them.
unfoldable pub ready : List Filter → ℕ → List ℕ → List SortKey
unfolding key_at
ready fs i [] = []
ready fs i (zero ∷ ds) = key_at fs i ++ ready fs (i + 1) ds
ready fs i (suc d ∷ ds) = ready fs (i + 1) ds

-- `indegree[j] -= 1`, and whether the count has come to zero.
unfoldable pub lower_at : List ℕ → ℕ → List ℕ × Bool
lower_at [] j = ([], false)
lower_at (d ∷ ds) zero = ((d - 1) ∷ ds, d == 1)
lower_at (d ∷ ds) (suc j) = let (es, done) = lower_at ds j in (d ∷ es, done)

unfoldable pub release : List Filter → List ℕ → List SortKey → List ℕ → List ℕ × List SortKey
unfolding lower_at key_at
release fs ds heap [] = (ds, heap)
release fs ds heap (j ∷ js) =
    let (es, done) = lower_at ds j in release fs es (if done then heap ++ key_at fs j else heap) js

-- The `while` loop over the heap: each filter is popped at most once.
unfoldable pub topo_loop : ℕ → Edges → List Filter → List ℕ → List SortKey → Option (List ℕ)
unfolding pop_greatest release
topo_loop fuel edges fs ds [] = some []
topo_loop zero edges fs ds (k ∷ ks) = none
topo_loop (suc fuel) edges fs ds (k ∷ ks) =
    let (top, rest) = pop_greatest k ks in
    let (es, heap) = release fs ds rest (edges_of edges top.at) in
    elim (topo_loop fuel edges fs es heap) [ none ↦ none | some out ↦ some (top.at ∷ out) ]

unfoldable pub pick : List Filter → List ℕ → List Filter
unfolding nth
pick fs [] = []
pick fs (i ∷ is) = elim (nth fs i) [ none ↦ pick fs is | some f ↦ f ∷ pick fs is ]

unfoldable pub prefix_sort : List Filter → Option (List Filter)
unfolding edges_from indegrees ready topo_loop pick
prefix_sort fs =
    let edges = edges_from (no_edges (length fs)) empty_trie empty_trie 0 fs in
    let ds = indegrees (zeros (length fs)) edges in
    let order = topo_loop (length fs) edges fs ds (ready fs 0 ds) in
    if leb (length fs) 1
    then some fs
    else (elim order [ none ↦ none | some is ↦ some (pick fs is) ])
