-- ===== src/Examples/Persist.antt =====
-- The persisted form of filters (josh-filter/src/persist.rs) on concrete inputs.
use Prim.Native.Nat.{◌/◌, ◌%◌}
use josh.Base.{
  Bool, ℕ, zero, suc, ◌+◌, ◌==◌, true, false, Option, none, some, List, [], ◌∷◌, ◌++◌, Text, ◌≡◌,
  ◌↔◌, refl, ap, arith, all, text_eq, inl, ◌>>=◌, if◌then◌else◌,
}
use josh.Filter.Op.{
  Filter, inline, oid, lazy, resolved, default, ancestor_strict, meta, chain, compose, subdir,
  prefix, nop, empty, rev, unapply, squash_some, regex_replace, insert, of_list, nil, cons, no_arms,
  arm, no_refs, ref, author, exclude,
}
use josh.Tree.Object.{Obj, blob, absent}
use josh.Apply.Run.{Run, ok, failed}
use josh.Persist.Decimal.{decimal, digits, value, value-decimal}
use josh.Persist.Utf8.{bytes, utf8_run}
use josh.Persist.PathText.{IsName}
use josh.Persist.RefText.{Codec, IsCodec, is_hex_digit}
use josh.Refs.{lazy_ref_less}
use josh.Opt.PrefixSort.{text_le}
use josh.Persist.Write.{build_op, tree_op, starlark_params, blob_op}
use josh.Persist.Read.{from_tree, read_each, read_keyed}
use josh.Persist.Read.Keys.{read_rev_key}
use josh.Persist.Storable.{levels}
use josh.Persist.RoundTrip.{from_tree-build_op}
use josh.Persist.Errors.{from_tree-starlark, build_op-IsWritable}
use josh.Persist.Build.{build_persist}
use josh.Persist.Ids.{build_persist-build_op}
use josh.Persist.Writable.{IsWritable}
use josh.Examples.World.{a, b, path_a, path_b, path_ab}

abbrev butlast : Text → Text
butlast [] = []
butlast (c ∷ []) = []
butlast (c ∷ d ∷ s) = c ∷ butlast (d ∷ s)

abbrev id_of_blob : Obj → ℕ
id_of_blob (blob (i ∷ s)) = i
id_of_blob _ = 0

abbrev unquoted : Text → Option Text
unquoted [] = none
unquoted (c ∷ s) = if c == b'"' then some (butlast s) else none

-- Ids in decimal digits, and JSON strings without escapes.
abbrev codec : Codec
codec = record {
  hex = decimal;
  parse_hex = λ s. some (value 0 s);
  json_string = unquoted;
  is_regex = λ s. true;
  is_glob = λ s. true;
  object = λ i. blob (i ∷ []);
  id_of = id_of_blob;
}

digits_hex :
    (fuel n : ℕ) (out : Text)
    → all is_hex_digit out ≡ true
    → all is_hex_digit (digits fuel n out) ≡ true
unfolding digits
digits_hex zero n out h = h
digits_hex (suc fuel) n out h = ground (arith, digits_hex fuel (n / 10) ((b'0' + n % 10) ∷ out))

butlast-append : (s : Text) (c : ℕ) → butlast (s ++ c ∷ []) ≡ s
butlast-append [] c = refl
butlast-append (d ∷ []) c = refl
butlast-append (d ∷ e ∷ s) c = ap (λ t. d ∷ t) (butlast-append (e ∷ s) c)

hex_unquoted : (s : Text) → all is_hex_digit s ≡ true → unquoted s ≡ none
hex_unquoted [] h = refl
hex_unquoted (c ∷ s) h = ground arith

codec-IsCodec : IsCodec codec
unfolding decimal
codec-IsCodec = record {
  hex_digits = λ i. digits_hex (suc i) i [] refl;
  parse_hex-hex = λ i. ap some (value-decimal i);
  json_string-hex = hex_unquoted;
  json_string-quoted = λ s h k. ap some (butlast-append s b'"');
  id_of-object = λ i. refl;
}

loaded : Filter → Option (Run Filter)
loaded f = do o ← build_op codec true f; some (from_tree codec 20 o)

abbrev steps : List Filter
steps =
    subdir path_a
    ∷ prefix path_b
    ∷ subdir path_ab
    ∷ prefix path_a
    ∷ subdir path_b
    ∷ nop
    ∷ empty
    ∷ prefix path_ab
    ∷ nop
    ∷ empty
    ∷ subdir path_a
    ∷ []

-- Eleven steps of a chain are read back.
chain_loaded : loaded (chain (of_list steps)) ≡ some (ok (chain (of_list steps)))
unfolding loaded build_op from_tree of_list read_each
chain_loaded = refl

-- Of eleven parts of a `Compose` the last is read behind the second.
compose_loaded :
    loaded (compose (of_list steps))
    ≡ some (
        ok (
          compose (
            of_list (
              subdir path_a
              ∷ prefix path_b
              ∷ subdir path_a
              ∷ subdir path_ab
              ∷ prefix path_a
              ∷ subdir path_b
              ∷ nop
              ∷ empty
              ∷ prefix path_ab
              ∷ nop
              ∷ empty
              ∷ []))))
unfolding loaded build_op from_tree of_list read_each
compose_loaded = refl

-- A key `0` takes the place of the filter.
zero_key_loaded : loaded (meta ((bytes "0", a) ∷ []) nop) ≡ some failed
unfolding loaded build_op from_tree
zero_key_loaded = refl

empty_chain_loaded : loaded (chain nil) ≡ some failed
unfolding loaded build_op from_tree
empty_chain_loaded = refl

-- The ref of a default arm is lost.
default_loaded :
    loaded (rev (arm default (resolved 7) nop no_arms))
    ≡ some (ok (rev (arm default (resolved 0) nop no_arms)))
unfolding loaded build_op from_tree read_each read_keyed read_rev_key
default_loaded = refl

abbrev stored_filter : Filter
stored_filter = meta ((a, b) ∷ (b, a) ∷ []) (
    chain (
      cons (author a b) (
        cons (compose (cons (insert path_a (oid 3)) (cons (insert path_b (inline a)) nil))) (
          cons
            (rev (
              arm ancestor_strict (lazy a) (subdir path_ab) (arm default (resolved 0) nop no_arms)))
            (cons (squash_some (ref (resolved 1) nop (ref (lazy b) (exclude nop) no_refs)))
              (cons (unapply (resolved 5) (regex_replace ((a, b) ∷ []))) nil))))))

abbrev stored_tree : Obj
unfolding build_op
stored_tree = elim (build_op codec true stored_filter) [ none ↦ absent 0 | some o ↦ o ]

a-IsName : IsName a
unfolding utf8_run text_eq
a-IsName = (refl, refl, refl, refl)

b-IsName : IsName b
unfolding utf8_run text_eq
b-IsName = (refl, refl, refl, refl)

from_tree-build_op_example : from_tree codec 20 stored_tree ≡ ok stored_filter
unfolding build_op utf8_run levels text_eq text_le lazy_ref_less
from_tree-build_op_example =
    from_tree-build_op codec codec-IsCodec stored_filter stored_tree 20
      (
        ((refl, refl, tt), (tt, tt)),
        (refl, refl, refl, (refl, refl, refl, tt)),
        (
          (refl, refl),
          (
            (omega arith, (((a-IsName, tt), tt), (((b-IsName, tt), refl), tt))),
            (
              (((refl, refl), (a-IsName, (b-IsName, tt)), (refl, tt, tt))),
              (
                (omega arith, ((refl, tt), (tt, tt)), (tt, tt, ((refl, refl), tt, tt))),
                ((tt, (omega arith, (refl, refl, refl, tt))), tt),
              ),
            ),
          ),
        ),
      )
      refl (omega arith)

from_tree-starlark_example :
    from_tree codec 2
      (tree_op (bytes "starlark") (starlark_params path_a (blob_op (bytes "nop") [])))
    ≡ failed
unfolding build_op
from_tree-starlark_example = from_tree-starlark codec true 0 path_a nop _ (inl refl)

build_op-IsWritable_example :
    ((o : Obj) × (build_op codec true stored_filter ≡ some o)) ↔ IsWritable codec stored_filter
build_op-IsWritable_example = build_op-IsWritable codec stored_filter

-- Nothing is in the repository yet.
abbrev exists : Obj → Bool
exists o = false

build_persist-build_op_example :
    build_persist codec exists stored_filter ≡ build_op codec true stored_filter
build_persist-build_op_example = build_persist-build_op codec exists stored_filter

-- A key with a NUL.
nul_key_written : build_op codec true (meta ((0 ∷ [], a) ∷ []) nop) ≡ none
unfolding build_op
nul_key_written = refl
