-- ===== src/Examples/Metadata.antt =====
-- Metadata of concrete filters.
use josh.Base.{text_eq, some, [], ◌∷◌, ◌≡◌, refl, Text, if◌then◌else◌}
use josh.Pins.{legalize_pin, needs_legalization, has_pin, has_pin-legalize_pin}
use josh.Base.{false}
use josh.Filter.Op.{pin, select, Filter, nop, meta, chain, subdir, prefix, cons, nil}
use josh.Metadata.{with_meta, get_meta, peel, flatten_chain}
use josh.Metadata.Lookup.{get_meta-with_meta}
use josh.Metadata.Steps.{seq-flatten_chain}
use josh.Apply.Meaning.{run}
use josh.Sound.Sequence.{seq}
use josh.Examples.World.{env, a, b, path_a, path_b, sample}

-- A chain with metadata, and a chain with other metadata in it.
abbrev marked : Filter
marked = meta ((a, b) ∷ []) (
    chain (
      cons (meta ((b, a) ∷ []) (chain (cons (subdir path_a) (cons (prefix path_b) nil))))
        (cons nop nil)))

marked_steps :
    flatten_chain marked
    ≡ meta ((a, b) ∷ (b, a) ∷ []) (subdir path_a)
      ∷ meta ((a, b) ∷ (b, a) ∷ []) (prefix path_b)
      ∷ meta ((a, b) ∷ []) nop
      ∷ []
unfolding flatten_chain text_eq
marked_steps = refl

get_meta-with_meta_example :
    ((q : Text)
      → get_meta q (with_meta a b marked) ≡ (if text_eq q a then some b else get_meta q marked))
    × (peel (with_meta a b marked) ≡ peel marked)
get_meta-with_meta_example = get_meta-with_meta a b marked

seq-flatten_chain_example : seq env (flatten_chain marked) sample ≡ run env marked sample
seq-flatten_chain_example = seq-flatten_chain env marked sample

-- `pin[:/a]:/b`
abbrev pinned : Filter
pinned = chain (cons (pin (subdir path_a)) (cons (subdir path_b) nil))

pinned_legal :
    legalize_pin select pinned ≡ chain (cons (select (subdir path_a)) (cons (subdir path_b) nil))
unfolding legalize_pin
pinned_legal = refl

select_pins : (g : Filter) → has_pin g ≡ false → has_pin (select g) ≡ false
unfolding has_pin
select_pins g h = h

select_needs : (g : Filter) → needs_legalization g ≡ false → needs_legalization (select g) ≡ false
unfolding needs_legalization
select_needs g h = h

subdir_pins : has_pin (subdir path_a) ≡ false
unfolding has_pin
subdir_pins = refl

has_pin-legalize_pin_example :
    (has_pin (legalize_pin select pinned) ≡ false)
    × (needs_legalization pinned ≡ false → needs_legalization (legalize_pin select pinned) ≡ false)
has_pin-legalize_pin_example =
    has_pin-legalize_pin select pinned select_pins select_needs (subdir_pins, (tt, tt))
