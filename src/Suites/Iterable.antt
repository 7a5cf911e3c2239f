-- ===== src/Suites/Iterable.antt =====
-- runtime-tests/near/iterable.py: a map and a set that keep the order of their keys.
use proof_forge_near.Prelude.{
  ℕ, ◌+◌, ◌*◌, ◌^◌, not, ◌&&◌, none, List, [], ◌∷◌, ◌++◌, leb, if◌then◌else◌, Text, Bytes, codes,
}
use proof_forge_near.Py.Result.{Result, ok, err}
use proof_forge_near.Py.Bytes.{to_le}
use proof_forge_near.Py.Dict.{Dict, lookup}
use proof_forge_near.Rpc.Exc.{Exc, value_error}
use proof_forge_near.Rpc.Env.{Env, Client}
use proof_forge_near.Suites.Play.{Suite, ◌>>=◌, ◌>>◌, compute, assert, each, pass, is_some_eq}
use proof_forge_near.Suites.Matrix.{prepare}
use proof_forge_near.Suites.Scene.{
  is_some, index_key, call_is, call_word_is, view_is, view_word_is, same_keys, failing_call_with,
  state, state_is,
}

abbrev map_vector : Bytes
map_vector = codes "IMPv"

abbrev map_lookup : Bytes
map_lookup = codes "IMPm"

abbrev set_vector : Bytes
set_vector = codes "ITSv"

abbrev set_lookup : Bytes
set_lookup = codes "ITSm"

abbrev capacity : ℕ
capacity = 3

-- `_vector_key`
unfoldable pub vector_key : Bytes → ℕ → Bytes
unfolding index_key
vector_key = index_key 4

-- `_lookup_key`
unfoldable pub lookup_key : Bytes → ℕ → Bytes
unfolding index_key
lookup_key = index_key 8

-- `_map_record`
unfoldable pub map_record : ℕ → ℕ → Bytes
unfolding to_le
map_record value index = to_le 8 value ++ to_le 4 index

-- `_packed`: the value stands above the key's 32 bits.
unfoldable pub packed : ℕ → ℕ → Result Exc ℕ
packed key value =
    if leb key 0xFFFFFFFF && leb value 0xFFFFFFFF
    then ok (key + value * 2 ^ 32)
    else err value_error

-- Index, key and value of the map's first three rows.
abbrev map_rows : List (ℕ × (ℕ × ℕ))
map_rows = (0, (7, 70)) ∷ (1, (9, 90)) ∷ (2, (11, 110)) ∷ []

module _ (E : Env) (c : Client) where
  -- `_expect`
  unfoldable pub expect : Dict Bytes → Bytes → Bytes → Suite E.World (Unit {0})
  expect rows key value = assert (is_some_eq (lookup key rows) value)

  -- `if key in state: raise AssertionError(...)`
  absent : Dict Bytes → Bytes → Suite E.World (Unit {0})
  absent rows key = assert (not (is_some (lookup key rows)))

  map_put_is : ℕ → ℕ → ℕ → Suite E.World (Unit {0})
  unfolding packed call_word_is
  map_put_is key value len = do
    n ← compute (packed key value)
    call_word_is E c (codes "mapPut") n len

  map_put_fails : ℕ → ℕ → Suite E.World (Unit {0})
  unfolding packed failing_call_with
  map_put_fails key value = do
    n ← compute (packed key value)
    rejected ← failing_call_with E c (codes "mapPut") n 0
    pass

  fails : Text → ℕ → Suite E.World (Unit {0})
  unfolding failing_call_with
  fails method n = do rejected ← failing_call_with E c method n 0; pass

  empty_scene : Suite E.World (Unit {0})
  unfolding state view_is view_word_is fails state_is
  empty_scene = do
    initial ← state E c
    view_is E c (codes "mapLen") [] 0
    view_is E c (codes "setLen") [] 0
    view_word_is E c (codes "mapIndex") 7 capacity
    view_word_is E c (codes "setIndex") 5 capacity
    fails (codes "mapRemove") 7
    fails (codes "setRemove") 5
    state_is E c initial

  -- What a state and the views say of one row of the map.
  map_row : Dict Bytes → ℕ × (ℕ × ℕ) → Suite E.World (Unit {0})
  unfolding expect vector_key lookup_key map_record view_word_is
  map_row rows (index, (key, value)) = do
    expect rows (vector_key map_vector index) (to_le 8 key)
    expect rows (lookup_key map_lookup key) (map_record value index)
    view_word_is E c (codes "mapKeyAt") index key
    view_word_is E c (codes "mapIndex") key index
    view_word_is E c (codes "mapGet") key value
    view_word_is E c (codes "mapHasKeyAt") index 1

  map_fill_scene : Suite E.World (Unit {0})
  unfolding each map_put_is view_is state map_row
  map_fill_scene = do
    each (λ r. map_put_is r.1.0 r.1.1 (r.0 + 1)) map_rows
    view_is E c (codes "mapLen") [] capacity
    rows ← state E c
    each (map_row rows) map_rows

  map_replace_scene : Suite E.World (Unit {0})
  unfolding state map_put_is expect each same_keys map_put_fails state_is vector_key lookup_key
      map_record
  map_replace_scene = do
    before ← state E c
    map_put_is 9 99 capacity
    rows ← state E c
    expect rows (lookup_key map_lookup 9) (map_record 99 1)
    each {A = ℕ × ℕ} (λ p. expect rows (vector_key map_vector p.0) (to_le 8 p.1))
        ((0, 7) ∷ (1, 9) ∷ (2, 11) ∷ [])
    assert (same_keys before rows)
    map_put_fails 13 130
    state_is E c rows

  map_remove_scene : Suite E.World (Unit {0})
  unfolding call_word_is state expect absent view_word_is vector_key lookup_key map_record
  map_remove_scene = do
    call_word_is E c (codes "mapRemove") 9 2
    rows ← state E c
    expect rows (vector_key map_vector 0) (to_le 8 7)
    expect rows (vector_key map_vector 1) (to_le 8 11)
    expect rows (lookup_key map_lookup 11) (map_record 110 1)
    absent rows (lookup_key map_lookup 9)
    absent rows (vector_key map_vector 2)
    view_word_is E c (codes "mapIndex") 11 1
    view_word_is E c (codes "mapGet") 11 110
    call_word_is E c (codes "mapRemove") 11 1
    left ← state E c
    absent left (lookup_key map_lookup 11)
    absent left (vector_key map_vector 1)

  -- What a state and the views say of one row of the set.
  set_row : Dict Bytes → ℕ × ℕ → Suite E.World (Unit {0})
  unfolding expect vector_key lookup_key view_word_is
  set_row rows (index, value) = do
    expect rows (vector_key set_vector index) (to_le 8 value)
    expect rows (lookup_key set_lookup value) (to_le 4 index)
    view_word_is E c (codes "setKeyAt") index value
    view_word_is E c (codes "setIndex") value index

  set_fill_scene : Suite E.World (Unit {0})
  unfolding each call_word_is state state_is set_row fails
  set_fill_scene = do
    each {A = ℕ × ℕ} (λ p. call_word_is E c (codes "setInsert") p.1 p.0)
        ((1, 5) ∷ (2, 6) ∷ (3, 7) ∷ [])
    before ← state E c
    call_word_is E c (codes "setInsert") 6 capacity
    state_is E c before
    rows ← state E c
    each (set_row rows) ((0, 5) ∷ (1, 6) ∷ (2, 7) ∷ [])
    fails (codes "setInsert") 8
    state_is E c rows

  set_remove_scene : Suite E.World (Unit {0})
  unfolding call_word_is state expect absent vector_key lookup_key
  set_remove_scene = do
    call_word_is E c (codes "setRemove") 6 2
    rows ← state E c
    expect rows (vector_key set_vector 1) (to_le 8 7)
    expect rows (lookup_key set_lookup 7) (to_le 4 1)
    absent rows (lookup_key set_lookup 6)
    absent rows (vector_key set_vector 2)
    call_word_is E c (codes "setRemove") 7 1

  malformed_scene : Suite E.World (Unit {0})
  unfolding call_is state view_word_is map_put_fails fails state_is
  malformed_scene = do
    call_is E c (codes "corruptMap7") [] none 77
    malformed_map ← state E c
    view_word_is E c (codes "mapIndex") 7 (capacity + 1)
    map_put_fails 7 700
    fails (codes "mapRemove") 7
    state_is E c malformed_map
    call_is E c (codes "corruptSet5") [] none 55
    malformed_set ← state E c
    view_word_is E c (codes "setIndex") 5 (capacity + 1)
    fails (codes "setInsert") 5
    fails (codes "setRemove") 5
    state_is E c malformed_set

  unfoldable pub main : Bytes → Suite E.World (Unit {0})
  unfolding prepare empty_scene map_fill_scene map_replace_scene map_remove_scene set_fill_scene
      set_remove_scene malformed_scene
  main wasm = do
    prepare E c wasm 0
    empty_scene
    map_fill_scene
    map_replace_scene
    map_remove_scene
    set_fill_scene
    set_remove_scene
    malformed_scene
