-- ===== src/Suites/Vector.antt =====
-- runtime-tests/near/vector.py: a vector of at most four numbers, one row of the state for each.
use proof_forge_near.Prelude.{ℕ, ◌+◌, ◌^◌, true, not, none, [], ◌∷◌, Bytes, codes}
use proof_forge_near.Py.Dict.{Dict, lookup}
use proof_forge_near.Py.Int.{pos}
use proof_forge_near.Rpc.Env.{Env, Client}
use proof_forge_near.Rpc.Wire.{encode_u64_le}
use proof_forge_near.Suites.Play.{Suite, ◌>>=◌, ◌>>◌, compute, assert, each, is_some_eq}
use proof_forge_near.Suites.Matrix.{prepare}
use proof_forge_near.Suites.Scene.{
  is_some, index_key, call_u64, call_is, call_word_is, view_is, view_word_is, failing_call,
  failing_call_with, state, state_is, word,
}

abbrev pub prefix : Bytes
prefix = codes "VEC1"

-- `_key`
unfoldable pub key : ℕ → Bytes
unfolding index_key
key = index_key 4 prefix

module _ (E : Env) (c : Client) where
  unfoldable pub expect_element : Dict Bytes → ℕ → ℕ → Suite E.World (Unit {0})
  unfolding key
  expect_element rows index value = do
    expected ← compute (encode_u64_le (pos value))
    assert (is_some_eq (lookup (key index) rows) expected)

  empty_scene : Suite E.World (Unit {0})
  unfolding view_is view_word_is failing_call failing_call_with state state_is
  empty_scene = do
    initial ← state E c
    view_is E c (codes "get") [] 0
    view_word_is E c (codes "getAt") 0 0
    f ← failing_call_with E c (codes "setFirst") 9 0
    g ← failing_call E c (codes "pop") [] 0
    state_is E c initial

  push_scene : ℕ → ℕ → Suite E.World (Unit {0})
  unfolding call_word_is view_is view_word_is state expect_element
  push_scene first second = do
    call_word_is E c (codes "push") first 1
    call_word_is E c (codes "push") second 2
    view_is E c (codes "get") [] 2
    view_word_is E c (codes "getAt") 0 first
    view_word_is E c (codes "getAt") 1 second
    rows ← state E c
    expect_element rows 0 first
    expect_element rows 1 second

  set_scene : ℕ → ℕ → Suite E.World (Unit {0})
  unfolding call_word_is view_word_is state expect_element
  set_scene replacement second = do
    call_word_is E c (codes "setFirst") replacement replacement
    view_word_is E c (codes "getAt") 0 replacement
    rows ← state E c
    expect_element rows 0 replacement
    expect_element rows 1 second

  pop_scene : ℕ → Suite E.World (Unit {0})
  unfolding call_is view_word_is state expect_element key
  pop_scene replacement = do
    call_is E c (codes "pop") [] none 1
    rows ← state E c
    assert (not (is_some (lookup (key 1) rows)))
    expect_element rows 0 replacement
    view_word_is E c (codes "getAt") 1 0

  push_value : ℕ → Suite E.World (Unit {0})
  unfolding word call_u64
  push_value n = do args ← word E c n; got ← call_u64 E c (codes "push") args none; assert true

  capacity_scene : Suite E.World (Unit {0})
  unfolding each push_value view_is failing_call_with state state_is view_word_is
  capacity_scene = do
    each push_value (30 ∷ 40 ∷ 50 ∷ [])
    view_is E c (codes "get") [] 4
    full ← state E c
    f ← failing_call_with E c (codes "push") 60 0
    state_is E c full
    view_word_is E c (codes "getAt") (2 ^ 32 + 1) 0

  -- The suite, after its environment variables are read.
  unfoldable pub main : Bytes → Suite E.World (Unit {0})
  unfolding prepare empty_scene push_scene set_scene pop_scene capacity_scene
  main code = do
    prepare E c code 0
    empty_scene
    push_scene 0x0102030405060708 0xffeeddccbbaa0099
    set_scene 0x8877665544332211 0xffeeddccbbaa0099
    pop_scene 0x8877665544332211
    capacity_scene
