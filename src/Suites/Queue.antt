-- ===== src/Suites/Queue.antt =====
-- runtime-tests/near/queue.py: a queue of at most three numbers in a ring of rows.
use proof_forge_near.Prelude.{
  ℕ, ◌+◌, ◌^◌, Bool, true, false, not, ◌&&◌, none, [], ◌∷◌, ◌==◌, if◌then◌else◌, Bytes, codes,
  length, starts_with,
}
use proof_forge_near.Py.Dict.{Dict, lookup}
use proof_forge_near.Py.Int.{pos}
use proof_forge_near.Rpc.Env.{Env, Client}
use proof_forge_near.Rpc.Wire.{encode_u64_le}
use proof_forge_near.Rpc.View.{view_u64}
use proof_forge_near.Suites.Play.{Suite, ◌>>=◌, ◌>>◌, step, compute, assert, each, is_some_eq}
use proof_forge_near.Suites.Matrix.{prepare}
use proof_forge_near.Suites.Scene.{
  is_some, index_key, call_is, call_word_is, view_is, view_word_is, failing_call, failing_call_with,
  state, state_is, word,
}

abbrev prefix : Bytes
prefix = codes "QUE1"

abbrev capacity : ℕ
capacity = 3

-- `_key`
unfoldable pub key : ℕ → Bytes
unfolding index_key
key = index_key 4 prefix

-- Whether `_queue_keys(state)` has a key.
unfoldable pub any_queue_key : Dict Bytes → Bool
unfolding starts_with
any_queue_key [] = false
any_queue_key ((k, v) ∷ rows) =
    if length k == 8 && starts_with prefix k then true else any_queue_key rows

module _ (E : Env) (c : Client) where
  -- `_expect_slot`
  unfoldable pub expect_slot : Dict Bytes → ℕ → ℕ → Suite E.World (Unit {0})
  unfolding key
  expect_slot rows index value = do
    expected ← compute (encode_u64_le (pos value))
    assert (is_some_eq (lookup (key index) rows) expected)

  pop_is : ℕ → Suite E.World (Unit {0})
  unfolding call_is
  pop_is expected = call_is E c (codes "pop") [] none expected

  empty_scene : Suite E.World (Unit {0})
  unfolding state view_is view_word_is failing_call state_is
  empty_scene = do
    initial ← state E c
    view_is E c (codes "get") [] 0
    view_is E c (codes "getHead") [] 0
    view_is E c (codes "peek") [] 0
    view_word_is E c (codes "hasAt") 0 0
    rejected ← failing_call E c (codes "pop") [] 0
    state_is E c initial

  fill_scene : Suite E.World (Unit {0})
  unfolding each call_word_is view_is view_word_is state expect_slot
  fill_scene = do
    each {A = ℕ × ℕ} (λ p. call_word_is E c (codes "push") p.0 p.1)
        ((0, 1) ∷ (11, 2) ∷ (22, 3) ∷ [])
    view_is E c (codes "get") [] capacity
    view_is E c (codes "getHead") [] 0
    each {A = ℕ × ℕ}
        (λ p. do view_word_is E c (codes "hasAt") p.0 1; view_word_is E c (codes "getAt") p.0 p.1)
        ((0, 0) ∷ (1, 11) ∷ (2, 22) ∷ [])
    rows ← state E c
    each {A = ℕ × ℕ} (λ p. expect_slot rows p.0 p.1) ((0, 0) ∷ (1, 11) ∷ (2, 22) ∷ [])
    view_is E c (codes "peek") [] 0
    view_word_is E c (codes "hasAt") 0 1

  capacity_scene : Suite E.World (Unit {0})
  unfolding state failing_call_with state_is view_word_is
  capacity_scene = do
    full ← state E c
    rejected ← failing_call_with E c (codes "push") 33 0
    state_is E c full
    view_word_is E c (codes "getAt") (2 ^ 32 + 1) 0
    view_word_is E c (codes "hasAt") (2 ^ 32 + 1) 0

  -- `client.view_u64("getAt", NearClient.encode_u64_le(i))`
  value_at : ℕ → Suite E.World ℕ
  unfolding word
  value_at i = do args ← word E c i; step (view_u64 E c (codes "getAt") args)

  wrap_scene : Suite E.World (Unit {0})
  unfolding pop_is state view_is call_word_is expect_slot value_at
  wrap_scene = do
    pop_is 2
    popped ← state E c
    assert (not (is_some (lookup (key 0) popped)))
    view_is E c (codes "getHead") [] 1
    view_is E c (codes "peek") [] 11
    call_word_is E c (codes "push") 33 3
    rows ← state E c
    expect_slot rows 0 33
    expect_slot rows 1 11
    expect_slot rows 2 22
    first ← value_at 0
    second ← value_at 1
    third ← value_at 2
    assert (first == 11 && (second == 22 && third == 33))

  -- A pop: the front before it, and the length, the head and the slot that is gone behind it.
  drain : ℕ × (ℕ × (ℕ × ℕ)) → Suite E.World (Unit {0})
  unfolding view_is pop_is state key
  drain (front, (remaining, (head, slot))) = do
    view_is E c (codes "peek") [] front
    pop_is remaining
    rows ← state E c
    assert (not (is_some (lookup (key slot) rows)))
    view_is E c (codes "getHead") [] head

  drain_scene : Suite E.World (Unit {0})
  unfolding each drain state view_is any_queue_key
  drain_scene = do
    each drain ((11, (2, (2, 1))) ∷ (22, (1, (0, 2))) ∷ (33, (0, (0, 0))) ∷ [])
    rows ← state E c
    view_is E c (codes "get") [] 0
    assert (not (any_queue_key rows))

  malformed_scene : Suite E.World (Unit {0})
  unfolding call_is state view_is view_word_is failing_call_with failing_call state_is any_queue_key
  malformed_scene = do
    call_is E c (codes "malform") [] none 99
    malformed ← state E c
    view_is E c (codes "get") [] 1
    view_is E c (codes "getHead") [] capacity
    view_is E c (codes "peek") [] 0
    view_word_is E c (codes "hasAt") 0 0
    pushed ← failing_call_with E c (codes "push") 44 0
    popped ← failing_call E c (codes "pop") [] 0
    state_is E c malformed
    assert (not (any_queue_key malformed))

  unfoldable pub main : Bytes → Suite E.World (Unit {0})
  unfolding prepare empty_scene fill_scene capacity_scene wrap_scene drain_scene malformed_scene
  main wasm = do
    prepare E c wasm 0
    empty_scene
    fill_scene
    capacity_scene
    wrap_scene
    drain_scene
    malformed_scene
