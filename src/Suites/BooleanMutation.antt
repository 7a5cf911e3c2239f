-- ===== src/Suites/BooleanMutation.antt =====
-- runtime-tests/near/json_boolean_mutation.py: a Boolean result, and the state behind a call whose
-- result is refused.
use proof_forge_near.Prelude.{ℕ, true, ◌&&◌, [], ◌==◌, Bytes, codes}
use proof_forge_near.Py.Result.{ok}
use proof_forge_near.Py.Int.{pos}
use proof_forge_near.Rpc.Env.{Env, Client}
use proof_forge_near.Rpc.View.{view_u64, success_value_bytes}
use proof_forge_near.Rpc.Send.{deploy, call}
use proof_forge_near.Suites.Play.{Suite, ◌>>=◌, ◌>>◌, step, compute, assert, refused, is_some_eq}
use proof_forge_near.Suites.Matrix.{default_gas}
use proof_forge_near.Suites.Scene.{word, call_with, view_is}

module _ (E : Env) (c : Client) where
  -- `_call`
  unfoldable pub checked_call : ℕ → Bytes → Suite E.World (Unit {0})
  unfolding call_with
  checked_call value expected = do
    result ← call_with E c (codes "setChecked") value
    got ← compute (success_value_bytes E.b64decode result)
    assert (is_some_eq got expected)

  -- Both fields of the state.
  unfoldable pub fields : Suite E.World (ℕ × ℕ)
  fields = do
    left ← step (view_u64 E c (codes "left") [])
    right ← step (view_u64 E c (codes "right") [])
    compute (ok (left, right))

  -- A call that is refused behind its writes.
  unfoldable pub rolled_back : ℕ → Suite E.World (Unit {0})
  unfolding fields word refused
  rolled_back value = do
    before ← fields
    args ← word E c value
    refused (call E c (codes "setChecked") args true default_gas (pos 0))
    after ← fields
    assert ((after.0 == before.0) && (after.1 == before.1))

  -- The suite, after its environment variables are read.
  unfoldable pub main : Bytes → Suite E.World (Unit {0})
  unfolding checked_call view_is rolled_back
  main code = do
    deployed ← step (deploy E c code)
    initialized ← step (call E c (codes "initialize") [] true default_gas (pos 0))
    checked_call 0 (codes "false")
    view_is E c (codes "left") [] 11
    view_is E c (codes "right") [] 22
    checked_call 1 (codes "true")
    view_is E c (codes "left") [] 11
    view_is E c (codes "right") [] 22
    rolled_back 2
    checked_call 0 (codes "false")
    checked_call 1 (codes "true")
