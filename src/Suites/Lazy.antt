-- ===== src/Suites/Lazy.antt =====
-- runtime-tests/near/lazy.py: cells that are written when they are first asked for.
use proof_forge_near.Prelude.{
  ℕ, ◌^◌, true, Option, none, some, [], ◌∷◌, ◌==◌, Text, Bytes, codes, replicate,
}
use proof_forge_near.Py.Int.{pos}
use proof_forge_near.Py.Value.{Value}
use proof_forge_near.Rpc.Env.{Env, Client}
use proof_forge_near.Rpc.Wire.{decode_u64_le}
use proof_forge_near.Rpc.View.{view_u64_on, success_value_bytes}
use proof_forge_near.Rpc.Send.{call, call_on, deploy_to, create_subaccount_with_key}
use proof_forge_near.Suites.Play.{Suite, ◌>>=◌, ◌>>◌, step, compute, assert}
use proof_forge_near.Suites.Matrix.{prepare, default_gas}
use proof_forge_near.Suites.Scene.{view_is, call_with, word}

abbrev fresh : Text
fresh = codes "lazy-fresh.test.near"

-- `NearClient.success_value_bytes(got) or b"\x00" * 8`
unfoldable pub or_zeros : Option Bytes → Bytes
or_zeros none = replicate 8 0
or_zeros (some []) = replicate 8 0
or_zeros (some (b ∷ bs)) = b ∷ bs

module _ (E : Env) (c : Client) where
  -- The number that a call returned, or zero.
  returned_is : Value → ℕ → Suite E.World (Unit {0})
  unfolding or_zeros
  returned_is got expected = do
    found ← compute (success_value_bytes E.b64decode got)
    used ← compute (decode_u64_le (or_zeros found) 0)
    assert (used == expected)

  lazy_scene : Suite E.World (Unit {0})
  unfolding view_is call_with
  lazy_scene = do
    view_is E c (codes "get") [] 7
    view_is E c (codes "lazyGet") [] 0
    set ← call_with E c (codes "lazySet") 41
    view_is E c (codes "lazyGet") [] 41
    kept ← call_with E c (codes "lazyGetOrSet") 99
    view_is E c (codes "lazyGet") [] 41

  fresh_scene : Bytes → Suite E.World (Unit {0})
  unfolding word returned_is
  fresh_scene wasm = do
    created ← step (create_subaccount_with_key E c fresh (pos (10 ^ 25)))
    deployed ← step (deploy_to E c fresh wasm)
    start ← word E c 0
    initialized ← step (call_on E c fresh (codes "initialize") start true default_gas (pos 0) none)
    seed ← word E c 33
    got ← step (call_on E c fresh (codes "lazyGetOrSet") seed true default_gas (pos 0) none)
    returned_is got 33
    now ← step (view_u64_on E c fresh (codes "lazyGet") [])
    assert (now == 33)

  option_scene : Suite E.World (Unit {0})
  unfolding view_is call_with returned_is
  option_scene = do
    view_is E c (codes "optIsSome") [] 0
    view_is E c (codes "optGet") [] 0
    set ← call_with E c (codes "optSet") 0x123456789ABCDEF0
    view_is E c (codes "optIsSome") [] 1
    view_is E c (codes "optGet") [] 0x123456789ABCDEF0
    got ← step (call E c (codes "optTake") [] true default_gas (pos 0))
    returned_is got 0x123456789ABCDEF0
    view_is E c (codes "optIsSome") [] 0

  unfoldable pub main : Bytes → Suite E.World (Unit {0})
  unfolding prepare lazy_scene fresh_scene option_scene
  main wasm = do prepare E c wasm 7; lazy_scene; fresh_scene wasm; option_scene
