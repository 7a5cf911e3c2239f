-- ===== src/Suites/Registration/Overflow.antt =====
-- The last scenes of `main` of runtime-tests/near/storage_registration.py: costs that overflow, and a
-- cost of zero.
use proof_forge_near.Prelude.{
  ◌-◌, ◌^◌, Bool, true, false, not, some, [], ◌++◌, Text, Bytes, codes, replicate,
}
use proof_forge_near.Py.Dict.{Dict, lookup}
use proof_forge_near.Rpc.Env.{Env, Client}
use proof_forge_near.Suites.Play.{Suite, ◌>>=◌, ◌>>◌, compute, assert}
use proof_forge_near.Suites.Scene.{is_some}
use proof_forge_near.Suites.Token.{rows, rows_are}
use proof_forge_near.Suites.Registration.{
  registration_key, deposit_args, expect_storage_balance_failure, expect_storage_bounds_failure,
  storage_deposit, register, force_unregister, storage_unregister, begin_at, plain,
}

-- `"y" * 11 + ".test.near"`
abbrev add_overflow : Text
add_overflow = replicate 11 b'y' ++ codes ".test.near"

module _ (E : Env) (c : Client) (short malformed : Text) where
  -- A failing deposit for `malformed` that leaves the state of `contract` as it was before.
  deposit_fails : Text → Bool → Dict Bytes → Suite E.World (Unit {0})
  unfolding deposit_args storage_deposit rows_are
  deposit_fails contract registration_only before = do
    args ← compute (deposit_args (some malformed) (some registration_only))
    rejected ← storage_deposit E c false contract short args 0
    rows_are E c (some contract) before

  multiply_scene : Bytes → Suite E.World (Unit {0})
  unfolding begin_at plain rows rows_are expect_storage_bounds_failure
      expect_storage_balance_failure deposit_fails registration_key force_unregister
  multiply_scene wasm = do
    let overflow = codes "overflow.test.near"
    begin_at E c overflow wasm (2 ^ 64 - 1)
    plain E c overflow (codes "fixtureSetCostMax") overflow
    plain E c overflow (codes "seedCallerZero") short
    before ← rows E c (some overflow)
    expect_storage_bounds_failure E c overflow []
    expect_storage_balance_failure E c overflow short
    deposit_fails overflow true before
    no_key ← compute (registration_key malformed)
    assert (not (is_some (lookup no_key before)))
    rejected ← force_unregister E c false overflow short 1 1
    rows_are E c (some overflow) before
    key ← compute (registration_key short)
    assert (is_some (lookup key before))

  addition_scene : Bytes → Suite E.World (Unit {0})
  unfolding begin_at plain rows rows_are force_unregister storage_unregister
  addition_scene wasm = do
    begin_at E c add_overflow wasm 1
    plain E c add_overflow (codes "fixtureSetCostAddOverflow") add_overflow
    plain E c add_overflow (codes "seedCallerZero") add_overflow
    before ← rows E c (some add_overflow)
    forced ← force_unregister E c false add_overflow add_overflow 1 1
    rows_are E c (some add_overflow) before
    rejected ← storage_unregister E c false add_overflow add_overflow (codes "{\"force\":true}") 1
    rows_are E c (some add_overflow) before

  zero_cost_scene : Bytes → Suite E.World (Unit {0})
  unfolding begin_at rows rows_are expect_storage_bounds_failure deposit_fails register
  zero_cost_scene wasm = do
    let zero_cost = codes "zero.test.near"
    begin_at E c zero_cost wasm 0
    before ← rows E c (some zero_cost)
    expect_storage_bounds_failure E c zero_cost []
    deposit_fails zero_cost false before
    rejected ← register E c false zero_cost short 0
    rows_are E c (some zero_cost) before

  unfoldable pub overflow_scenes : Bytes → Suite E.World (Unit {0})
  unfolding multiply_scene addition_scene zero_cost_scene
  overflow_scenes wasm = do multiply_scene wasm; addition_scene wasm; zero_cost_scene wasm
