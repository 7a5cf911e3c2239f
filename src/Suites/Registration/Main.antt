-- ===== src/Suites/Registration/Main.antt =====
-- `main` of runtime-tests/near/storage_registration.py, in its scenes.
use proof_forge_near.Prelude.{
  ℕ, ◌+◌, ◌-◌, ◌*◌, ◌/◌, ◌%◌, ◌^◌, Bool, true, false, not, ◌&&◌, none, some, [], ◌∷◌, ◌++◌, ◌==◌,
  ltb, if◌then◌else◌, Text, Bytes, codes, length, replicate,
}
use proof_forge_near.Py.Result.{ok}
use proof_forge_near.Py.Int.{ℤ, pos, negsuc}
use proof_forge_near.Py.Value.{Value}
use proof_forge_near.Rpc.Env.{Env, Client}
use proof_forge_near.Rpc.Query.{view_account_balance}
use proof_forge_near.Rpc.Send.{create_subaccount_with_key}
use proof_forge_near.Suites.Play.{Suite, ◌>>=◌, ◌>>◌, step, compute, assert, each, pass}
use proof_forge_near.Suites.Token.{rows, rows_are, number_is, view_gives}
use proof_forge_near.Suites.Scene.{same_keys}
use proof_forge_near.Suites.Registration.{
  total_json, int_le, expect_storage_balance, expect_storage_balance_failure, expect_storage_bounds,
  result_u64, result_is, register, unregister, force_unregister, assert_exact_reclaim,
  assert_force_reclaim, begin_at, plain, unchanged_by, present_zero, unregistered, no_supply,
}
use proof_forge_near.Suites.Registration.Deposit.{deposit_scenes}
use proof_forge_near.Suites.Registration.Unregister.{unregister_scenes}
use proof_forge_near.Suites.Registration.Withdraw.{withdraw_scenes}
use proof_forge_near.Suites.Registration.Overflow.{overflow_scenes}

-- `before + n`
plus : ℤ → ℕ → ℤ
plus (pos a) n = pos (a + n)
plus (negsuc a) n = if ltb a n then pos (n - (a + 1)) else negsuc (a - n)

-- `low <= after - before < high`
unfoldable pub gained : ℤ → ℤ → ℕ → ℕ → Bool
unfolding plus int_le
gained before after low high =
    int_le (plus before low) after && not (int_le (plus before high) after)

abbrev contract : Text
contract = codes "reg.test.near"

abbrev short : Text
short = codes "a.test.near"

-- `"x" * (64 - len(".test.near")) + ".test.near"`
abbrev long : Text
long = replicate 54 b'x' ++ codes ".test.near"

abbrev malformed : Text
malformed = codes "bad.test.near"

abbrev nonzero : Text
nonzero = codes "one.test.near"

abbrev forced : Text
forced = codes "force.test.near"

abbrev per_byte : ℕ
per_byte = 10 ^ 19

abbrev generous : ℕ
generous = 10 ^ 24

module _ (E : Env) (c : Client) where
  -- The accounts are created with 10**27 each.
  unfoldable pub create_accounts : Suite E.World (Unit {0})
  unfolding each
  create_accounts =
      each
        (λ account. do
          created ← step (create_subaccount_with_key E c account (pos (10 ^ 27)))
          pass)
        (contract
          ∷ codes "deposit-reg.test.near"
          ∷ codes "unregister-reg.test.near"
          ∷ codes "withdraw-reg.test.near"
          ∷ codes "withdraw-overflow.test.near"
          ∷ short
          ∷ long
          ∷ malformed
          ∷ nonzero
          ∷ forced
          ∷ codes "overflow.test.near"
          ∷ (replicate 11 b'y' ++ codes ".test.near")
          ∷ codes "zero.test.near"
          ∷ codes "missing-withdraw.test.near"
          ∷ [])

  -- The three functions of scenes, each on a contract of its own.
  public_scenes : Bytes → Suite E.World (Unit {0})
  unfolding deposit_scenes unregister_scenes withdraw_scenes
  public_scenes wasm = do
    deposit_scenes E c (codes "deposit-reg.test.near") short long malformed per_byte wasm
    unregister_scenes E c (codes "unregister-reg.test.near") short long malformed per_byte wasm
    withdraw_scenes E c (codes "withdraw-reg.test.near") short long malformed
        (codes "withdraw-overflow.test.near") per_byte wasm

  bounds_scene : Suite E.World (Unit {0})
  unfolding rows rows_are each expect_storage_bounds expect_storage_balance register
  bounds_scene = do
    baseline ← rows E c (some contract)
    each (λ wire. expect_storage_bounds E c contract per_byte wire)
        ([] ∷ codes "{}" ∷ codes "not-json" ∷ replicate 4096 0xff ∷ [])
    expect_storage_balance E c contract short none
    unpaid ← register E c false contract short 0
    rows_are E c (some contract) baseline
    underpaid ← register E c false contract short 1
    rows_are E c (some contract) baseline

  -- The first registration of `short`; the delta that it measured.
  short_scene : Suite E.World ℕ
  unfolding register result_u64 gained number_is present_zero expect_storage_balance rows rows_are
      view_gives total_json
  short_scene = do
    before ← step (view_account_balance E c contract)
    outcome ← register E c true contract short generous
    delta ← result_u64 E c outcome
    after ← step (view_account_balance E c contract)
    assert (ltb 0 delta && gained before after (delta * per_byte) generous)
    number_is E c contract (codes "lastCostW0") (delta * per_byte % 2 ^ 64)
    number_is E c contract (codes "lastCostW1") (delta * per_byte / 2 ^ 64)
    present_zero E c contract short
    expect_storage_balance E c contract short (some (delta * per_byte))
    state ← rows E c (some contract)
    view_gives E c contract (codes "storage_balance_of")
        (codes "{\"account_id\":\"\\u0061.test.near\"}") (total_json (some (delta * per_byte)))
    rows_are E c (some contract) state
    compute (ok delta)

  duplicate_scene : ℕ → Suite E.World (Unit {0})
  unfolding register result_is int_le plus
  duplicate_scene short_delta = do
    before ← step (view_account_balance E c contract)
    duplicate ← register E c true contract short (10 ^ 22)
    result_is E c duplicate short_delta
    after ← step (view_account_balance E c contract)
    assert (not (int_le (plus before (10 ^ 22)) after))
    unpaid ← register E c true contract short 0
    pass

  -- The registration of `long`, whose delta is as much larger as its name is longer.
  long_scene : ℕ → Suite E.World ℕ
  unfolding register result_u64 gained present_zero expect_storage_balance
  long_scene short_delta = do
    before ← step (view_account_balance E c contract)
    outcome ← register E c true contract long generous
    delta ← result_u64 E c outcome
    after ← step (view_account_balance E c contract)
    assert (gained before after (delta * per_byte) generous)
    assert (delta + length short == short_delta + length long)
    present_zero E c contract long
    expect_storage_balance E c contract long (some (delta * per_byte))
    compute (ok delta)

  -- A call answers `0` and leaves the set of the state's keys as it was.
  missing_call : Suite E.World Value → Suite E.World (Unit {0})
  unfolding rows result_is same_keys
  missing_call m = do
    before ← rows E c (some contract)
    outcome ← m
    result_is E c outcome 0
    after ← rows E c (some contract)
    assert (same_keys after before)

  reclaim_scene : ℕ → ℕ → Suite E.World (Unit {0})
  unfolding each unchanged_by unregister assert_exact_reclaim expect_storage_bounds
      expect_storage_balance rows result_is unregistered same_keys
  reclaim_scene short_delta long_delta = do
    each
        (λ caller.
          each (λ deposit. unchanged_by E c contract (unregister E c false contract caller deposit))
            (0 ∷ 2 ∷ []))
        (short ∷ long ∷ [])
    assert_exact_reclaim E c contract long long_delta per_byte
    assert_exact_reclaim E c contract short short_delta per_byte
    expect_storage_bounds E c contract per_byte []
    expect_storage_balance E c contract short none
    before ← rows E c (some contract)
    outcome ← unregister E c true contract short 1
    result_is E c outcome 0
    unregistered E c contract short
    after ← rows E c (some contract)
    assert (same_keys after before)

  -- A registration of `forced`; the delta that it measured.
  forced_delta : Suite E.World ℕ
  unfolding register result_u64
  forced_delta = do outcome ← register E c true contract forced generous; result_u64 E c outcome

  force_scene : Suite E.World (Unit {0})
  unfolding rows rows_are each force_unregister forced_delta plain unchanged_by assert_force_reclaim
      no_supply missing_call
  force_scene = do
    guard ← rows E c (some contract)
    each
        (λ deposit. do
          rejected ← force_unregister E c false contract forced 1 deposit
          rows_are E c (some contract) guard)
        (0 ∷ 2 ∷ [])
    no_flag ← force_unregister E c false contract forced 2 1
    rows_are E c (some contract) guard
    mixed ← forced_delta
    plain E c contract (codes "fixtureSeedCallerMixedSupply") forced
    unchanged_by E c contract (force_unregister E c false contract forced 0 1)
    assert_force_reclaim E c contract forced mixed per_byte
    no_supply E c contract
    largest ← forced_delta
    plain E c contract (codes "fixtureSeedCallerMaxSupply") forced
    assert_force_reclaim E c contract forced largest per_byte
    no_supply E c contract
    none_left ← forced_delta
    assert_force_reclaim E c contract forced none_left per_byte
    no_supply E c contract
    missing_call (force_unregister E c true contract forced 1 1)

  refused_scene : Suite E.World (Unit {0})
  unfolding plain unchanged_by force_unregister rows rows_are expect_storage_balance_failure
      unregister
  refused_scene = do
    plain E c contract (codes "seedCallerOne") forced
    unchanged_by E c contract (force_unregister E c false contract forced 1 1)
    plain E c contract (codes "seedCallerMalformed8") malformed
    before ← rows E c (some contract)
    expect_storage_balance_failure E c contract malformed
    rejected ← force_unregister E c false contract malformed 1 1
    rows_are E c (some contract) before
    plain E c contract (codes "seedCallerOne") nonzero
    unchanged_by E c contract (unregister E c false contract nonzero 1)

  -- The whole of the suite.
  unfoldable pub registration_suite : Bytes → Suite E.World (Unit {0})
  unfolding create_accounts begin_at public_scenes bounds_scene short_scene duplicate_scene
      long_scene reclaim_scene force_scene refused_scene overflow_scenes
  registration_suite wasm = do
    create_accounts
    begin_at E c contract wasm per_byte
    public_scenes wasm
    bounds_scene
    short_delta ← short_scene
    duplicate_scene short_delta
    long_delta ← long_scene short_delta
    reclaim_scene short_delta long_delta
    force_scene
    refused_scene
    overflow_scenes E c short malformed wasm
