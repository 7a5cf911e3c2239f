-- ===== src/Suites/Registration/Unregister.antt =====
-- `_run_public_storage_unregister_scenes` of runtime-tests/near/storage_registration.py.
use proof_forge_near.Prelude.{
  ℕ, ◌+◌, ◌*◌, ◌^◌, true, false, some, [], ◌∷◌, ◌++◌, Text, Bytes, codes,
}
use proof_forge_near.Py.Int.{pos}
use proof_forge_near.Rpc.Env.{Env, Client}
use proof_forge_near.Suites.Play.{Suite, ◌>>=◌, ◌>>◌, each}
use proof_forge_near.Suites.Receipts.{assert_paid_receipt}
use proof_forge_near.Suites.Token.{rows, rows_are}
use proof_forge_near.Suites.Registration.{
  result_u64, assert_json_boolean, all_logs_are, register, storage_unregister, begin_at, plain,
  unchanged_by, unregistered, supply_words, supply_words_are, no_supply,
}

-- The line that a contract logs of an account that is not registered.
unfoldable pub missing_line : Text → Text
missing_line account = codes "The account " ++ (account ++ codes " is not registered")

module _ (E : Env) (c : Client) (contract caller max_caller malformed : Text) (per_byte : ℕ) where
  -- A call of `storage_unregister` that answers `false` and logs that the account is missing.
  answers_missing : Text → Bytes → Suite E.World (Unit {0})
  unfolding storage_unregister assert_json_boolean all_logs_are missing_line
  answers_missing account wire = do
    missing ← storage_unregister E c true contract account wire 1
    assert_json_boolean E c missing false
    all_logs_are E c missing (missing_line account ∷ [])

  -- A call that must fail with a deposit that is not one yocto.
  wrong_deposit : ℕ → Suite E.World (Unit {0})
  unfolding rows rows_are storage_unregister all_logs_are
  wrong_deposit deposit = do
    before ← rows E c (some contract)
    rejected ← storage_unregister E c false contract caller (codes "{\"force\":true}") deposit
    all_logs_are E c rejected []
    rows_are E c (some contract) before

  missing_scene : Suite E.World (Unit {0})
  unfolding answers_missing unregistered wrong_deposit each
  missing_scene = do
    answers_missing caller (codes "{}")
    unregistered E c contract caller
    answers_missing caller (codes "{\"force\":true}")
    unregistered E c contract caller
    answers_missing max_caller (codes "{\"force\":false}")
    each wrong_deposit (0 ∷ 2 ∷ [])

  -- `_result_u64(_register(client, contract, caller, 10**24))`
  fresh_delta : Suite E.World ℕ
  unfolding register result_u64
  fresh_delta = do outcome ← register E c true contract caller (10 ^ 24); result_u64 E c outcome

  zero_scene : Suite E.World (Unit {0})
  unfolding fresh_delta supply_words supply_words_are storage_unregister assert_json_boolean
      all_logs_are assert_paid_receipt unregistered
  zero_scene = do
    delta ← fresh_delta
    words ← supply_words E c contract
    zero_ ← storage_unregister E c true contract caller (codes "{\"force\":false}") 1
    assert_json_boolean E c zero_ true
    all_logs_are E c zero_ []
    assert_paid_receipt E c zero_ caller (pos (delta * per_byte + 1))
    unregistered E c contract caller
    supply_words_are E c contract words
    forced_delta ← fresh_delta
    forced ← storage_unregister E c true contract caller (codes "{\"force\":true}") 1
    assert_json_boolean E c forced true
    assert_paid_receipt E c forced caller (pos (forced_delta * per_byte + 1))
    all_logs_are E c forced []
    unregistered E c contract caller

  forced_scene : Suite E.World (Unit {0})
  unfolding fresh_delta plain unchanged_by storage_unregister assert_json_boolean all_logs_are
      assert_paid_receipt unregistered no_supply
  forced_scene = do
    delta ← fresh_delta
    plain E c contract (codes "fixtureSeedCallerMixedSupply") caller
    unchanged_by E c contract
        (storage_unregister E c false contract caller (codes "{\"force\":null}") 1)
    forced ← storage_unregister E c true contract caller (codes "{\"force\":true}") 1
    assert_json_boolean E c forced true
    all_logs_are E c forced []
    assert_paid_receipt E c forced caller (pos (delta * per_byte + 1))
    unregistered E c contract caller
    no_supply E c contract

  refusals_scene : Suite E.World (Unit {0})
  unfolding unchanged_by storage_unregister answers_missing plain
  refusals_scene = do
    unchanged_by E c contract
        (storage_unregister E c false contract caller (codes "{\"force\":true,\"unknown\":null}") 1)
    answers_missing caller (codes "{\"force\":null}")
    plain E c contract (codes "seedCallerOne") caller
    unchanged_by E c contract
        (storage_unregister E c false contract caller (codes "{\"force\":true}") 1)
    plain E c contract (codes "fixtureRemoveCaller") caller
    plain E c contract (codes "seedCallerMalformed8") malformed
    unchanged_by E c contract
        (storage_unregister E c false contract malformed (codes "{\"force\":true}") 1)
    plain E c contract (codes "fixtureSetCostMax") contract
    plain E c contract (codes "seedCallerZero") caller
    unchanged_by E c contract
        (storage_unregister E c false contract caller (codes "{\"force\":true}") 1)

  -- The whole of the function.
  unfoldable pub unregister_scenes : Bytes → Suite E.World (Unit {0})
  unfolding begin_at missing_scene zero_scene forced_scene refusals_scene
  unregister_scenes wasm = do
    begin_at E c contract wasm per_byte
    missing_scene
    zero_scene
    forced_scene
    refusals_scene
