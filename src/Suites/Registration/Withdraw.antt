-- ===== src/Suites/Registration/Withdraw.antt =====
-- `_run_storage_withdraw_scenes` of runtime-tests/near/storage_registration.py.
use proof_forge_near.Prelude.{
  ℕ, ◌+◌, ◌*◌, ◌^◌, Bool, true, false, not, some, [], ◌∷◌, Text, Bytes, codes, length,
}
use proof_forge_near.Py.Int.{ℤ}
use proof_forge_near.Rpc.Env.{Env, Client}
use proof_forge_near.Rpc.Query.{view_account_balance}
use proof_forge_near.Suites.Play.{Suite, ◌>>=◌, ◌>>◌, step, assert, each}
use proof_forge_near.Suites.Receipts.{assert_no_transfer}
use proof_forge_near.Suites.Token.{rows, rows_are}
use proof_forge_near.Suites.Registration.{
  int_le, expect_deposit_result, all_logs_are, register, storage_withdraw, begin_at, plain,
  unchanged_by, supply_words, supply_words_are,
}

-- `after < before + 1` fails.
one_more : ℤ → ℤ → Bool
unfolding int_le
one_more before after = not (int_le after before)

module _ (E : Env) (c : Client) (contract caller long malformed overflow : Text)
    (per_byte : ℕ) where
  -- A withdrawal of nothing: its result, and what it leaves as it was.
  withdraws_nothing : Text → Bytes → Suite E.World (Unit {0})
  unfolding rows rows_are supply_words supply_words_are storage_withdraw expect_deposit_result
      all_logs_are assert_no_transfer one_more
  withdraws_nothing account wire = do
    before_state ← rows E c (some contract)
    before_supply ← supply_words E c contract
    before_balance ← step (view_account_balance E c contract)
    outcome ← storage_withdraw E c true contract account wire 1
    expect_deposit_result E c outcome ((length account + 64) * per_byte)
    all_logs_are E c outcome []
    assert_no_transfer E c outcome
    rows_are E c (some contract) before_state
    supply_words_are E c contract before_supply
    after_balance ← step (view_account_balance E c contract)
    assert (one_more before_balance after_balance)

  registered_withdraws : Text → Suite E.World (Unit {0})
  unfolding register each withdraws_nothing
  registered_withdraws account = do
    registered ← register E c true contract account (10 ^ 24)
    each (withdraws_nothing account)
        (codes "{}" ∷ codes "{\"amount\":null}" ∷ codes "{\"amount\":\"0\"}" ∷ [])

  refusals : Suite E.World (Unit {0})
  unfolding each unchanged_by storage_withdraw plain
  refusals = do
    each
        (λ deposit.
          unchanged_by E c contract
            (storage_withdraw E c false contract caller (codes "{}") deposit))
        (0 ∷ 2 ∷ [])
    each (λ wire. unchanged_by E c contract (storage_withdraw E c false contract caller wire 1))
        (codes "{\"amount\":\"1\"}"
          ∷ codes "{\"amount\":\"18446744073709551616\"}"
          ∷ codes "{\"amount\":\"340282366920938463463374607431768211455\"}"
          ∷ [])
    unchanged_by E c contract
        (storage_withdraw E c false contract (codes "missing-withdraw.test.near") (codes "{}") 1)
    plain E c contract (codes "seedCallerMalformed8") malformed
    unchanged_by E c contract
        (storage_withdraw E c false contract malformed (codes "{\"amount\":null}") 1)

  overflow_scene : Bytes → Suite E.World (Unit {0})
  unfolding begin_at plain unchanged_by storage_withdraw
  overflow_scene wasm = do
    begin_at E c overflow wasm 1
    plain E c overflow (codes "seedCallerZero") caller
    plain E c overflow (codes "fixtureSetCostMax") overflow
    unchanged_by E c overflow
        (storage_withdraw E c false overflow caller (codes "{\"amount\":\"0\"}") 1)

  -- The whole of the function.
  unfoldable pub withdraw_scenes : Bytes → Suite E.World (Unit {0})
  unfolding begin_at each registered_withdraws refusals overflow_scene
  withdraw_scenes wasm = do
    begin_at E c contract wasm per_byte
    each registered_withdraws (caller ∷ long ∷ [])
    refusals
    overflow_scene wasm
