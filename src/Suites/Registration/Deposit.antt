-- ===== src/Suites/Registration/Deposit.antt =====
-- `_run_storage_deposit_scenes` of runtime-tests/near/storage_registration.py,
-- for a cost of each byte that is not zero.
use proof_forge_near.Prelude.{
  ℕ, ◌+◌, ◌-◌, ◌*◌, ◌/◌, ◌%◌, ◌^◌, true, false, none, some, Text, Bytes, codes, length,
}
use proof_forge_near.Py.Int.{pos}
use proof_forge_near.Rpc.Env.{Env, Client}
use proof_forge_near.Suites.Play.{Suite, ◌>>=◌, ◌>>◌, compute}
use proof_forge_near.Suites.Receipts.{assert_paid_receipt}
use proof_forge_near.Suites.Token.{rows, rows_are, number_is}
use proof_forge_near.Suites.Registration.{
  deposit_args, expect_storage_balance, expect_deposit_result, storage_deposit, begin_at, plain,
  present_zero,
}

module _ (E : Env) (c : Client) (contract caller target malformed : Text) (per_byte : ℕ) where
  -- `(len(account) + 64) * per_byte`
  abbrev cost_of : Text → ℕ
  cost_of account = (length account + 64) * per_byte

  first_deposits : Suite E.World (Unit {0})
  unfolding rows rows_are deposit_args storage_deposit expect_deposit_result present_zero number_is
      expect_storage_balance
  first_deposits = do
    baseline ← rows E c (some contract)
    short_args ← compute (deposit_args (some caller) (some true))
    short ← storage_deposit E c false contract caller short_args (cost_of caller - 1)
    rows_are E c (some contract) baseline
    default ← storage_deposit E c true contract caller (codes "{}") (cost_of caller)
    expect_deposit_result E c default (cost_of caller)
    present_zero E c contract caller
    number_is E c contract (codes "lastDelta") (length caller + 64)
    number_is E c contract (codes "lastCostW0") (cost_of caller % 2 ^ 64)
    number_is E c contract (codes "lastCostW1") (cost_of caller / 2 ^ 64)
    number_is E c contract (codes "get") (length caller + 64)
    expect_storage_balance E c contract caller (some (cost_of caller))

  refunded_deposits : Suite E.World (Unit {0})
  unfolding deposit_args storage_deposit expect_deposit_result assert_paid_receipt present_zero
      expect_storage_balance
  refunded_deposits = do
    duplicate ←
        storage_deposit E c true contract caller
          (codes "{\"account_id\":null,\"registration_only\":false}") (10 ^ 22)
    expect_deposit_result E c duplicate (cost_of caller)
    assert_paid_receipt E c duplicate caller (pos (10 ^ 22))
    args ← compute (deposit_args (some target) (some true))
    explicit ← storage_deposit E c true contract caller args (cost_of target + 10 ^ 22)
    expect_deposit_result E c explicit (cost_of target)
    assert_paid_receipt E c explicit caller (pos (10 ^ 22))
    present_zero E c contract target
    expect_storage_balance E c contract target (some (cost_of target))

  malformed_target : Suite E.World (Unit {0})
  unfolding plain rows rows_are deposit_args storage_deposit
  malformed_target = do
    plain E c contract (codes "seedCallerMalformed8") malformed
    before ← rows E c (some contract)
    args ← compute (deposit_args (some malformed) none)
    rejected ← storage_deposit E c false contract caller args (10 ^ 24)
    rows_are E c (some contract) before

  -- The whole of the function.
  unfoldable pub deposit_scenes : Bytes → Suite E.World (Unit {0})
  unfolding begin_at first_deposits refunded_deposits malformed_target
  deposit_scenes wasm = do
    begin_at E c contract wasm per_byte
    first_deposits
    refunded_deposits
    malformed_target
