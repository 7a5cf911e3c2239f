-- ===== src/Suites/Registration.antt =====
-- The helpers of runtime-tests/near/storage_registration.py: registration calls, and what the suite
-- asks of a contract's balances, bounds and refunds.
pub mod Reclaim
pub mod Deposit
pub mod Unregister
pub mod Withdraw
pub mod Overflow
pub mod Main
use proof_forge_near.Prelude.{
  ℕ, zero, ◌+◌, ◌-◌, ◌*◌, ◌^◌, Bool, true, false, not, ◌&&◌, Option, none, some, List, [], ◌∷◌,
  ◌++◌, ◌==◌, ltb, leb, if◌then◌else◌, Text, Bytes, codes, length, replicate,
}
use proof_forge_near.Py.Result.{Result, ok, err, ◌>>=◌ as ◌then◌}
use proof_forge_near.Py.Int.{ℤ, pos, negsuc}
use proof_forge_near.Py.Dict.{Dict, lookup}
use proof_forge_near.Py.Json.{Json, bool, string, object, Members, no_more, member}
use proof_forge_near.Py.Value.{Value, Items, nil}
use proof_forge_near.Rpc.Exc.{Exc, struct_error}
use proof_forge_near.Rpc.Env.{Env, Client}
use proof_forge_near.Rpc.Wire.{encode_u64_le, decode_u64_le}
use proof_forge_near.Rpc.Query.{view_account_balance}
use proof_forge_near.Rpc.Send.{deploy_to}
use proof_forge_near.Rpc.View.{view_on, view_u64_on, success_value_bytes}
use proof_forge_near.Suites.Play.{
  assertion_error, Suite, ◌>>=◌, ◌>>◌, step, compute, assert, refused, each, pass, is_some_eq,
}
use proof_forge_near.Suites.Scene.{is_some}
use proof_forge_near.Suites.Receipts.{outcome_logs, same_logs, assert_paid_receipt}
use proof_forge_near.Suites.Token.{
  shown, json_bytes, balance_key, storage_json, send, rows, rows_are, no_row_at, returns,
  view_gives, number_is,
}

-- `_key`
unfoldable pub registration_key : Text → Result Exc Bytes
unfolding balance_key
registration_key account = balance_key struct_error account

account_member : Option Text → Members → Members
account_member none rest = rest
account_member (some account) rest = member (codes "account_id") (string account) rest

only_member : Option Bool → Members
only_member none = no_more
only_member (some b) = member (codes "registration_only") (bool b) no_more

-- `_balance_args`
unfoldable pub balance_args : Text → Result Exc Bytes
unfolding json_bytes
balance_args account =
    json_bytes true (object (member (codes "account_id") (string account) no_more))

-- `_deposit_args`
unfoldable pub deposit_args : Option Text → Option Bool → Result Exc Bytes
unfolding json_bytes account_member only_member
deposit_args account registration_only =
    json_bytes true (object (account_member account (only_member registration_only)))

-- The bytes that `storage_balance_of` returns for a total.
unfoldable pub total_json : Option ℕ → Bytes
unfolding storage_json
total_json none = codes "null"
total_json (some total) = storage_json (pos total)

-- The bytes that `storage_balance_bounds` returns for a cost of each byte.
unfoldable pub bounds_json : ℕ → Bytes
unfolding shown
bounds_json per_byte =
    codes "{\"min\":\""
    ++ (shown (pos (66 * per_byte))
        ++ (codes "\",\"max\":\"" ++ (shown (pos (128 * per_byte)) ++ codes "\"}")))

-- `raw is None or len(raw) != 8`
unfoldable pub exactly_eight : {W : Type 0} → Option Bytes → Suite W Bytes
exactly_eight none w = (err assertion_error, w)
exactly_eight (some raw) w = if length raw == 8 then (ok raw, w) else (err assertion_error, w)

-- `a <= b` of integers.
unfoldable pub int_le : ℤ → ℤ → Bool
int_le (pos a) (pos b) = leb a b
int_le (pos a) (negsuc b) = false
int_le (negsuc a) (pos b) = true
int_le (negsuc a) (negsuc b) = leb b a

module _ (E : Env) (c : Client) where
  -- `_expect_storage_balance`
  unfoldable pub expect_storage_balance : Text → Text → Option ℕ → Suite E.World (Unit {0})
  unfolding rows rows_are balance_args total_json view_gives
  expect_storage_balance contract account total = do
    before ← rows E c (some contract)
    args ← compute (balance_args account)
    view_gives E c contract (codes "storage_balance_of") args (total_json total)
    rows_are E c (some contract) before

  -- `_expect_storage_balance_failure`
  unfoldable pub expect_storage_balance_failure : Text → Text → Suite E.World (Unit {0})
  unfolding rows rows_are balance_args refused
  expect_storage_balance_failure contract account = do
    before ← rows E c (some contract)
    args ← compute (balance_args account)
    refused (view_on E c contract (codes "storage_balance_of") args)
    rows_are E c (some contract) before

  -- `_expect_storage_bounds`
  unfoldable pub expect_storage_bounds : Text → ℕ → Bytes → Suite E.World (Unit {0})
  unfolding rows rows_are bounds_json view_gives
  expect_storage_bounds contract per_byte wire = do
    before ← rows E c (some contract)
    view_gives E c contract (codes "storage_balance_bounds") wire (bounds_json per_byte)
    rows_are E c (some contract) before

  -- `_expect_storage_bounds_failure`
  unfoldable pub expect_storage_bounds_failure : Text → Bytes → Suite E.World (Unit {0})
  unfolding rows rows_are refused
  expect_storage_bounds_failure contract wire = do
    before ← rows E c (some contract)
    refused (view_on E c contract (codes "storage_balance_bounds") wire)
    rows_are E c (some contract) before

  -- `_result_u64`
  unfoldable pub result_u64 : Value → Suite E.World ℕ
  unfolding exactly_eight
  result_u64 outcome = do
    found ← compute (success_value_bytes E.b64decode outcome)
    raw ← exactly_eight found
    compute (decode_u64_le raw 0)

  -- `if _result_u64(outcome) != expected: raise AssertionError(...)`
  unfoldable pub result_is : Value → ℕ → Suite E.World (Unit {0})
  unfolding result_u64
  result_is outcome expected = do got ← result_u64 outcome; assert (got == expected)

  -- `_expect_deposit_result`
  unfoldable pub expect_deposit_result : Value → ℕ → Suite E.World (Unit {0})
  unfolding returns storage_json
  expect_deposit_result outcome total = returns E c outcome (storage_json (pos total))

  -- `_assert_json_boolean`
  unfoldable pub assert_json_boolean : Value → Bool → Suite E.World (Unit {0})
  unfolding returns
  assert_json_boolean outcome expected =
      returns E c outcome (if expected then codes "true" else codes "false")

  -- `if _outcome_logs(outcome) != lines: raise AssertionError(...)`
  unfoldable pub all_logs_are : Value → List Text → Suite E.World (Unit {0})
  unfolding outcome_logs same_logs
  all_logs_are outcome lines = do
    logs ← compute (outcome_logs outcome)
    assert (same_logs logs lines)

  -- `_storage_deposit`
  unfoldable pub storage_deposit : Bool → Text → Text → Bytes → ℕ → Suite E.World Value
  unfolding send
  storage_deposit success contract caller wire deposit =
      send E c success contract (codes "storage_deposit") wire (some caller) deposit

  -- `_register`
  unfoldable pub register : Bool → Text → Text → ℕ → Suite E.World Value
  unfolding send
  register success contract caller deposit =
      send E c success contract (codes "registerCaller") [] (some caller) deposit

  -- `_unregister`
  unfoldable pub unregister : Bool → Text → Text → ℕ → Suite E.World Value
  unfolding send
  unregister success contract caller deposit =
      send E c success contract (codes "unregisterCaller") [] (some caller) deposit

  -- `_force_unregister`
  unfoldable pub force_unregister : Bool → Text → Text → ℕ → ℕ → Suite E.World Value
  unfolding send
  force_unregister success contract caller force deposit = do
    wire ← compute (encode_u64_le (pos force))
    send E c success contract (codes "forceUnregisterCaller") wire (some caller) deposit

  -- `_storage_unregister`
  unfoldable pub storage_unregister : Bool → Text → Text → Bytes → ℕ → Suite E.World Value
  unfolding send
  storage_unregister success contract caller wire deposit =
      send E c success contract (codes "storage_unregister") wire (some caller) deposit

  -- `_storage_withdraw`
  unfoldable pub storage_withdraw : Bool → Text → Text → Bytes → ℕ → Suite E.World Value
  unfolding send
  storage_withdraw success contract caller wire deposit =
      send E c success contract (codes "storage_withdraw") wire (some caller) deposit

  -- What both reclaims ask of the outcome: the result, the delta, the refund and the balances.
  unfoldable pub reclaimed_exactly : Text → Text → Value → ℕ → ℕ → Suite E.World (Unit {0})
  unfolding result_is assert_paid_receipt
  reclaimed_exactly contract caller outcome expected_delta per_byte = do
    result_is outcome 1
    reclaimed ← step (view_u64_on E c contract (codes "lastDelta") [])
    assert (reclaimed == expected_delta)
    assert_paid_receipt E c outcome caller (pos (reclaimed * per_byte + 1))

  -- `_assert_exact_reclaim`
  unfoldable pub assert_exact_reclaim : Text → Text → ℕ → ℕ → Suite E.World (Unit {0})
  unfolding registration_key rows unregister reclaimed_exactly int_le
  assert_exact_reclaim contract caller expected_delta per_byte = do
    key ← compute (registration_key caller)
    before ← rows E c (some contract)
    assert (is_some_eq (lookup key before) (replicate 16 0))
    balance_before ← step (view_account_balance E c caller)
    outcome ← unregister true contract caller 1
    balance_after ← step (view_account_balance E c caller)
    reclaimed_exactly contract caller outcome expected_delta per_byte
    assert (not (int_le balance_after balance_before))
    after ← rows E c (some contract)
    assert (not (is_some (lookup key after)))

  -- `_assert_force_reclaim`
  unfoldable pub assert_force_reclaim : Text → Text → ℕ → ℕ → Suite E.World (Unit {0})
  unfolding registration_key rows force_unregister reclaimed_exactly int_le
  assert_force_reclaim contract caller expected_delta per_byte = do
    balance_before ← step (view_account_balance E c caller)
    outcome ← force_unregister true contract caller 1 1
    balance_after ← step (view_account_balance E c caller)
    reclaimed_exactly contract caller outcome expected_delta per_byte
    assert (not (int_le balance_after balance_before))
    key ← compute (registration_key caller)
    after ← rows E c (some contract)
    assert (not (is_some (lookup key after)))

  -- `client.deploy_to(contract, wasm)` and its initialization with a cost of each byte.
  unfoldable pub begin_at : Text → Bytes → ℕ → Suite E.World (Unit {0})
  unfolding send
  begin_at contract wasm per_byte = do
    deployed ← step (deploy_to E c contract wasm)
    args ← compute (encode_u64_le (pos per_byte))
    initialized ← send E c true contract (codes "initialize") args (some contract) 0
    pass

  -- `client.call_on(contract, method, b"", signer=signer)`
  unfoldable pub plain : Text → Text → Text → Suite E.World (Unit {0})
  unfolding send
  plain contract method signer = do
    response ← send E c true contract method [] (some signer) 0
    pass

  -- The state is read, `m` is done, and the state is as it was.
  unfoldable pub unchanged_by : Text → Suite E.World Value → Suite E.World (Unit {0})
  unfolding rows rows_are
  unchanged_by contract m = do
    before ← rows E c (some contract)
    rejected ← m
    rows_are E c (some contract) before

  -- `if state.get(_key(account)) != b"\0" * 16: raise AssertionError(...)`
  unfoldable pub present_zero : Text → Text → Suite E.World (Unit {0})
  unfolding registration_key rows
  present_zero contract account = do
    now ← rows E c (some contract)
    key ← compute (registration_key account)
    assert (is_some_eq (lookup key now) (replicate 16 0))

  -- `if _key(account) in client.view_state_values(contract): raise AssertionError(...)`
  unfoldable pub unregistered : Text → Text → Suite E.World (Unit {0})
  unfolding registration_key no_row_at
  unregistered contract account = do
    key ← compute (registration_key account)
    no_row_at E c (some contract) key

  -- The two words of the contract's `totalSupply`.
  unfoldable pub supply_words : Text → Suite E.World (ℕ × ℕ)
  supply_words contract = do
    low ← step (view_u64_on E c contract (codes "totalSupplyW0") [])
    high ← step (view_u64_on E c contract (codes "totalSupplyW1") [])
    compute (ok (low, high))

  unfoldable pub supply_words_are : Text → ℕ × ℕ → Suite E.World (Unit {0})
  unfolding supply_words
  supply_words_are contract before = do
    now ← supply_words contract
    assert (before.0 == now.0 && before.1 == now.1)

  -- Either word of `totalSupply` that is not zero fails, the second one only looked at behind the
  -- first.
  unfoldable pub no_supply : Text → Suite E.World (Unit {0})
  unfolding number_is
  no_supply contract = do
    number_is E c contract (codes "totalSupplyW0") 0
    number_is E c contract (codes "totalSupplyW1") 0
