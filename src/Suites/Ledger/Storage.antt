-- ===== src/Suites/Ledger/Storage.antt =====
-- The scenes of runtime-tests/near/ledger.py on metadata and on storage registration.
use proof_forge_near.Prelude.{
  ℕ, ◌+◌, ◌-◌, true, false, not, none, some, [], ◌∷◌, ◌++◌, leb, if◌then◌else◌, Text, Bytes, codes,
  length, replicate, text_eq,
}
use proof_forge_near.Py.Result.{ok}
use proof_forge_near.Py.Int.{ℤ, pos, negsuc}
use proof_forge_near.Py.Value.{Value}
use proof_forge_near.Rpc.Env.{Env, Client}
use proof_forge_near.Rpc.View.{view}
use proof_forge_near.Suites.Play.{Suite, ◌>>=◌, ◌>>◌, step, compute, assert, each, refused}
use proof_forge_near.Suites.Scene.{view_is, fail_unchanged}
use proof_forge_near.Suites.Receipts.{
  receipt_logs, same_logs, assert_transfer_receipt, assert_no_transfer,
}
use proof_forge_near.Suites.Token.{
  encoded, storage_json, send, rows, rows_are, returns, fails_unchanged,
}
use proof_forge_near.Suites.Ledger.{
  metadata_wire, logs_are, act, balance_is, supply_is, json_balance_is, json_supply_is,
  storage_balance_is, has_row, gone,
}

-- `m - n`
minus : ℕ → ℕ → ℤ
minus m n = if leb n m then pos (m - n) else negsuc (n - m - 1)

abbrev max_wire : Bytes
max_wire = replicate 4096 0xff

module _ (E : Env) (c : Client) where
  -- `if client.view(method, wire) != expected: raise AssertionError(...)`
  view_returns : Text → Bytes → Bytes → Suite E.World (Unit {0})
  view_returns method wire expected = do
    got ← step (view E c method wire)
    assert (text_eq got expected)

  metadata_scene : Suite E.World (Unit {0})
  unfolding rows rows_are metadata_wire each view_returns
  metadata_scene = do
    before ← rows E c none
    expected ← compute metadata_wire
    each (λ wire. view_returns (codes "ft_metadata") wire expected)
        ([] ∷ codes "{}" ∷ codes "{\"unused\":0}" ∷ codes "not-json" ∷ codes "{}" ∷ [])
    rows_are E c none before
    each
        (λ wire.
          view_returns (codes "storage_balance_bounds") wire
            (codes "{\"min\":\"66\",\"max\":\"128\"}"))
        ([] ∷ codes "{}" ∷ codes "not-json" ∷ max_wire ∷ [])

  missing_scene : Suite E.World (Unit {0})
  unfolding view_is rows balance_is json_balance_is json_supply_is metadata_scene storage_balance_is
      each refused fail_unchanged act has_row supply_is
  missing_scene = do
    view_is E c (codes "balanceSelfHas") [] 0
    state ← rows E c none
    balance_is E c state c.account_id none
    json_balance_is E c (codes "missing.test.near") 0
    json_supply_is E c [] 0
    metadata_scene
    storage_balance_is E c (codes "aa") (codes "null")
    each (λ wire. json_supply_is E c wire 0) (codes "{}" ∷ codes "not-json" ∷ max_wire ∷ [])
    refused (view E c (codes "balanceSelfHas") (codes "{}"))
    fail_unchanged E c (codes "burnSelfOne") none
    before ← rows E c none
    act E c (codes "mintSelfZero")
    after ← rows E c none
    view_is E c (codes "balanceSelfHas") [] 0
    supply_is E c 0
    found ← has_row E c after c.account_id
    assert (not found)

  -- A call of one of the storage methods of the contract, signed by its own account.
  storage_call : Text → Bytes → ℕ → Suite E.World Value
  unfolding send
  storage_call method wire deposit =
      send E c true c.account_id method wire (some c.account_id) deposit

  storage_call_fails : Text → Bytes → ℕ → Suite E.World (Unit {0})
  unfolding fails_unchanged
  storage_call_fails method wire deposit =
      fails_unchanged E c none c.account_id method wire (some c.account_id) deposit

  -- A withdrawal of nothing leaves the state as it was and transfers nothing.
  withdraws_nothing : Bytes → Bytes → Suite E.World (Unit {0})
  unfolding rows rows_are storage_call returns assert_no_transfer
  withdraws_nothing registration wire = do
    before ← rows E c none
    withdrawn ← storage_call (codes "storage_withdraw") wire 1
    returns E c withdrawn registration
    rows_are E c none before
    assert_no_transfer E c withdrawn

  -- `len(client.account_id.encode()) + 64`
  self_cost : Suite E.World ℕ
  unfolding encoded
  self_cost = do raw ← compute (encoded c.account_id); compute (ok (length raw + 64))

  -- What a registration with 10_000 attached costs.
  deposit_scene : Suite E.World ℕ
  unfolding minus rows storage_call_fails has_row self_cost storage_call returns storage_json
      assert_transfer_receipt storage_balance_is each withdraws_nothing
  deposit_scene = do
    storage_call_fails (codes "storage_deposit") (codes "{}") 1
    state ← rows E c none
    found ← has_row E c state c.account_id
    assert (not found)
    cost ← self_cost
    registered ← storage_call (codes "storage_deposit") (codes "{}") 10000
    returns E c registered (storage_json (pos cost))
    assert_transfer_receipt E c registered c.account_id (minus 10000 cost)
    storage_balance_is E c c.account_id (storage_json (pos cost))
    each (withdraws_nothing (storage_json (pos cost)))
        (codes "{}" ∷ codes "{\"amount\":null}" ∷ codes "{\"amount\":\"0\"}" ∷ [])
    storage_call_fails (codes "storage_withdraw") (codes "{\"amount\":\"1\"}") 1
    storage_call_fails (codes "storage_withdraw") (codes "{}") 0
    storage_call_fails (codes "storage_withdraw") (codes "{}") 2
    duplicate ← storage_call (codes "storage_deposit") (codes "{\"registration_only\":true}") 7
    assert_transfer_receipt E c duplicate c.account_id (pos 7)
    compute (ok cost)

  -- A call of `storage_unregister` that must fail: its logs and the state behind it.
  unregister_rejected : Bytes → ℕ → Suite E.World (Unit {0})
  unfolding rows rows_are send logs_are
  unregister_rejected wire deposit = do
    before ← rows E c none
    rejected ←
        send E c false c.account_id (codes "storage_unregister") wire (some c.account_id) deposit
    rows_are E c none before
    logs_are E c rejected []

  -- A call of `storage_unregister` that reclaims the row and its cost without a log.
  unregisters : Bytes → ℕ → Suite E.World (Unit {0})
  unfolding storage_call returns logs_are assert_transfer_receipt gone
  unregisters wire cost = do
    outcome ← storage_call (codes "storage_unregister") wire 1
    returns E c outcome (codes "true")
    logs_are E c outcome []
    assert_transfer_receipt E c outcome c.account_id (pos (cost + 1))
    gone E c c.account_id

  unregister_scene : ℕ → Suite E.World (Unit {0})
  unfolding act storage_call_fails unregisters unregister_rejected storage_call receipt_logs
      same_logs returns assert_no_transfer
  unregister_scene cost = do
    act E c (codes "mintSelfOne")
    storage_call_fails (codes "storage_unregister") (codes "{\"force\":null}") 1
    unregisters (codes "{\"force\":true}") cost
    unregister_rejected (codes "{}") 0
    unregister_rejected (codes "{}") 2
    unregister_rejected (codes "{\"force\":true,\"unknown\":null}") 1
    missing ← storage_call (codes "storage_unregister") (codes "{}") 1
    logs ← compute (receipt_logs missing)
    returns E c missing (codes "false")
    assert (
        same_logs logs
          ((codes "The account " ++ (c.account_id ++ codes " is not registered")) ∷ []))
    assert_no_transfer E c missing
    deposited ← storage_call (codes "storage_deposit") (codes "{}") 10000
    unregisters (codes "{\"force\":false}") cost
    act E c (codes "seedSelfMalformed8")
    storage_call_fails (codes "storage_unregister") (codes "{\"force\":true}") 1
    act E c (codes "fixtureResetSelf")

  explicit_scene : Suite E.World (Unit {0})
  unfolding storage_call_fails act storage_balance_is storage_call returns assert_transfer_receipt
  explicit_scene = do
    storage_call_fails (codes "storage_deposit") (codes "{\"unknown\":null}") 100
    act E c (codes "fixtureResetSelf")
    storage_balance_is E c c.account_id (codes "null")
    storage_call_fails (codes "storage_withdraw") (codes "{}") 1
    explicit ←
        storage_call (codes "storage_deposit")
          (codes "{\"account_id\":\"aa\",\"registration_only\":true}") 100
    returns E c explicit (codes "{\"total\":\"66\",\"available\":\"0\"}")
    assert_transfer_receipt E c explicit c.account_id (pos 34)
    storage_balance_is E c (codes "aa") (codes "{\"total\":\"66\",\"available\":\"0\"}")
    act E c (codes "fixtureRemoveViewAccounts")

  -- The scenes up to the first line printed.
  unfoldable pub storage_scenes : Suite E.World (Unit {0})
  unfolding missing_scene deposit_scene unregister_scene explicit_scene
  storage_scenes = do missing_scene; cost ← deposit_scene; unregister_scene cost; explicit_scene
