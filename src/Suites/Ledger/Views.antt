-- ===== src/Suites/Ledger/Views.antt =====
-- The scenes of runtime-tests/near/ledger.py on balances that are present, short, long and malformed.
use proof_forge_near.Prelude.{
  ℕ, ◌+◌, ◌-◌, ◌^◌, true, not, none, [], ◌==◌, Text, Bytes, codes, length,
}
use proof_forge_near.Py.Result.{or_raise}
use proof_forge_near.Py.Int.{pos}
use proof_forge_near.Py.Dict.{Dict, lookup}
use proof_forge_near.Py.Json.{string, object, no_more, member}
use proof_forge_near.Rpc.Exc.{key_error}
use proof_forge_near.Rpc.Env.{Env, Client}
use proof_forge_near.Rpc.View.{view}
use proof_forge_near.Suites.Play.{Suite, ◌>>=◌, ◌>>◌, compute, assert, refused}
use proof_forge_near.Suites.Scene.{view_is, fail_unchanged}
use proof_forge_near.Suites.Token.{encoded, json_bytes, storage_json, rows, rows_are}
use proof_forge_near.Suites.Ledger.{
  ledger_key, json_balance_fails, act, json_balance_is, storage_balance_is, has_row,
}

abbrev max_u128 : ℕ
max_u128 = 2 ^ 128 - 1

abbrev short_id : Text
short_id = codes "aa"

abbrev max_id : Text
max_id = codes "abcdefgh01234567ijklmnop89abcdefqrstuvwx76543210yzabcdef01234567"

-- `max_id.replace("a", "\\u0061", 1)`: the first character is its only `a` that is replaced.
abbrev escaped_max_id : Text
escaped_max_id = codes "\\u0061bcdefgh01234567ijklmnop89abcdefqrstuvwx76543210yzabcdef01234567"

module _ (E : Env) (c : Client) where
  -- The row of an account that the state must have.
  row_of : Dict Bytes → Text → Suite E.World Bytes
  unfolding ledger_key
  row_of state account = do
    key ← compute (ledger_key account)
    compute (or_raise (lookup key state) key_error)

  -- `if len(state[_key(account)]) != n: raise AssertionError(...)`
  row_length : Dict Bytes → Text → ℕ → Suite E.World (Unit {0})
  unfolding row_of
  row_length state account n = do row ← row_of state account; assert (length row == n)

  present_zero_scene : Suite E.World (Unit {0})
  unfolding act rows storage_balance_is storage_json encoded has_row row_length view_is
      json_balance_is
  present_zero_scene = do
    act E c (codes "fixturePutSelfZeroNoSupply")
    state ← rows E c none
    raw ← compute (encoded c.account_id)
    storage_balance_is E c c.account_id (storage_json (pos (length raw + 64)))
    found ← has_row E c state c.account_id
    assert found
    row_length state c.account_id 16
    view_is E c (codes "balanceSelfHas") [] 1
    json_balance_is E c raw 0
    act E c (codes "fixtureResetSelf")

  geometry_scene : Suite E.World (Unit {0})
  unfolding act json_balance_is storage_balance_is rows has_row
  geometry_scene = do
    act E c (codes "fixturePutShortNoSupply")
    json_balance_is E c short_id (2 ^ 64 + 3)
    storage_balance_is E c short_id (codes "{\"total\":\"66\",\"available\":\"0\"}")
    act E c (codes "fixturePutMaxAccountNoSupply")
    json_balance_is E c max_id max_u128
    storage_balance_is E c max_id (codes "{\"total\":\"128\",\"available\":\"0\"}")
    json_balance_is E c escaped_max_id max_u128
    act E c (codes "fixtureRemoveViewAccounts")
    state ← rows E c none
    short_found ← has_row E c state short_id
    assert (not short_found)
    max_found ← has_row E c state max_id
    assert (not max_found)

  -- `try: _storage_balance(client, account) except NearRpcError: pass`
  storage_balance_refused : Text → Suite E.World (Unit {0})
  unfolding json_bytes refused
  storage_balance_refused account = do
    wire ← compute (json_bytes true (object (member (codes "account_id") (string account) no_more)))
    refused (view E c (codes "storage_balance_of") wire)

  -- A balance of the wrong length fails every view and call, and stays as it was.
  malformed_scene : Text → ℕ → Text → Suite E.World (Unit {0})
  unfolding act rows row_length encoded json_balance_fails storage_balance_refused fail_unchanged
      rows_are
  malformed_scene seed size method = do
    act E c seed
    state ← rows E c none
    row_length state c.account_id size
    raw ← compute (encoded c.account_id)
    json_balance_fails E c raw
    storage_balance_refused c.account_id
    fail_unchanged E c method none
    rows_are E c none state
    act E c (codes "fixtureResetSelf")

  -- The scenes between the first line printed and the fourth.
  unfoldable pub view_scenes : Suite E.World (Unit {0})
  unfolding present_zero_scene geometry_scene malformed_scene encoded json_balance_is
  view_scenes = do
    present_zero_scene
    geometry_scene
    malformed_scene (codes "seedSelfMalformed8") 8 (codes "mintSelfOne")
    malformed_scene (codes "seedSelfMalformed20") 20 (codes "burnSelfZero")
    raw ← compute (encoded c.account_id)
    json_balance_is E c raw 0
