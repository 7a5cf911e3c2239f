-- ===== src/Suites/Token.antt =====
-- What the token suites (ledger.py, storage_registration.py) share: storage keys, JSON texts, calls
-- on a contract, and checks of what they return.
pub mod Checks
mod Tests
use proof_forge_near.Prelude.{
  ◌≡◌, ℕ, ◌+◌, ◌-◌, ◌*◌, ◌^◌, Bool, true, false, not, ◌&&◌, Option, none, some, List, [], ◌∷◌, ◌++◌,
  ◌==◌, leb, if◌then◌else◌, Text, Bytes, codes, length, text_eq,
}
use proof_forge_near.Py.Result.{Result, ok, err, ◌>>=◌ as ◌then◌, or_raise}
use proof_forge_near.Py.Int.{ℤ, pos, negsuc}
use proof_forge_near.Py.Decimal.{decimal}
use proof_forge_near.Py.Dict.{Dict, lookup, dict_eq}
use proof_forge_near.Py.Json.{Json, dumps}
use proof_forge_near.Py.Utf8.{encode}
use proof_forge_near.Py.Value.{Value, Items}
use proof_forge_near.Rpc.Exc.{Exc, overflow_error, unicode_error}
use proof_forge_near.Rpc.Env.{Env, Client}
use proof_forge_near.Rpc.Wire.{pack_unsigned}
use proof_forge_near.Rpc.Query.{view_state_values}
use proof_forge_near.Rpc.View.{view_on, view_u64_on, success_value_bytes}
use proof_forge_near.Rpc.Send.{call_on}
use proof_forge_near.Suites.Play.{
  Suite, ◌>>=◌, ◌>>◌, step, compute, assert, refused, pass, is_some_eq,
}
use proof_forge_near.Suites.Matrix.{default_gas}
use proof_forge_near.Suites.Scene.{is_some}

-- `str(n)`
unfoldable pub shown : ℤ → Text
unfolding decimal
shown (pos n) = decimal n
shown (negsuc n) = b'-' ∷ decimal (n + 1)

-- `text.encode()`
unfoldable pub encoded : Text → Result Exc Bytes
encoded text = or_raise (encode text) unicode_error

-- `json.dumps(value, separators=(",", ":")).encode()`
unfoldable pub json_bytes : Bool → Json → Result Exc Bytes
unfolding dumps encoded
json_bytes ascii value = encoded (dumps ascii value)

-- `_key`, with the exception of a name that is too long.
unfoldable pub balance_key : Exc → Text → Result Exc Bytes
unfolding encoded pack_unsigned
balance_key too_long account = encoded account then λ raw.
    pack_unsigned 4 too_long (pos (length raw)) then λ size. ok (codes "BAL2" ++ (size ++ raw))

-- `{{"total":"{total}","available":"0"}}`
unfoldable pub storage_json : ℤ → Bytes
unfolding shown
storage_json total = codes "{\"total\":\"" ++ (shown total ++ codes "\",\"available\":\"0\"}")

module _ (E : Env) (c : Client) where
  -- `client.call_on(contract, method, wire, signer=signer, deposit=deposit)`
  unfoldable pub send : Bool → Text → Text → Bytes → Option Text → ℕ → Suite E.World Value
  send success contract method wire signer deposit =
      step (call_on E c contract method wire success default_gas (pos deposit) signer)

  unfoldable pub rows : Option Text → Suite E.World (Dict Bytes)
  rows contract = step (view_state_values E c contract)

  -- `if client.view_state_values(contract) != before: raise AssertionError(...)`
  unfoldable pub rows_are : Option Text → Dict Bytes → Suite E.World (Unit {0})
  unfolding rows
  rows_are contract before = do after ← rows contract; assert (dict_eq after before)

  -- `if key in client.view_state_values(contract): raise AssertionError(...)`
  unfoldable pub no_row_at : Option Text → Bytes → Suite E.World (Unit {0})
  unfolding rows
  no_row_at contract key = do now ← rows contract; assert (not (is_some (lookup key now)))

  -- `if NearClient.success_value_bytes(outcome) != expected: raise AssertionError(...)`
  unfoldable pub returns : Value → Bytes → Suite E.World (Unit {0})
  returns outcome expected = do
    got ← compute (success_value_bytes E.b64decode outcome)
    assert (is_some_eq got expected)

  -- `if client.view_on(contract, method, wire) != expected: raise AssertionError(...)`
  unfoldable pub view_gives : Text → Text → Bytes → Bytes → Suite E.World (Unit {0})
  view_gives contract method wire expected = do
    got ← step (view_on E c contract method wire)
    assert (text_eq got expected)

  -- `if client.view_u64_on(contract, method) != expected: raise AssertionError(...)`
  unfoldable pub number_is : Text → Text → ℕ → Suite E.World (Unit {0})
  number_is contract method expected = do
    got ← step (view_u64_on E c contract method [])
    assert (got == expected)

  -- A call on `contract` that must fail, and the state `at` around it.
  unfoldable pub fails_unchanged :
      Option Text → Text → Text → Bytes → Option Text → ℕ → Suite E.World (Unit {0})
  unfolding rows rows_are send
  fails_unchanged at contract method wire signer deposit = do
    before ← rows at
    rejected ← send false contract method wire signer deposit
    rows_are at before
