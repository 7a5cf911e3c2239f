-- ===== src/Suites/Scene.antt =====
-- What the suites on a contract's state share: numbers that a call or a view returns, and the rows of
-- the contract's state.
pub mod Sound
use proof_forge_near.Prelude.{
  ◌&&◌, ◌≡◌, ℕ, ◌+◌, ◌^◌, Bool, true, false, not, Option, none, some, List, [], ◌∷◌, ◌++◌, ◌==◌,
  ltb, if◌then◌else◌, Text, Bytes, codes, length, text_eq,
}
use proof_forge_near.Py.Result.{Result, ok, err}
use proof_forge_near.Py.Bytes.{to_le}
use proof_forge_near.Py.Dict.{Dict, lookup, dict_eq}
use proof_forge_near.Py.Int.{ℤ, pos}
use proof_forge_near.Py.Value.{Value}
use proof_forge_near.Rpc.Env.{Env, Client}
use proof_forge_near.Rpc.Wire.{encode_u64_le, decode_u64_le}
use proof_forge_near.Rpc.Query.{view_state_values}
use proof_forge_near.Rpc.View.{view_u64, success_value_bytes}
use proof_forge_near.Rpc.Send.{call, call_on}
use proof_forge_near.Suites.Play.{
  Stop, assertion_error, Suite, ◌>>=◌, ◌>>◌, step, compute, assert, refused, pass, is_some_eq,
}
use proof_forge_near.Suites.Matrix.{default_gas}

-- `key in state`
abbrev pub is_some : Option Bytes → Bool
is_some none = false
is_some (some b) = true

keys_within : Dict Bytes → Dict Bytes → Bool
keys_within [] b = true
keys_within ((k, v) ∷ a) b = is_some (lookup k b) && keys_within a b

-- `set(a) == set(b)` of the keys of two states.
unfoldable pub same_keys : Dict Bytes → Dict Bytes → Bool
unfolding keys_within
same_keys a b = keys_within a b && keys_within b a

-- `prefix + value.to_bytes(8, "little")` of lookup.py, and with four bytes, of vector.py.
unfoldable pub index_key : ℕ → Bytes → ℕ → Bytes
index_key width prefix value = prefix ++ to_le width value

-- `account_key` of lookup.py, and `_key` of ledger.py: the name's UTF-8 bytes behind their number.
unfoldable pub account_key : Bytes → Bytes → Bytes
account_key prefix raw = prefix ++ (to_le 4 (length raw) ++ raw)

-- `if raw is None or len(raw) < 8: raise AssertionError(...)`
unfoldable pub eight_bytes : {W : Type 0} → Option Bytes → Suite W Bytes
eight_bytes none w = (err assertion_error, w)
eight_bytes (some raw) w = if ltb (length raw) 8 then (err assertion_error, w) else (ok raw, w)

module _ (E : Env) (c : Client) where
  -- The argument bytes of a number.
  unfoldable pub word : ℕ → Suite E.World Bytes
  word n = compute (encode_u64_le (pos n))

  unfoldable pub call_with : Text → ℕ → Suite E.World Value
  unfolding word
  call_with method n = do args ← word n; step (call E c method args true default_gas (pos 0))

  -- A call that must fail.
  unfoldable pub failing_call : Text → Bytes → ℕ → Suite E.World Value
  failing_call method args deposit = step (call E c method args false default_gas (pos deposit))

  unfoldable pub failing_call_with : Text → ℕ → ℕ → Suite E.World Value
  unfolding word failing_call
  failing_call_with method n deposit = do args ← word n; failing_call method args deposit

  -- `_call_u64`
  unfoldable pub call_u64 : Text → Bytes → Option Text → Suite E.World ℕ
  unfolding eight_bytes
  call_u64 method args signer = do
    result ← step (call_on E c c.account_id method args true default_gas (pos 0) signer)
    found ← compute (success_value_bytes E.b64decode result)
    raw ← eight_bytes found
    compute (decode_u64_le raw 0)

  -- `if _call_u64(client, method, value) != expected: raise AssertionError(...)`
  unfoldable pub call_is : Text → Bytes → Option Text → ℕ → Suite E.World (Unit {0})
  unfolding call_u64
  call_is method args signer expected = do
    got ← call_u64 method args signer
    assert (got == expected)

  unfoldable pub call_word_is : Text → ℕ → ℕ → Suite E.World (Unit {0})
  unfolding call_is word
  call_word_is method value expected = do args ← word value; call_is method args none expected

  -- `if client.view_u64(method, args) != expected: raise AssertionError(...)`
  unfoldable pub view_is : Text → Bytes → ℕ → Suite E.World (Unit {0})
  view_is method args expected = do got ← step (view_u64 E c method args); assert (got == expected)

  unfoldable pub view_word_is : Text → ℕ → ℕ → Suite E.World (Unit {0})
  unfolding view_is word
  view_word_is method value expected = do args ← word value; view_is method args expected

  unfoldable pub state : Suite E.World (Dict Bytes)
  state = step (view_state_values E c none)

  -- `if client.view_state_values().get(key) != value: raise AssertionError(...)`
  unfoldable pub row_is : Bytes → Bytes → Suite E.World (Unit {0})
  unfolding state
  row_is key value = do now ← state; assert (is_some_eq (lookup key now) value)

  -- `if key in client.view_state_values(): raise AssertionError(...)`
  unfoldable pub row_gone : Bytes → Suite E.World (Unit {0})
  unfolding state
  row_gone key = do now ← state; assert (not (is_some (lookup key now)))

  -- `if client.view_state_values() != before: raise AssertionError(...)`
  unfoldable pub state_is : Dict Bytes → Suite E.World (Unit {0})
  unfolding state
  state_is before = do after ← state; assert (dict_eq after before)

  -- `_fail_unchanged` of ledger.py.
  unfoldable pub fail_unchanged : Text → Option Text → Suite E.World (Unit {0})
  unfolding state state_is
  fail_unchanged method signer = do
    before ← state
    receipt ← step (call_on E c c.account_id method [] false default_gas (pos 0) signer)
    state_is before
