-- ===== src/Rpc/View.antt =====
-- The views of `NearClient`, their decoders, and `success_value_bytes`.
pub mod Decode
pub mod Observe
pub mod Success
use proof_forge_near.Prelude.{
  ℕ, Bool, true, false, not, Option, none, some, List, [], ◌∷◌, if◌then◌else◌, ltb, Text, Bytes,
  codes, length,
}
use proof_forge_near.Py.Result.{Result, ok, err, ◌>>=◌ as ◌then◌, or_raise, map_err}
use proof_forge_near.Py.Int.{ℤ}
use proof_forge_near.Py.Dict.{Dict}
use proof_forge_near.Py.Value.{
  Value, null, str, bytes, list, dict, Items, nil, item, Entries, end, as_mapping,
}
use proof_forge_near.Rpc.Exc.{
  Exc, value_error, unicode_error, key_error, type_error, near_rpc_error, Reason, view_not_object,
  malformed_result, view_error, short_result, invalid_observation,
}
use proof_forge_near.Rpc.Dynamic.{
  truthy, get_or_none, get_or_default, subscript, contains, iterate, to_bytes,
}
use proof_forge_near.Rpc.Exec.{Exec, ◌>>=◌, lift}
use proof_forge_near.Rpc.Env.{Env, Client}
use proof_forge_near.Rpc.Query.{query, rpc_call, view_state_values}
use proof_forge_near.Rpc.Wire.{decode_u64_le, decode_i64_le}
use proof_forge_near.Observation.Error.{ObservationError}
use proof_forge_near.Observation.Adapter.{CallObservation, observation_from_view_response}

-- The tests of `view_response_on` on the response.
unfoldable pub check_view : Text → Text → Value → Result Exc Value
check_view account method (dict d) = get_or_none (codes "error") (dict d) then λ e. elim e [
  | none ↦ ok (dict d)
  | some v ↦ elim (truthy v) [
    | true ↦ err (near_rpc_error (view_error account method v))
    | false ↦ ok (dict d)
  ]
]
check_view account method v = err (near_rpc_error (view_not_object account method))

-- `except (KeyError, TypeError, ValueError)`
malformed : Text → Text → Exc → Exc
malformed account method value_error = near_rpc_error (malformed_result account method)
malformed account method unicode_error = near_rpc_error (malformed_result account method)
malformed account method key_error = near_rpc_error (malformed_result account method)
malformed account method type_error = near_rpc_error (malformed_result account method)
malformed account method e = e

-- `bytes(res["result"])` in its `try` block.
unfoldable pub view_bytes : Text → Text → Value → Result Exc Bytes
unfolding malformed
view_bytes account method res =
    map_err (malformed account method) (subscript (codes "result") res then λ v. to_bytes v)

-- `if len(raw) < n: raise`
require_length : Text → Text → ℕ → Bytes → Result Exc Bytes
require_length account method n raw =
    if ltb (length raw) n then err (near_rpc_error (short_result account method n raw)) else ok raw

unfoldable pub u64_of : Text → Text → Bytes → Result Exc ℕ
unfolding require_length
u64_of account method raw = require_length account method 8 raw then λ b. decode_u64_le b 0

unfoldable pub u64_pair_of : Text → Text → Bytes → Result Exc (ℕ × ℕ)
unfolding require_length
u64_pair_of account method raw = require_length account method 16 raw then λ b.
    decode_u64_le b 0 then λ lo. decode_u64_le b 8 then λ hi. ok (lo, hi)

unfoldable pub i64_pair_of : Text → Text → Bytes → Result Exc (ℤ × ℤ)
unfolding require_length
i64_pair_of account method raw = require_length account method 16 raw then λ b.
    decode_i64_le b 0 then λ lo. decode_i64_le b 8 then λ hi. ok (lo, hi)

module _ (E : Env) (c : Client) where
  unfoldable pub view_response_on : Text → Text → Bytes → Exec E.World Value
  view_response_on account method args = do
    res ← rpc_call E c (codes "query") (
        query (codes "call_function") (
          (codes "account_id", str account)
          ∷ (codes "method_name", str method)
          ∷ (codes "args_base64", str (E.b64encode args))
          ∷ []))
    lift (check_view account method res)

  unfoldable pub view_on : Text → Text → Bytes → Exec E.World Bytes
  view_on account method args = do
    res ← view_response_on account method args
    lift (view_bytes account method res)

  unfoldable pub view : Text → Bytes → Exec E.World Bytes
  view method args = view_on c.account_id method args

  unfoldable pub view_u64_on : Text → Text → Bytes → Exec E.World ℕ
  view_u64_on account method args = do
    raw ← view_on account method args
    lift (u64_of account method raw)

  unfoldable pub view_u64 : Text → Bytes → Exec E.World ℕ
  view_u64 method args = view_u64_on c.account_id method args

  unfoldable pub view_u64_pair : Text → Bytes → Exec E.World (ℕ × ℕ)
  view_u64_pair method args = do raw ← view method args; lift (u64_pair_of c.account_id method raw)

  unfoldable pub view_i64_pair : Text → Bytes → Exec E.World (ℤ × ℤ)
  view_i64_pair method args = do raw ← view method args; lift (i64_pair_of c.account_id method raw)

  unfoldable pub observe_view : Text → Bytes → Exec E.World CallObservation
  observe_view method args = do
    pre ← view_state_values E c none
    response ← view_response_on c.account_id method args
    post ← view_state_values E c none
    lift (
        map_err (λ e. near_rpc_error (invalid_observation c.account_id method e))
          (observation_from_view_response (str method) (bytes args) response (dict (as_mapping pre))
            (dict (as_mapping post))))

-- A `SuccessValue`: `None` and the empty text give no bytes.
success_bytes : (Text → Option Bytes) → Value → Result Exc Bytes
success_bytes decode null = ok []
success_bytes decode (str []) = ok []
success_bytes decode (str (c ∷ text)) = or_raise (decode (c ∷ text)) value_error
success_bytes decode (bytes b) = or_raise (decode b) value_error
success_bytes decode v = err type_error

-- The value under `SuccessValue` of a status, if the status has one.
unfoldable pub success_in : (Text → Option Bytes) → Value → Result Exc (Option Bytes)
unfolding success_bytes
success_in decode st = contains (codes "SuccessValue") st then λ present. elim present [
  | false ↦ ok none
  | true ↦
      subscript (codes "SuccessValue") st then λ sv. success_bytes decode sv then λ b. ok (some b)
]

reversed_onto : Items → Items → Items
reversed_onto nil acc = acc
reversed_onto (item x rest) acc = reversed_onto rest (item x acc)

-- `reversed(v)`: a sequence or a dict.
reversed : Value → Result Exc Items
unfolding reversed_onto
reversed v = iterate v then λ xs. ok (reversed_onto xs nil)

-- The loop over the receipts, from the last one.
unfoldable pub last_success : (Text → Option Bytes) → Items → Result Exc (Option Bytes)
last_success decode nil = ok none
last_success decode (item r rest) =
    let more = last_success decode rest in
    get_or_default (codes "outcome") (dict end) r then λ outcome.
    get_or_default (codes "status") (dict end) outcome then λ st.
    success_in decode st then λ found. elim found [ none ↦ more | some b ↦ ok (some b) ]

unfoldable pub success_value_bytes : (Text → Option Bytes) → Value → Result Exc (Option Bytes)
unfolding reversed
success_value_bytes decode tx_res = get_or_default (codes "status") (dict end) tx_res then λ status.
    success_in decode status then λ found. elim found [
      | some b ↦ ok (some b)
      | none ↦ get_or_default (codes "receipts_outcome") (list nil) tx_res then λ receipts.
          reversed receipts then λ rs. last_success decode rs
    ]
