-- ===== src/Rpc/Query.antt =====
-- Requests of `NearClient` that change nothing on the node's chain.
pub mod State
use proof_forge_near.Prelude.{
  ℕ, Bool, true, false, not, Option, none, some, List, [], ◌∷◌, Text, Bytes, codes,
}
use proof_forge_near.Py.Result.{Result, ok, err, or_raise}
use proof_forge_near.Py.Int.{ℤ}
use proof_forge_near.Py.Dict.{Dict, lookup, insert}
use proof_forge_near.Py.Value.{
  Value, null, bool, str, list, dict, Items, nil, item, Entries, end, get, has_key,
}
use proof_forge_near.Rpc.Exc.{
  Exc, value_error, key_error, type_error, near_rpc_error, Reason, transport, rpc_error,
  missing_block_height, view_account, state_not_object, state_values_not_array, state_error,
  malformed_row, duplicate_key,
}
use proof_forge_near.Rpc.Dynamic.{
  truthy?, or_default, get_or_none, get_or_default, subscript, to_int, object, truthy,
}
use proof_forge_near.Rpc.Exec.{Exec, ◌>>=◌, ◌>>◌, lift, check}
use proof_forge_near.Rpc.Env.{Env, Client, Reply, answered, unreachable, not_json}

-- `"error" in data`, then `data["result"]`.
read_data : Text → Value → Result Exc Value
read_data method (dict d) = elim (get (codes "error") d) [
  | some e ↦ err (near_rpc_error (rpc_error method e))
  | none ↦ or_raise (get (codes "result") d) key_error
]
read_data method v = err type_error

unfoldable pub read_reply : Text → Reply → Result Exc Value
unfolding read_data
read_reply method (answered v) = read_data method v
read_reply method unreachable = err (near_rpc_error (transport method))
read_reply method not_json = err value_error

-- `a or b` for an optional account id.
unfoldable pub or_self : Option Text → Text → Text
or_self none self = self
or_self (some []) self = self
or_self (some (c ∷ account)) self = c ∷ account

-- `v or {}`
unfoldable pub or_empty : Option Value → Value
or_empty none = dict end
or_empty (some v) = elim (truthy v) [ true ↦ v | false ↦ dict end ]

require_height : Value → Option Value → Result Exc Value
require_height st none = err (near_rpc_error (missing_block_height st))
require_height st (some null) = err (near_rpc_error (missing_block_height st))
require_height st (some h) = ok h

-- The parameters of a `query` at `finality: optimistic`.
abbrev pub query : Text → List (Text × Value) → Value
query request_type rest = dict (
    object (
      (codes "request_type", str request_type)
      ∷ (codes "finality", str (codes "optimistic"))
      ∷ rest))

abbrev pub state_query : Text → Value
state_query target = query (codes "view_state") (
    (codes "account_id", str target)
    ∷ (codes "prefix_base64", str [])
    ∷ (codes "include_proof", bool false)
    ∷ [])

-- `json.loads` has been done: the row of `values`, decoded. Every exception of the `try` block
-- becomes the same `NearRpcError`.
row_text : Option Value → Option Text
row_text (some (str t)) = some t
row_text v = none

both : Option Bytes → Option Bytes → Option (Bytes × Bytes)
both none v = none
both (some k) none = none
both (some k) (some v) = some (k, v)

module _ (E : Env) where
  decode_text : Option Text → Option Bytes
  decode_text none = none
  decode_text (some t) = E.b64decode_strict t

  unfoldable pub decode_row : Value → Option (Bytes × Bytes)
  unfolding both row_text decode_text
  decode_row (dict d) =
      both (decode_text (row_text (get (codes "key") d)))
        (decode_text (row_text (get (codes "value") d)))
  decode_row v = none

  -- One row of the loop: `if key in values: raise`, then `values[key] = value`.
  add_row : Text → Value → Dict Bytes → Result Exc (Dict Bytes)
  add_row target row values = elim (decode_row row) [
    | none ↦ err (near_rpc_error (malformed_row target row))
    | some (k, v) ↦ elim (lookup k values) [
      | none ↦ ok (insert k v values)
      | some old ↦ err (near_rpc_error (duplicate_key target k))
    ]
  ]

  unfoldable pub collect_rows : Text → Items → Dict Bytes → Result Exc (Dict Bytes)
  unfolding add_row
  collect_rows target nil values = ok values
  collect_rows target (item row rest) values = elim (add_row target row values) [
    | ok more ↦ collect_rows target rest more
    | err e ↦ err e
  ]

  read_values : Text → Entries → Result Exc (Dict Bytes)
  unfolding collect_rows
  read_values target d = elim (get (codes "values") d) [
    | some (list rows) ↦ collect_rows target rows []
    | _ ↦ err (near_rpc_error (state_values_not_array target))
  ]

  unfoldable pub read_state : Text → Value → Result Exc (Dict Bytes)
  unfolding read_values
  read_state target (dict d) = elim (get (codes "error") d) [
    | some e ↦ err (near_rpc_error (state_error target e))
    | none ↦ read_values target d
  ]
  read_state target v = err (near_rpc_error (state_not_object target))

  module _ (c : Client) where
    unfoldable pub rpc_call : Text → Value → Exec E.World Value
    rpc_call method params w =
        let (reply, w') = E.urlopen method params w in (read_reply method reply, w')

    unfoldable pub status : Exec E.World Value
    unfolding rpc_call
    status = rpc_call (codes "status") (list nil)

    unfoldable pub latest_block_height : Exec E.World ℤ
    unfolding status or_empty require_height
    latest_block_height = do
      st ← status
      sync ← lift (get_or_none (codes "sync_info") st)
      found ← lift (get_or_none (codes "latest_block_height") (or_empty sync))
      h ← lift (require_height st found)
      lift (to_int E.parse_int h)

    -- `view_account_balance` and `view_account_locked` differ in the field that they read.
    view_account_field : Text → Text → Exec E.World ℤ
    view_account_field field account = do
      res ←
          rpc_call (codes "query")
            (query (codes "view_account") ((codes "account_id", str account) ∷ []))
      e ← lift (get_or_none (codes "error") res)
      check (truthy? e) (near_rpc_error (view_account account (or_default e null)))
      amount ← lift (subscript field res)
      lift (to_int E.parse_int amount)

    unfoldable pub view_account_balance : Text → Exec E.World ℤ
    unfolding view_account_field
    view_account_balance account = view_account_field (codes "amount") account

    unfoldable pub view_account_locked : Text → Exec E.World ℤ
    unfolding view_account_field
    view_account_locked account = view_account_field (codes "locked") account

    unfoldable pub view_state_values : Option Text → Exec E.World (Dict Bytes)
    view_state_values account = do
      let target = or_self account c.account_id
      res ← rpc_call (codes "query") (state_query target)
      lift (read_state target res)
