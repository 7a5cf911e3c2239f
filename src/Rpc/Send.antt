-- ===== src/Rpc/Send.antt =====
-- Requests of `NearClient` that send a signed transaction.
pub mod Layout
pub mod Outcome
pub mod Failed
use proof_forge_near.Prelude.{
  ℕ, zero, suc, ◌+◌, Bool, true, false, not, ◌&&◌, Option, none, some, List, [], ◌∷◌, ◌++◌, Text,
  Bytes, codes, text_eq, take, if◌then◌else◌,
}
use proof_forge_near.Py.Result.{Result, ok, err, ◌>>=◌ as ◌then◌, or_raise}
use proof_forge_near.Py.Int.{ℤ, pos, negsuc}
use proof_forge_near.Py.Value.{Value, null, str, bytes, list, dict, Items, nil, item, Entries, end}
use proof_forge_near.Rpc.Exc.{
  Exc, value_error, type_error, near_rpc_error, Reason, tx_failure, expected_failure,
  bad_wasm_magic,
}
use proof_forge_near.Rpc.Dynamic.{get_or_default, subscript, contains, iterate, to_int, object}
use proof_forge_near.Rpc.Exec.{Exec, ◌>>=◌, ◌>>◌, lift, check}
use proof_forge_near.Rpc.Env.{Env, Client}
use proof_forge_near.Rpc.Query.{query, or_self, rpc_call}
use proof_forge_near.Rpc.Transaction.{
  action_create_account, action_deploy, action_function_call, action_transfer,
  action_add_full_access_key, transaction,
}

-- `nonce += 1`
unfoldable pub next : ℤ → ℤ
next (pos n) = pos (n + 1)
next (negsuc zero) = pos 0
next (negsuc (suc n)) = negsuc n

-- `base58.b58decode(v)` of a value that `subscript` gave.
decode_hash : (Text → Option Bytes) → Value → Result Exc Bytes
decode_hash decode (str t) = or_raise (decode t) value_error
decode_hash decode (bytes b) = or_raise (decode b) value_error
decode_hash decode v = err type_error

-- `"Failure" in r.get("outcome", {}).get("status", {})`
pub receipt_failed : Value → Result Exc Bool
receipt_failed r = get_or_default (codes "outcome") (dict end) r then λ outcome.
    get_or_default (codes "status") (dict end) outcome then λ st. contains (codes "Failure") st

-- The loop over the receipts, which stops at the first that failed.
pub any_receipt_failed : Items → Result Exc Bool
unfolding receipt_failed
any_receipt_failed nil = ok false
any_receipt_failed (item r rest) = elim (receipt_failed r) [
  | err e ↦ err e
  | ok true ↦ ok true
  | ok false ↦ any_receipt_failed rest
]

-- The variable `failed` after the loop.
unfoldable pub outcome_failed : Value → Result Exc Bool
unfolding any_receipt_failed
outcome_failed res = get_or_default (codes "status") (dict end) res then λ st.
    contains (codes "Failure") st then λ failed. elim failed [
      | true ↦ ok true
      | false ↦ get_or_default (codes "receipts_outcome") (list nil) res then λ receipts.
          iterate receipts then λ rs. any_receipt_failed rs
    ]

-- `status!r` of the two errors.
shown_status : Value → Value
shown_status res = elim (get_or_default (codes "status") (dict end) res) [ ok v ↦ v | err e ↦ null ]

-- The two tests of `expect_success` against `failed`.
unfoldable pub judge : Bool → Bool → Value → Result Exc Value
unfolding shown_status
judge true true res = err (near_rpc_error (tx_failure (shown_status res)))
judge true false res = ok res
judge false true res = ok res
judge false false res = err (near_rpc_error (expected_failure (shown_status res)))

unfoldable pub check_outcome : Bool → Value → Result Exc Value
check_outcome expect_success res = outcome_failed res then λ failed. judge expect_success failed res

abbrev pub wasm_magic : Bytes
wasm_magic = 0 ∷ b'a' ∷ b's' ∷ b'm' ∷ []

module _ (E : Env) (c : Client) where
  unfoldable pub access_key : Option Text → Exec E.World (ℤ × Bytes)
  unfolding decode_hash
  access_key account = do
    res ← rpc_call E c (codes "query") (
        query (codes "view_access_key") (
          (codes "account_id", str (or_self account c.account_id))
          ∷ (codes "public_key", str c.public_key_str)
          ∷ []))
    nonce_value ← lift (subscript (codes "nonce") res)
    nonce ← lift (to_int E.parse_int nonce_value)
    hash_value ← lift (subscript (codes "block_hash") res)
    block_hash ← lift (decode_hash E.b58decode hash_value)
    lift (ok (nonce, block_hash))

  -- `signed`: the transaction, the curve byte and the signature of its hash.
  unfoldable pub sign_transaction : Bytes → Bytes
  sign_transaction tx = tx ++ (0 ∷ E.sign (E.sha256 tx))

  unfoldable pub sign_and_send : Text → List Bytes → Bool → Option Text → Exec E.World Value
  sign_and_send receiver actions expect_success signer = do
    let signer_id = or_self signer c.account_id
    (nonce, block_hash) ← access_key (some signer_id)
    tx ← lift (transaction signer_id c.public_key (next nonce) receiver block_hash actions)
    res ←
        rpc_call E c (codes "broadcast_tx_commit")
          (list (item (str (E.b64encode (sign_transaction tx))) nil))
    lift (check_outcome expect_success res)

  unfoldable pub create_subaccount : Text → ℤ → Exec E.World Value
  create_subaccount sub_id initial_balance = do
    funding ← lift (action_transfer initial_balance)
    sign_and_send sub_id (action_create_account ∷ funding ∷ []) true none

  unfoldable pub create_subaccount_with_key : Text → ℤ → Exec E.World Value
  create_subaccount_with_key sub_id initial_balance = do
    funding ← lift (action_transfer initial_balance)
    key ← lift (action_add_full_access_key c.public_key)
    sign_and_send sub_id (action_create_account ∷ funding ∷ key ∷ []) true none

  -- The code is what `wasm_path.read_bytes()` gave.
  unfoldable pub deploy : Bytes → Exec E.World Value
  deploy code = do
    check (not (text_eq (take 4 code) wasm_magic)) (near_rpc_error (bad_wasm_magic (take 4 code)))
    action ← lift (action_deploy code)
    sign_and_send c.account_id (action ∷ []) true none

  unfoldable pub deploy_to : Text → Bytes → Exec E.World Value
  deploy_to account code = do
    check (not (text_eq (take 4 code) wasm_magic)) (near_rpc_error (bad_wasm_magic (take 4 code)))
    action ← lift (action_deploy code)
    sign_and_send account (action ∷ []) true (some account)

  unfoldable pub call_on : Text → Text → Bytes → Bool → ℤ → ℤ → Option Text → Exec E.World Value
  call_on account method args expect_success gas deposit signer = do
    action ← lift (action_function_call method args gas deposit)
    sign_and_send account (action ∷ []) expect_success (some (or_self signer c.account_id))

  unfoldable pub call : Text → Bytes → Bool → ℤ → ℤ → Exec E.World Value
  call method args expect_success gas deposit =
      call_on c.account_id method args expect_success gas deposit none
