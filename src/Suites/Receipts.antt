-- ===== src/Suites/Receipts.antt =====
-- What the token suites (ledger.py, storage_registration.py) read of a transaction's receipts: the
-- logs, and the transfers that the contract has made.
pub mod Actions
pub mod Paid
pub mod Logs
use proof_forge_near.Prelude.{
  ℕ, zero, Bool, true, false, not, ◌&&◌, Option, none, some, List, [], ◌∷◌, ◌==◌, if◌then◌else◌,
  Text, codes, text_eq,
}
use proof_forge_near.Py.Result.{Result, ok, err, ◌>>=◌ as ◌then◌}
use proof_forge_near.Py.Int.{ℤ, pos, negsuc}
use proof_forge_near.Py.Value.{Value, str, int, list, dict, Items, nil, item, Entries, end, has_key}
use proof_forge_near.Rpc.Exc.{Exc}
use proof_forge_near.Rpc.Dynamic.{
  truthy?, get_or_none, get_or_default, iterate, to_int, object, or_default, contains,
}
use proof_forge_near.Rpc.Env.{Env, Client}
use proof_forge_near.Rpc.Query.{rpc_call}
use proof_forge_near.Suites.Play.{Suite, ◌>>=◌, ◌>>◌, step, compute, assert, pass}

unfoldable pub append_items : Items → Items → Items
append_items nil ys = ys
append_items (item x xs) ys = item x (append_items xs ys)

unfoldable pub logs_in : Items → Result Exc Items
unfolding append_items
logs_in nil = ok nil
logs_in (item receipt rest) = get_or_default (codes "outcome") (dict end) receipt then λ outcome.
    get_or_default (codes "logs") (list nil) outcome then λ logs.
    iterate logs then λ some_logs. logs_in rest then λ more. ok (append_items some_logs more)

-- `_receipt_logs` of ledger.py
unfoldable pub receipt_logs : Value → Result Exc Items
unfolding logs_in
receipt_logs response =
    get_or_default (codes "receipts_outcome") (list nil) response then λ receipts.
    iterate receipts then λ rs. logs_in rs

-- `_outcome_logs` of storage_registration.py: the transaction's own logs first.
unfoldable pub outcome_logs : Value → Result Exc Items
unfolding append_items receipt_logs
outcome_logs outcome = get_or_default (codes "transaction_outcome") (dict end) outcome then λ tx.
    get_or_default (codes "outcome") (dict end) tx then λ own.
    get_or_default (codes "logs") (list nil) own then λ logs.
    iterate logs then λ first. receipt_logs outcome then λ more. ok (append_items first more)

-- `logs == texts`
unfoldable pub same_logs : Items → List Text → Bool
same_logs nil [] = true
same_logs nil (t ∷ ts) = false
same_logs (item v rest) [] = false
same_logs (item (str l) rest) (t ∷ ts) = text_eq l t && same_logs rest ts
same_logs (item v rest) (t ∷ ts) = false

unfoldable pub int_eq : ℤ → ℤ → Bool
int_eq (pos a) (pos b) = a == b
int_eq (pos a) (negsuc b) = false
int_eq (negsuc a) (pos b) = false
int_eq (negsuc a) (negsuc b) = a == b

-- The `deposit` of an action's `Transfer`, where it has one.
unfoldable pub transferred : (Text → Option ℤ) → Value → Result Exc ℤ
transferred parse action = get_or_default (codes "Transfer") (dict end) action then λ transfer.
    get_or_default (codes "deposit") (int (negsuc zero)) transfer then λ deposit.
    to_int parse deposit

-- `isinstance(action, dict) and int(...) == amount`
unfoldable pub pays : (Text → Option ℤ) → ℤ → Value → Result Exc Bool
unfolding transferred int_eq
pays parse amount (dict a) = transferred parse (dict a) then λ n. ok (int_eq n amount)
pays parse amount v = ok false

-- `any(... for action in actions)`
unfoldable pub any_pays : (Text → Option ℤ) → ℤ → Items → Result Exc Bool
unfolding pays
any_pays parse amount nil = ok false
any_pays parse amount (item action rest) = pays parse amount action then λ p. elim p [
  | true ↦ ok true
  | false ↦ any_pays parse amount rest
]

-- `isinstance(action, dict) and "Transfer" in action`
any_transfer : Items → Bool
any_transfer nil = false
any_transfer (item (dict a) rest) = if has_key (codes "Transfer") a then true else any_transfer rest
any_transfer (item v rest) = any_transfer rest

-- `receipt.get("receipt", {}).get("Action", {}).get("actions", ())`
unfoldable pub actions_of : Value → Result Exc Items
actions_of receipt = get_or_default (codes "receipt") (dict end) receipt then λ body.
    get_or_default (codes "Action") (dict end) body then λ action.
    get_or_default (codes "actions") (list nil) action then λ actions. iterate actions

unfoldable pub is_text : Option Value → Text → Bool
is_text none t = false
is_text (some (str s)) t = text_eq s t
is_text (some v) t = false

-- `isinstance(status, dict) and "SuccessValue" in status`
unfoldable pub succeeded : Value → Bool
succeeded (dict d) = has_key (codes "SuccessValue") d
succeeded v = false

-- `outcome.get("receipts_outcome", ())`, as a loop goes through it.
unfoldable pub records_of : Value → Result Exc Items
records_of outcome =
    get_or_default (codes "receipts_outcome") (list nil) outcome then λ records. iterate records

-- What is looked at only where the test before it holds.
abbrev pub when : Bool → Result Exc Bool → Result Exc Bool
when true found = found
when false found = ok false

module _ (E : Env) (c : Client) where
  -- The receipt under an id, where the id is one.
  unfoldable pub receipt_at : Option Value → Bool → Suite E.World (Option Value)
  receipt_at id false = compute (ok none)
  receipt_at id true = do
    receipt ← step (
        rpc_call E c (codes "EXPERIMENTAL_receipt")
          (dict (object ((codes "receipt_id", or_default id (dict end)) ∷ []))))
    compute (ok (some receipt))

  unfoldable pub receipt_of : Value → Suite E.World (Option Value)
  unfolding receipt_at
  receipt_of row = do id ← compute (get_or_none (codes "id") row); receipt_at id (truthy? id)

  -- Whether a receipt transfers the amount to the account.
  unfoldable pub is_transfer : Text → ℤ → Option Value → Result Exc Bool
  unfolding is_text actions_of any_pays
  is_transfer receiver amount none = ok false
  is_transfer receiver amount (some receipt) = get_or_none (codes "receiver_id") receipt then λ who.
      when (is_text who receiver)
        (actions_of receipt then λ actions. any_pays E.parse_int amount actions)

  unfoldable pub visit : Text → ℤ → Value → Suite E.World Bool
  unfolding receipt_of is_transfer
  visit receiver amount row = do
    receipt ← receipt_of row
    compute (is_transfer receiver amount receipt)

  -- The loop of `_assert_transfer_receipt`; `behind` is what is done with the record that is found.
  unfoldable pub find_transfer :
      (Value → Suite E.World (Unit {0})) → Text → ℤ → Items → Suite E.World (Unit {0})
  unfolding visit
  find_transfer behind receiver amount nil = assert false
  find_transfer behind receiver amount (item row rest) = do
    found ← visit receiver amount row
    elim found [ true ↦ behind row | false ↦ find_transfer behind receiver amount rest ]

  -- `_assert_transfer_receipt` of ledger.py
  unfoldable pub assert_transfer_receipt : Value → Text → ℤ → Suite E.World (Unit {0})
  unfolding records_of find_transfer
  assert_transfer_receipt outcome receiver amount = do
    records ← compute (records_of outcome)
    find_transfer (λ row. pass) receiver amount records

  -- The record's own status has a success value.
  unfoldable pub has_succeeded : Value → Suite E.World (Unit {0})
  unfolding succeeded
  has_succeeded row = do
    own ← compute (get_or_default (codes "outcome") (dict end) row)
    status ← compute (get_or_default (codes "status") (dict end) own)
    assert (succeeded status)

  -- `_assert_transfer_receipt` of storage_registration.py: the receipt must have succeeded.
  unfoldable pub assert_paid_receipt : Value → Text → ℤ → Suite E.World (Unit {0})
  unfolding records_of find_transfer has_succeeded
  assert_paid_receipt outcome receiver amount = do
    records ← compute (records_of outcome)
    find_transfer has_succeeded receiver amount records

  no_transfer_in : Items → Suite E.World (Unit {0})
  unfolding receipt_of actions_of any_transfer
  no_transfer_in nil = pass
  no_transfer_in (item row rest) = do
    receipt ← receipt_of row
    elim receipt [
      | none ↦ pass
      | some r ↦ do actions ← compute (actions_of r); assert (not (any_transfer actions))
    ]
    no_transfer_in rest

  -- `_assert_no_transfer_receipt` and `_assert_no_transfer_action`
  unfoldable pub assert_no_transfer : Value → Suite E.World (Unit {0})
  unfolding records_of no_transfer_in
  assert_no_transfer outcome = do records ← compute (records_of outcome); no_transfer_in records
