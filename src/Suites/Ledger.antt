-- ===== src/Suites/Ledger.antt =====
-- The helpers of runtime-tests/near/ledger.py: fungible-token calls, the events that they log, and
-- what the suite asks of both.
pub mod Wire
pub mod Transfer
pub mod Refused
pub mod Event
pub mod Sent
pub mod Storage
pub mod Views
pub mod Supply
pub mod Transfers
pub mod Calls
pub mod Resolver
pub mod Dual
pub mod Main
use proof_forge_near.Prelude.{
  ℕ, ◌+◌, ◌-◌, ◌*◌, ◌^◌, Bool, true, false, not, ◌&&◌, Option, none, some, List, [], ◌∷◌, ◌++◌,
  ◌==◌, leb, if◌then◌else◌, Text, Bytes, codes, length, text_eq, take, drop,
}
use proof_forge_near.Py.Result.{Result, ok, err, ◌>>=◌ as ◌then◌}
use proof_forge_near.Py.Bytes.{from_le, slice}
use proof_forge_near.Py.Int.{ℤ, pos, negsuc}
use proof_forge_near.Py.Dict.{Dict, lookup, dict_eq}
use proof_forge_near.Py.Json.{
  Json, null, number, string, array, object, Elements, none_left, element, Members, no_more, member,
  dumps,
}
use proof_forge_near.Py.Value.{Value, bytes, Items, nil}
use proof_forge_near.Rpc.Exc.{Exc, overflow_error}
use proof_forge_near.Rpc.Dynamic.{to_int}
use proof_forge_near.Rpc.Env.{Env, Client}
use proof_forge_near.Rpc.Query.{or_self}
use proof_forge_near.Rpc.View.{view, view_u64}
use proof_forge_near.Rpc.Send.{call_on}
use proof_forge_near.Suites.Play.{
  assertion_error, Suite, ◌>>=◌, ◌>>◌, step, compute, assert, refused, pass,
}
use proof_forge_near.Suites.Matrix.{default_gas}
use proof_forge_near.Suites.Scene.{is_some}
use proof_forge_near.Suites.Receipts.{receipt_logs, same_logs, int_eq}
use proof_forge_near.Suites.Token.{
  shown, encoded, json_bytes, balance_key, send, rows, rows_are, returns,
}

-- `_key`
unfoldable pub ledger_key : Text → Result Exc Bytes
unfolding balance_key
ledger_key account = balance_key overflow_error account

-- `_balance`
unfoldable pub balance : Dict Bytes → Text → Result Exc (Option ℕ)
unfolding ledger_key
balance state account = ledger_key account then λ key. ok (number_at (lookup key state))
  where
    number_at : Option Bytes → Option ℕ
    number_at none = none
    number_at (some value) = some (from_le value)

-- A memo: `none` is `_MISSING`.
abbrev pub Memo : Type 0
Memo = Option Json

unfoldable pub with_memo : Memo → Members
with_memo none = no_more
with_memo (some memo) = member (codes "memo") memo no_more

with_event_memo : Memo → Members
unfolding with_memo
with_event_memo (some null) = no_more
with_event_memo memo = with_memo memo

-- The JSON object of a transfer's arguments.
unfoldable pub ft_object : Text → ℤ → Memo → Json
unfolding shown with_memo
ft_object receiver amount memo = object (
    member (codes "receiver_id") (string receiver)
      (member (codes "amount") (string (shown amount)) (with_memo memo)))

-- `_ft_args`
unfoldable pub ft_args : Text → ℤ → Memo → Result Exc Bytes
unfolding json_bytes ft_object
ft_args receiver amount memo = json_bytes false (ft_object receiver amount memo)

-- `_ft_transfer_call_args`
unfoldable pub ft_transfer_call_args : Text → ℤ → Text → Memo → Result Exc Bytes
unfolding json_bytes shown with_memo
ft_transfer_call_args receiver amount msg memo = json_bytes false (
    object (
      member (codes "receiver_id") (string receiver) (
        member (codes "amount") (string (shown amount))
          (member (codes "msg") (string msg) (with_memo memo)))))

-- The line of a NEP-141 event.
unfoldable pub event_line : Bool → Text → Members → Text
unfolding dumps
event_line ascii kind data_of =
    codes "EVENT_JSON:"
    ++ dumps ascii (
        object (
          member (codes "standard") (string (codes "nep141")) (
            member (codes "version") (string (codes "1.0.0")) (
              member (codes "event") (string kind)
                (member (codes "data") (array (element (object data_of) none_left)) no_more)))))

-- `_transfer_event`
unfoldable pub transfer_event : Text → Text → ℤ → Memo → Text
unfolding event_line shown with_event_memo
transfer_event sender receiver amount memo = event_line false (codes "ft_transfer") (
    member (codes "old_owner_id") (string sender) (
      member (codes "new_owner_id") (string receiver)
        (member (codes "amount") (string (shown amount)) (with_event_memo memo))))

json_or_null : Option Text → Json
json_or_null none = null
json_or_null (some t) = string t

refund_memo : Members
refund_memo = member (codes "memo") (string (codes "refund")) no_more

-- `_resolver_event`
unfoldable pub resolver_event : Text → Text → ℤ → Option Text → Text
unfolding event_line shown json_or_null refund_memo
resolver_event kind owner amount sender = event_line true kind (
    if text_eq kind (codes "ft_transfer")
    then member (codes "old_owner_id") (string owner) (
        member (codes "new_owner_id") (json_or_null sender)
          (member (codes "amount") (string (shown amount)) refund_memo))
    else member (codes "owner_id") (string owner)
        (member (codes "amount") (string (shown amount)) refund_memo))

-- `f'"{n}"'.encode()`
unfoldable pub quoted_number : ℤ → Bytes
unfolding shown
quoted_number n = b'"' ∷ (shown n ++ codes "\"")

-- `_metadata_wire`
unfoldable pub metadata_wire : Result Exc Bytes
unfolding json_bytes
metadata_wire = json_bytes true (
    object (
      member (codes "spec") (string (codes "ft-1.0.0")) (
        member (codes "name") (string (codes "ProofForge Token")) (
          member (codes "symbol") (string (codes "PF")) (
            member (codes "icon") null (
              member (codes "reference") null (
                member (codes "reference_hash") null
                  (member (codes "decimals") (number 18) no_more))))))))

-- `raw[1:-1]` behind the test of its quotes.
unfoldable pub unquoted : Bytes → Option Bytes
unquoted raw =
    if leb 3 (length raw)
      && (text_eq (slice 0 1 raw) (codes "\"")
          && text_eq (slice (length raw - 1) 1 raw) (codes "\""))
    then some (slice 1 (length raw - 2) raw)
    else none

refund_event : ℕ → Text → Text → List Text
unfolding resolver_event
refund_event refund receiver sender =
    if refund == 0
    then []
    else resolver_event (codes "ft_transfer") receiver (pos refund) (some sender) ∷ []

-- `f'"{expected}"'.encode()`
wanted_output : Option ℤ → Bytes
unfolding quoted_number
wanted_output none = codes "\"None\""
wanted_output (some n) = quoted_number n

-- `if len(raw) < 3 or ...: raise AssertionError(...)`
some_or_fail : {W : Type 0} → Option Bytes → Suite W Bytes
some_or_fail none w = (err assertion_error, w)
some_or_fail (some inner) w = (ok inner, w)

abbrev same_number : Option ℕ → Option ℕ → Bool
same_number none none = true
same_number none (some n) = false
same_number (some m) none = false
same_number (some m) (some n) = m == n

event_list : Option Text → List Text
event_list none = []
event_list (some event) = event ∷ []

-- The argument bytes of a call: those given, or those made.
unfoldable pub or_args : Option Bytes → Result Exc Bytes → Result Exc Bytes
or_args (some wire) args = ok wire
or_args none args = args

module _ (E : Env) (c : Client) where
  -- `_call`
  unfoldable pub ledger_call : Text → Option Text → Suite E.World Value
  unfolding send
  ledger_call method signer = send E c true c.account_id method [] signer 0

  -- `_supply`: the second word is added above the first one's 64 bits.
  unfoldable pub supply : Suite E.World ℕ
  supply = do
    low ← step (view_u64 E c (codes "supplyW0") [])
    high ← step (view_u64 E c (codes "supplyW1") [])
    compute (ok (low + high * 2 ^ 64))

  -- `_json_balance`
  unfoldable pub json_balance : Bytes → Suite E.World ℤ
  unfolding unquoted some_or_fail
  json_balance account = do
    raw ←
        step (
          view E c (codes "ft_balance_of") (codes "{\"account_id\":\"" ++ (account ++ codes "\"}")))
    inner ← some_or_fail (unquoted raw)
    compute (to_int E.parse_int (bytes inner))

  -- `_json_balance_fails`
  unfoldable pub json_balance_fails : Bytes → Suite E.World (Unit {0})
  unfolding refused
  json_balance_fails account =
      refused
        (view E c (codes "ft_balance_of") (codes "{\"account_id\":\"" ++ (account ++ codes "\"}")))

  -- `_json_supply`
  unfoldable pub json_supply : Bytes → Suite E.World ℤ
  unfolding unquoted some_or_fail quoted_number
  json_supply wire = do
    raw ← step (view E c (codes "ft_total_supply") wire)
    inner ← some_or_fail (unquoted raw)
    value ← compute (to_int E.parse_int (bytes inner))
    assert (text_eq raw (quoted_number value))
    compute (ok value)

  -- `_storage_balance`
  unfoldable pub storage_balance : Text → Suite E.World Bytes
  unfolding json_bytes
  storage_balance account = do
    wire ← compute (json_bytes true (object (member (codes "account_id") (string account) no_more)))
    step (view E c (codes "storage_balance_of") wire)

  -- The logs of a response are exactly the lines given.
  unfoldable pub logs_are : Value → List Text → Suite E.World (Unit {0})
  unfolding receipt_logs same_logs
  logs_are response expected = do
    logs ← compute (receipt_logs response)
    assert (same_logs logs expected)

  -- `_ft_transfer`
  unfoldable pub ft_transfer :
      Text → ℤ → Option Text → Memo → Option Bytes → Suite E.World (Unit {0})
  unfolding or_args ft_args send returns logs_are transfer_event
  ft_transfer receiver amount signer memo wire = do
    args ← compute (or_args wire (ft_args receiver amount memo))
    response ← send E c true c.account_id (codes "ft_transfer") args signer 1
    returns E c response []
    logs_are response (transfer_event (or_self signer c.account_id) receiver amount memo ∷ [])

  -- `_ft_transfer_fails`
  unfoldable pub ft_transfer_fails :
      Text → ℤ → Option Text → ℕ → Memo → Option Bytes → Suite E.World (Unit {0})
  unfolding rows rows_are logs_are send or_args ft_args
  ft_transfer_fails receiver amount signer deposit memo wire = do
    before ← rows E c none
    args ← compute (or_args wire (ft_args receiver amount memo))
    response ← send E c false c.account_id (codes "ft_transfer") args signer deposit
    logs_are response []
    rows_are E c none before

  -- `_ft_transfer_call`
  unfoldable pub ft_transfer_call :
      Text → ℤ → Text → ℤ → ℕ → Option Text → Memo → Bool → Suite E.World Value
  unfolding ft_transfer_call_args quoted_number returns logs_are transfer_event refund_event
  ft_transfer_call receiver amount msg used refund signer memo child_failure = do
    let sender = or_self signer c.account_id
    args ← compute (ft_transfer_call_args receiver amount msg memo)
    response ← step (
        call_on E c c.account_id (codes "ft_transfer_call") args (not child_failure)
          (pos (200 * 10 ^ 12)) (pos 1) signer)
    returns E c response (quoted_number used)
    logs_are response
        (transfer_event sender receiver amount memo ∷ refund_event refund receiver sender)
    compute (ok response)

  -- `_ft_transfer_call_fails`
  unfoldable pub ft_transfer_call_fails :
      Text → ℤ → Option Text → ℕ → Text → Suite E.World (Unit {0})
  unfolding rows rows_are logs_are ft_transfer_call_args
  ft_transfer_call_fails receiver amount signer deposit msg = do
    before ← rows E c none
    args ← compute (ft_transfer_call_args receiver amount msg none)
    response ← step (
        call_on E c c.account_id (codes "ft_transfer_call") args false (pos (200 * 10 ^ 12))
          (pos deposit) signer)
    logs_are response []
    rows_are E c none before

  -- `_resolve`
  unfoldable pub resolve : Text → Option ℤ → Option Text → Bool → Bool → Bytes → Suite E.World Value
  unfolding rows rows_are receipt_logs returns same_logs event_list wanted_output
  resolve method expected event expect_success child_failure wire = do
    before ← rows E c none
    response ← step (
        call_on E c c.account_id method wire (expect_success && not child_failure)
          (pos (100 * 10 ^ 12)) (pos 0) none)
    logs ← compute (receipt_logs response)
    elim expect_success [
      | true ↦ do
        returns E c response (wanted_output expected)
        assert (same_logs logs (event_list event))
      | false ↦ do assert (same_logs logs []); rows_are E c none before
    ]
    compute (ok response)

  -- `_call(client, method, signer=signer)`, whose response is dropped.
  unfoldable pub act_as : Option Text → Text → Suite E.World (Unit {0})
  unfolding ledger_call
  act_as signer method = do response ← ledger_call method signer; pass

  unfoldable pub act : Text → Suite E.World (Unit {0})
  unfolding act_as
  act method = act_as none method

  -- `if _balance(state, account) != expected: raise AssertionError(...)`
  unfoldable pub balance_is : Dict Bytes → Text → Option ℕ → Suite E.World (Unit {0})
  unfolding balance
  balance_is state account expected = do
    found ← compute (balance state account)
    assert (same_number found expected)

  -- `if _supply(client) != expected: raise AssertionError(...)`
  unfoldable pub supply_is : ℕ → Suite E.World (Unit {0})
  unfolding supply
  supply_is expected = do found ← supply; assert (found == expected)

  -- `if _json_balance(client, account) != expected: raise AssertionError(...)`
  unfoldable pub json_balance_is : Bytes → ℕ → Suite E.World (Unit {0})
  unfolding json_balance int_eq
  json_balance_is account expected = do
    found ← json_balance account
    assert (int_eq found (pos expected))

  unfoldable pub json_supply_is : Bytes → ℕ → Suite E.World (Unit {0})
  unfolding json_supply int_eq
  json_supply_is wire expected = do found ← json_supply wire; assert (int_eq found (pos expected))

  -- `if _storage_balance(client, account) != expected: raise AssertionError(...)`
  unfoldable pub storage_balance_is : Text → Bytes → Suite E.World (Unit {0})
  unfolding storage_balance
  storage_balance_is account expected = do
    found ← storage_balance account
    assert (text_eq found expected)

  -- Whether a state has a row for the account.
  unfoldable pub has_row : Dict Bytes → Text → Suite E.World Bool
  unfolding ledger_key
  has_row state account = do
    key ← compute (ledger_key account)
    compute (ok (is_some (lookup key state)))

  -- The state has no row for the account and the supply is zero.
  unfoldable pub gone : Text → Suite E.World (Unit {0})
  unfolding rows has_row supply_is
  gone account = do
    state ← rows E c none
    found ← has_row state account
    assert (not found)
    supply_is 0
