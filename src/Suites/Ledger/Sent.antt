-- ===== src/Suites/Ledger/Sent.antt =====
-- What a pass of `_ft_transfer` says of the node.
use proof_forge_near.Prelude.{◌≡◌, ℕ, true, Option, some, [], Text, Bytes, codes}
use proof_forge_near.Py.Result.{ok}
use proof_forge_near.Py.Int.{pos}
use proof_forge_near.Py.Value.{Value, str, nil, item}
use proof_forge_near.Rpc.Env.{Env, Client}
use proof_forge_near.Rpc.Query.{or_self}
use proof_forge_near.Rpc.View.{success_value_bytes}
use proof_forge_near.Rpc.Send.{call_on}
use proof_forge_near.Suites.Matrix.{default_gas}
use proof_forge_near.Suites.Receipts.Logs.{Logged, receipt_logs-Logged}
use proof_forge_near.Suites.Ledger.{ft_transfer, transfer_event}
use proof_forge_near.Suites.Ledger.Wire.{memo_of}
use proof_forge_near.Suites.Ledger.Event.{read_event, read_event-transfer_event}
use proof_forge_near.Suites.Ledger.Refused.{Sends, args-Sends}
use proof_forge_near.Suites.Ledger.Transfer.{ft_transfer-ok_iff}

-- Where `_ft_transfer` ends well for an amount that is not negative: the call with one yocto sent the
-- given bytes, or a text of that receiver, amount and memo; the success value of its response is
-- empty; and the logs of all its receipts together are one line, an event that gives the signer, the
-- receiver and the amount back.
pub ft_transfer_sound :
    (E : Env) (c : Client) (receiver : Text) (amount : ℕ) (signer : Option Text)
    (memo : Option (Option Text)) (wire : Option Bytes) (w w' : E.World)
    → ft_transfer E c receiver (pos amount) signer (memo_of memo) wire w ≡ (ok tt, w')
    → (args : Bytes) × Sends receiver amount memo wire args
      × ((response : Value) × (call_on E c c.account_id
              (codes "ft_transfer")
              args
              true
              default_gas
              (pos 1)
              signer
              w
            ≡ (ok response, w'))
          × (success_value_bytes E.b64decode response ≡ ok (some []))
          × ((line : Text) × Logged response (item (str line) nil)
              × (read_event line ≡ some (or_self signer c.account_id, receiver, amount))))
ft_transfer_sound E c receiver amount signer memo wire w w' e =
    let (args, made, (response, e1, empty, logs)) =
      (ft_transfer-ok_iff E c receiver (pos amount) signer (memo_of memo) wire w w').0 e in
    let sender = or_self signer c.account_id in
    let line = transfer_event sender receiver (pos amount) (memo_of memo) in
    (
      args,
      args-Sends receiver amount memo wire args made,
      (
        response,
        e1,
        empty,
        (
          line,
          receipt_logs-Logged response (item (str line) nil) logs,
          read_event-transfer_event sender receiver amount memo,
        ),
      ),
    )
