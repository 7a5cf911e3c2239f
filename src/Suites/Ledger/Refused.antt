-- ===== src/Suites/Ledger/Refused.antt =====
-- What a pass of `_ft_transfer_fails` says of the node.
use proof_forge_near.Prelude.{
  ◌≡◌, ap, ◌∙◌, ℕ, false, Option, Option-cases, inl, inr, none, some, Text, Bytes, codes, arith,
}
use proof_forge_near.Py.Result.{ok}
use proof_forge_near.Py.Int.{pos}
use proof_forge_near.Py.Dict.{Dict, lookup}
use proof_forge_near.Py.Json.{dumps}
use proof_forge_near.Py.Utf8.{encode}
use proof_forge_near.Py.Value.{Value}
use proof_forge_near.Rpc.Env.{Env, Client}
use proof_forge_near.Rpc.Query.{view_state_values}
use proof_forge_near.Rpc.Send.{call_on}
use proof_forge_near.Rpc.Send.Failed.{ShowsFailure, call_on-ShowsFailure}
use proof_forge_near.Suites.Matrix.{default_gas}
use proof_forge_near.Suites.Scene.Sound.{same_rows}
use proof_forge_near.Suites.Receipts.Logs.{LogsNothing, receipt_logs-LogsNothing}
use proof_forge_near.Suites.Token.{encoded, json_bytes}
use proof_forge_near.Suites.Ledger.{ft_args, ft_object, or_args, ft_transfer_fails}
use proof_forge_near.Suites.Ledger.Wire.{memo_of, read_transfer, read_transfer-ft_object}
use proof_forge_near.Suites.Ledger.Transfer.{ft_transfer_fails-ok_iff}

-- The argument bytes are the given ones, or the UTF-8 of a text that gives the receiver, the amount and
-- the memo back.
unfoldable pub Sends : Text → ℕ → Option (Option Text) → Option Bytes → Bytes → Type 0
Sends receiver amount memo none args =
    (text : Text) × (encode text ≡ some args) × (read_transfer text ≡ some (receiver, amount, memo))
Sends receiver amount memo (some wire) args = args ≡ wire

pub args-Sends :
    (receiver : Text) (amount : ℕ) (memo : Option (Option Text)) (wire : Option Bytes)
    (args : Bytes)
    → or_args wire (ft_args receiver (pos amount) (memo_of memo)) ≡ ok args
    → Sends receiver amount memo wire args
unfolding Sends or_args ft_args json_bytes encoded
args-Sends receiver amount memo (some wire) args e = cc
args-Sends receiver amount memo none args e =
    let text = dumps false (ft_object receiver (pos amount) (memo_of memo)) in
    elim (Option-cases (encode text)) [
      | inl bad ↦ absurd (ground (arith, bad, e))
      | inr (b, q) ↦
          let same : b ≡ args = ground (arith, q, e) in
          (text, q ∙ ap some same, read_transfer-ft_object receiver amount memo)
    ]

-- Where `_ft_transfer_fails` ends well for an amount that is not negative: the state was read; the call
-- behind it sent the given bytes, or a text of that receiver, amount and memo; its response shows a
-- failure and no receipt has a log; and the state that was read behind it has the same value, or none,
-- under every key.
pub ft_transfer_fails_sound :
    (E : Env) (c : Client) (receiver : Text) (amount : ℕ) (signer : Option Text) (deposit : ℕ)
    (memo : Option (Option Text)) (wire : Option Bytes) (w w' : E.World)
    → ft_transfer_fails E c receiver (pos amount) signer deposit (memo_of memo) wire w ≡ (ok tt, w')
    → (before : Dict Bytes) × (w1 : E.World) × (view_state_values E c none w ≡ (ok before, w1))
      × ((args : Bytes) × Sends receiver amount memo wire args
          × ((response : Value) × (w2 : E.World) × (call_on E c c.account_id
                  (codes "ft_transfer")
                  args
                  false
                  default_gas
                  (pos deposit)
                  signer
                  w1
                ≡ (ok response, w2))
              × ShowsFailure response
              × LogsNothing response
              × ((after : Dict Bytes) × (view_state_values E c none w2 ≡ (ok after, w'))
                  × ((k : Text) → lookup k after ≡ lookup k before))))
ft_transfer_fails_sound E c receiver amount signer deposit memo wire w w' e =
    let (before, w1, e1, (args, made, (response, w2, e2, silent, (after, e3, same)))) =
      (ft_transfer_fails-ok_iff E c receiver (pos amount) signer deposit (memo_of memo) wire w w').0
        e in
    let fails =
      call_on-ShowsFailure E c c.account_id (codes "ft_transfer") args default_gas (pos deposit)
        signer w1 w2 response e2 in
    (
      before,
      w1,
      e1,
      (
        args,
        args-Sends receiver amount memo wire args made,
        (
          response,
          w2,
          e2,
          fails,
          receipt_logs-LogsNothing response silent,
          (after, e3, same_rows E c w w1 w2 w' before after e1 e3 same),
        ),
      ),
    )
