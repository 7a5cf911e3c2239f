-- ===== src/Suites/Ledger/Transfer.antt =====
-- What a pass of `_ft_transfer` and of `_ft_transfer_fails` says of the node.
use proof_forge_near.Prelude.{
  ◌≡◌, ◌↔◌, refl, ℕ, ◌*◌, ◌^◌, true, false, Option, none, some, [], ◌∷◌, Text, Bytes, codes,
}
use proof_forge_near.Py.Result.{Result, ok}
use proof_forge_near.Py.Int.{ℤ, pos}
use proof_forge_near.Py.Dict.{Dict, dict_eq}
use proof_forge_near.Py.Value.{Value, nil}
use proof_forge_near.Rpc.Exc.{Exc}
use proof_forge_near.Rpc.Exec.{Exec}
use proof_forge_near.Rpc.Env.{Env, Client}
use proof_forge_near.Rpc.Query.{or_self, view_state_values}
use proof_forge_near.Rpc.View.{success_value_bytes}
use proof_forge_near.Rpc.Send.{call_on}
use proof_forge_near.Suites.Play.{Suite, ◌>>=◌, step, compute}
use proof_forge_near.Suites.Matrix.{default_gas}
use proof_forge_near.Suites.Steps.{bind-ok_iff, computed-ok_iff, stepped-ok_iff}
use proof_forge_near.Suites.Receipts.{receipt_logs}
use proof_forge_near.Suites.Token.{send, rows, rows_are, returns}
use proof_forge_near.Suites.Token.Checks.{
  log_items, returns-ok_iff, logs_are-ok_iff, rows_are-ok_iff,
}
use proof_forge_near.Suites.Ledger.{
  Memo, ft_args, or_args, transfer_event, logs_are, ft_transfer, ft_transfer_fails,
  ft_transfer_call_args, ft_transfer_call_fails,
}

module _ (E : Env) (c : Client) where
  pub ft_transfer-ok_iff :
      (receiver : Text) (amount : ℤ) (signer : Option Text) (memo : Memo) (wire : Option Bytes)
      (w w' : E.World)
      → (ft_transfer E c receiver amount signer memo wire w ≡ (ok tt, w')) ↔ (
          (args : Bytes) × (or_args wire (ft_args receiver amount memo) ≡ ok args)
          × ((response : Value) × (call_on E c c.account_id
                  (codes "ft_transfer")
                  args
                  true
                  default_gas
                  (pos 1)
                  signer
                  w
                ≡ (ok response, w'))
              × (success_value_bytes E.b64decode response ≡ ok (some []))
              × (receipt_logs response
                  ≡ ok (
                      log_items
                        (transfer_event (or_self signer c.account_id) receiver amount memo ∷ [])))))
  unfolding ft_transfer send
  ft_transfer-ok_iff receiver amount signer memo wire w w' =
      let event = transfer_event (or_self signer c.account_id) receiver amount memo in
      let made = or_args wire (ft_args receiver amount memo) in
      let called : Bytes → Exec E.World Value = λ args.
        call_on E c c.account_id (codes "ft_transfer") args true default_gas (pos 1) signer in
      let checks : Value → Suite E.World (Unit {0}) =
        λ response. returns E c response [] >>= λ _. logs_are E c response (event ∷ []) in
      let after_args = computed-ok_iff made (λ args. step (called args) >>= checks) w w' tt in
      (
        λ e.
            let (args, is_made, r1) = after_args.0 e in
            let (response, w1, e2, r2) = (stepped-ok_iff (called args) checks w w' tt).0 r1 in
            let (u, w2, e3, r3) =
              (bind-ok_iff (returns E c response []) (λ _. logs_are E c response (event ∷ [])) w1 w'
                  tt).0
                r2 in
            let (empty, same) = (returns-ok_iff E c response [] w1 w2).0 e3 in
            let (logged, there) = (logs_are-ok_iff E c response (event ∷ []) w2 w').0 r3 in
            (args, is_made, (response, rw (same, there) at e2, empty, logged)),
        λ (args, is_made, (response, e2, empty, logged)).
            let returned = (returns-ok_iff E c response [] w' w').1 (empty, refl) in
            let lines = (logs_are-ok_iff E c response (event ∷ []) w' w').1 (logged, refl) in
            after_args.1 (
              args,
              is_made,
              (stepped-ok_iff (called args) checks w w' tt).1 (response, w', e2, rw returned lines),
            ),
      )

  -- A call whose argument bytes are made behind the first reading of the state, that logs nothing and
  -- behind which the state has the rows that it had.
  abbrev pub Silent : Result Exc Bytes → (Bytes → Exec E.World Value) → E.World → E.World → Type 0
  Silent made called w w' =
      (before : Dict Bytes) × (w1 : E.World) × (view_state_values E c none w ≡ (ok before, w1))
      × ((args : Bytes) × (made ≡ ok args)
          × ((response : Value) × (w2 : E.World) × (called args w1 ≡ (ok response, w2))
              × (receipt_logs response ≡ ok nil)
              × ((after : Dict Bytes) × (view_state_values E c none w2 ≡ (ok after, w'))
                  × (dict_eq after before ≡ true))))

  Silent-iff :
      (made : Result Exc Bytes) (called : Bytes → Exec E.World Value) (w w' : E.World)
      → ((rows E c none >>= λ before. compute made >>= λ args. step (called args) >>= λ response.
              logs_are E c response [] >>= λ _. rows_are E c none before)
            w
          ≡ (ok tt, w'))
        ↔ Silent made called w w'
  unfolding rows
  Silent-iff made called w w' =
      let checks : Dict Bytes → Value → Suite E.World (Unit {0}) =
        λ before response. logs_are E c response [] >>= λ _. rows_are E c none before in
      let sent : Dict Bytes → Bytes → Suite E.World (Unit {0}) =
        λ before args. step (called args) >>= checks before in
      let read =
        stepped-ok_iff (view_state_values E c none) (λ before. compute made >>= sent before) w w'
          tt in
      (
        λ e.
            let (before, w1, e1, r1) = read.0 e in
            let (args, is_made, r2) = (computed-ok_iff made (sent before) w1 w' tt).0 r1 in
            let (response, w2, e2, r3) =
              (stepped-ok_iff (called args) (checks before) w1 w' tt).0 r2 in
            let (u, w3, e3, r4) =
              (bind-ok_iff (logs_are E c response []) (λ _. rows_are E c none before) w2 w' tt).0
                r3 in
            let (silent, same) = (logs_are-ok_iff E c response [] w2 w3).0 e3 in
            let kept = (rows_are-ok_iff E c none before w3 w').0 r4 in
            (before, w1, e1, (args, is_made, (response, w3, rw same at e2, silent, kept))),
        λ (before, w1, e1, (args, is_made, (response, w2, e2, silent, kept))).
            let quiet = (logs_are-ok_iff E c response [] w2 w2).1 (silent, refl) in
            let same = (rows_are-ok_iff E c none before w2 w').1 kept in
            read.1 (
              before,
              w1,
              e1,
              (computed-ok_iff made (sent before) w1 w' tt).1 (
                args,
                is_made,
                (stepped-ok_iff (called args) (checks before) w1 w' tt).1
                    (response, w2, e2, rw quiet same),
              ),
            ),
      )

  pub ft_transfer_fails-ok_iff :
      (receiver : Text) (amount : ℤ) (signer : Option Text) (deposit : ℕ) (memo : Memo)
      (wire : Option Bytes) (w w' : E.World)
      → (ft_transfer_fails E c receiver amount signer deposit memo wire w ≡ (ok tt, w'))
        ↔ Silent
            (or_args wire (ft_args receiver amount memo))
            (λ args.
              call_on E c c.account_id
                (codes "ft_transfer")
                args
                false
                default_gas
                (pos deposit)
                signer)
            w
            w'
  unfolding ft_transfer_fails send
  ft_transfer_fails-ok_iff receiver amount signer deposit memo wire w w' =
      Silent-iff (or_args wire (ft_args receiver amount memo))
        (λ args.
          call_on E c c.account_id (codes "ft_transfer") args false default_gas (pos deposit)
            signer)
        w w'

  pub ft_transfer_call_fails-ok_iff :
      (receiver : Text) (amount : ℤ) (signer : Option Text) (deposit : ℕ) (msg : Text)
      (w w' : E.World)
      → (ft_transfer_call_fails E c receiver amount signer deposit msg w ≡ (ok tt, w'))
        ↔ Silent
            (ft_transfer_call_args receiver amount msg none)
            (λ args.
              call_on E c c.account_id
                (codes "ft_transfer_call")
                args
                false
                (pos (200 * 10 ^ 12))
                (pos deposit)
                signer)
            w
            w'
  unfolding ft_transfer_call_fails
  ft_transfer_call_fails-ok_iff receiver amount signer deposit msg w w' =
      Silent-iff (ft_transfer_call_args receiver amount msg none)
        (λ args.
          call_on E c c.account_id (codes "ft_transfer_call") args false (pos (200 * 10 ^ 12))
            (pos deposit) signer)
        w w'
