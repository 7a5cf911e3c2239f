-- ===== src/Suites/Scene/Sound.antt =====
-- The keys under which the contracts keep their rows, and what a pass of a scene says of the node.
use proof_forge_near.Prelude.{
  append-cancel, prefix-cancel, ◌≡◌, ◌↔◌, refl, ap, sym, ◌∙◌, ℕ, ◌^◌, ◌<◌, true, false, [], ◌++◌,
  Text, Bytes, length, drop, Option, none,
}
use proof_forge_near.Py.Result.{ok}
use proof_forge_near.Py.Bytes.{to_le, from_le, from_le-to_le}
use proof_forge_near.Py.Int.{pos}
use proof_forge_near.Py.Dict.{Dict, dict_eq, dict_eq_iff, lookup}
use proof_forge_near.Py.Value.{Value}
use proof_forge_near.Rpc.Env.{Env, Client}
use proof_forge_near.Rpc.Query.{view_state_values}
use proof_forge_near.Rpc.Send.{call_on}
use proof_forge_near.Rpc.Send.Failed.{ShowsFailure, call_on-ShowsFailure}
use proof_forge_near.Rpc.View.Observe.{view_state_values-NodupKeys}
use proof_forge_near.Suites.Play.{Suite, ◌>>=◌, step, assert}
use proof_forge_near.Suites.Matrix.{default_gas}
use proof_forge_near.Suites.Steps.{bind-ok_iff, step-ok_iff, assert-ok_iff}
use proof_forge_near.Suites.Scene.{index_key, account_key, fail_unchanged, state, state_is}

-- Two indices that fit have one key only when they are one index.
pub index_key-injective :
    (width : ℕ) (prefix : Bytes) (i j : ℕ)
    → i < 256 ^ width
    → j < 256 ^ width
    → index_key width prefix i ≡ index_key width prefix j
    → i ≡ j
unfolding index_key
index_key-injective width prefix i j hi hj e =
    let same = append-cancel prefix (to_le width i) (to_le width j) e in
    sym (from_le-to_le width i hi) ∙ (ap from_le same ∙ from_le-to_le width j hj)

-- The keys of two maps whose prefixes are as long, as all are four bytes long, are one key only when
-- the maps have one prefix and the account names are one name.
pub account_key-injective :
    (p q a b : Bytes) → length p ≡ length q → account_key p a ≡ account_key q b → (p ≡ q) × (a ≡ b)
unfolding account_key to_le
account_key-injective p q a b n e =
    let same = prefix-cancel p q (to_le 4 (length a) ++ a) (to_le 4 (length b) ++ b) n e in
    let framed =
      append-cancel q (to_le 4 (length a) ++ a) (to_le 4 (length b) ++ b) (rw same at e) in
    (same, ap (drop 4) framed)

fail_unchanged-ok_iff :
    (E : Env) (c : Client) (method : Text) (signer : Option Text) (w w' : E.World)
    → (fail_unchanged E c method signer w ≡ (ok tt, w')) ↔ (
        (before : Dict Bytes) × (w1 : E.World) × (view_state_values E c none w ≡ (ok before, w1))
        × ((receipt : Value) × (w2 : E.World) × (call_on E c c.account_id method [] false
                default_gas
                (pos 0)
                signer
                w1
              ≡ (ok receipt, w2))
            × ((after : Dict Bytes) × (view_state_values E c none w2 ≡ (ok after, w'))
                × (dict_eq after before ≡ true))))
unfolding fail_unchanged state state_is
fail_unchanged-ok_iff E c method signer w w' = (
  λ e.
      let rows = step (view_state_values E c none) in
      let compared : Dict Bytes → Suite E.World (Unit {0}) =
        λ before. rows >>= λ after. assert (dict_eq after before) in
      let called = call_on E c c.account_id method [] false default_gas (pos 0) signer in
      let (before, w1, e1, r1) =
        (bind-ok_iff rows (λ before. step called >>= λ receipt. compared before) w w' tt).0 e in
      let (receipt, w2, e2, r2) =
        (bind-ok_iff (step called) (λ receipt. compared before) w1 w' tt).0 r1 in
      let (after, w3, e3, r3) =
        (bind-ok_iff rows (λ after. assert (dict_eq after before)) w2 w' tt).0 r2 in
      let (same, there) = (assert-ok_iff (dict_eq after before) w3 w').0 r3 in
      (
        before,
        w1,
        (step-ok_iff (view_state_values E c none) w w1 before).0 e1,
        (
          receipt,
          w2,
          (step-ok_iff called w1 w2 receipt).0 e2,
          (after, (step-ok_iff (view_state_values E c none) w2 w' after).0 (rw there at e3), same),
        ),
      ),
  λ (before, w1, e1, (receipt, w2, e2, (after, e3, same))). rw (e1, e2, e3, same) refl,
)

-- Two states that were read and are equal agree on every key.
pub same_rows :
    (E : Env) (c : Client) (w w1 w2 w3 : E.World) (before after : Dict Bytes)
    → view_state_values E c none w ≡ (ok before, w1)
    → view_state_values E c none w2 ≡ (ok after, w3)
    → dict_eq after before ≡ true
    → (k : Text) → lookup k after ≡ lookup k before
same_rows E c w w1 w2 w3 before after e1 e2 same =
    (dict_eq_iff after before (view_state_values-NodupKeys E c none w2 after (ap (λ o. o.0) e2))
        (view_state_values-NodupKeys E c none w before (ap (λ o. o.0) e1))).0
      same

-- Where `_fail_unchanged` ends well, the state was read, the call behind that reading was answered by a
-- response whose status, or that of one of its receipts, is a failure, and the state that was read
-- behind the call has the same value, or none, under every key.
pub fail_unchanged_sound :
    (E : Env) (c : Client) (method : Text) (signer : Option Text) (w w' : E.World)
    → fail_unchanged E c method signer w ≡ (ok tt, w')
    → (before : Dict Bytes) × (w1 : E.World) × (view_state_values E c none w ≡ (ok before, w1))
      × ((response : Value) × (w2 : E.World) × (call_on E c c.account_id method [] false default_gas
              (pos 0)
              signer
              w1
            ≡ (ok response, w2))
          × ShowsFailure response
          × ((after : Dict Bytes) × (view_state_values E c none w2 ≡ (ok after, w'))
              × ((k : Text) → lookup k after ≡ lookup k before)))
fail_unchanged_sound E c method signer w w' e =
    let (before, w1, e1, (response, w2, e2, (after, e3, same))) =
      (fail_unchanged-ok_iff E c method signer w w').0 e in
    let fails =
      call_on-ShowsFailure E c c.account_id method [] default_gas (pos 0) signer w1 w2 response
        e2 in
    (
      before,
      w1,
      e1,
      (response, w2, e2, fails, (after, e3, same_rows E c w w1 w2 w' before after e1 e3 same)),
    )
