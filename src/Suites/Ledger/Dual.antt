-- ===== src/Suites/Ledger/Dual.antt =====
-- The last scenes of runtime-tests/near/ledger.py: one receiver that answers at once or by a promise.
use proof_forge_near.Prelude.{
  ℕ, ◌+◌, ◌-◌, ◌^◌, Bool, true, false, none, some, List, [], ◌∷◌, ◌++◌, Text, Bytes, codes,
}
use proof_forge_near.Py.Result.{ok}
use proof_forge_near.Py.Int.{pos}
use proof_forge_near.Py.Dict.{Dict}
use proof_forge_near.Py.Json.{string, object, no_more, member}
use proof_forge_near.Rpc.Env.{Env, Client}
use proof_forge_near.Rpc.View.{view_u64_on}
use proof_forge_near.Rpc.Send.{deploy_to}
use proof_forge_near.Suites.Play.{Suite, ◌>>=◌, ◌>>◌, step, compute, assert, pass}
use proof_forge_near.Suites.Token.{json_bytes, send, rows, number_is}
use proof_forge_near.Suites.Ledger.{ft_transfer_call, act, balance_is, supply_is, has_row}

abbrev conserved : ℕ
conserved = 2 ^ 64 + 1

abbrev dual : Text
dual = codes "partial.test.near"

-- One row of `dual_scenes`.
pub record DualRow : Type 0 where
  pub msg : Text
  pub decoded_length : ℕ
  pub used : ℕ
  pub refund : ℕ
  pub sender_after : ℕ
  pub receiver_after : ℕ
  pub child_failed : Bool

dual_row : Text → ℕ → ℕ → ℕ → ℕ → ℕ → Bool → DualRow
dual_row msg decoded_length used refund sender_after receiver_after child_failed = record {
  msg = msg;
  decoded_length = decoded_length;
  used = used;
  refund = refund;
  sender_after = sender_after;
  receiver_after = receiver_after;
  child_failed = child_failed;
}

-- `dual_scenes`
unfoldable pub dual_rows : List DualRow
unfolding dual_row
dual_rows =
    dual_row [] 0 0 10 conserved 0 false
    ∷ dual_row (codes "a") 1 10 0 (conserved - 10) 10 false
    ∷ dual_row (codes "ab") 2 7 3 (conserved - 7) 7 false
    ∷ dual_row (codes "雪") 3 7 3 (conserved - 7) 7 false
    ∷ dual_row (codes "abcd") 4 0 10 conserved 0 true
    ∷ dual_row (codes "abcde") 5 0 10 conserved 0 false
    ∷ []

module _ (E : Env) (c : Client) where
  -- The rows of both accounts behind a call.
  settled : ℕ → ℕ → Suite E.World (Dict Bytes)
  unfolding rows balance_is
  settled sender_after receiver_after = do
    state ← rows E c none
    balance_is E c state c.account_id (some sender_after)
    balance_is E c state dual (some receiver_after)
    compute (ok state)

  -- What the receiver has counted, and the length of the last message.
  receiver_is : ℕ → ℕ → Suite E.World (Unit {0})
  unfolding number_is
  receiver_is calls decoded_length = do
    number_is E c dual (codes "get") calls
    number_is E c dual (codes "lastMsgLength") decoded_length

  -- The body of the loop over `dual_scenes`.
  unfoldable pub play_dual : ℕ → DualRow → Suite E.World (Unit {0})
  unfolding act ft_transfer_call settled has_row supply_is receiver_is
  play_dual call_index r = do
    act E c (codes "fixtureTransferCall")
    response ←
        ft_transfer_call E c dual (pos 10) r.msg (pos r.used) r.refund none none r.child_failed
    state ← settled r.sender_after r.receiver_after
    found ← has_row E c state dual
    assert found
    supply_is E c conserved
    receiver_is call_index r.decoded_length

  -- `for call_index, row in enumerate(rows, start)`
  play_all : ℕ → List DualRow → Suite E.World (Unit {0})
  unfolding play_dual
  play_all index [] = pass
  play_all index (r ∷ rest) = do play_dual index r; play_all (index + 1) rest

  rollback_scene : Suite E.World (Unit {0})
  unfolding json_bytes send number_is
  rollback_scene = do
    before ← step (view_u64_on E c dual (codes "get") [])
    wire ← compute (
        json_bytes true (
          object (
            member (codes "sender_id") (string c.account_id) (
              member (codes "amount") (string (codes "10"))
                (member (codes "msg") (string (codes "rollback")) no_more)))))
    paid ← send E c false dual (codes "ft_on_transfer") wire none 1
    trailing ← send E c false dual (codes "ft_on_transfer") (wire ++ codes "0") none 0
    number_is E c dual (codes "get") before

  source_error_scene : Suite E.World (Unit {0})
  unfolding send act ft_transfer_call settled supply_is receiver_is
  source_error_scene = do
    set ← send E c true dual (codes "fixtureSetCallsMax") [] none 0
    act E c (codes "fixtureTransferCall")
    response ← ft_transfer_call E c dual (pos 10) (codes "a") (pos 0) 10 none none true
    state ← settled conserved 0
    supply_is E c conserved
    receiver_is (2 ^ 64 - 1) 63

  -- The scenes behind the seventeenth line printed; the code is that of `PF_NEAR_RECEIVER_DUAL_WASM`.
  unfoldable pub dual_scenes : Bytes → Suite E.World (Unit {0})
  unfolding send play_all dual_rows rollback_scene source_error_scene
  dual_scenes wasm = do
    deployed ← step (deploy_to E c dual wasm)
    initialized ← send E c true dual (codes "initialize") [] (some dual) 0
    play_all 1 dual_rows
    rollback_scene
    source_error_scene
