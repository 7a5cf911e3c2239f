-- ===== src/Suites/Ledger/Calls.antt =====
-- The scenes of runtime-tests/near/ledger.py on `ft_transfer_call`.
use proof_forge_near.Prelude.{
  ℕ, ◌+◌, ◌-◌, ◌^◌, Bool, true, false, Option, none, some, List, [], ◌∷◌, ◌++◌, Text, codes,
  replicate,
}
use proof_forge_near.Py.Int.{pos}
use proof_forge_near.Py.Json.{null, string}
use proof_forge_near.Rpc.Env.{Env, Client}
use proof_forge_near.Suites.Play.{Suite, ◌>>=◌, ◌>>◌, assert, each}
use proof_forge_near.Suites.Token.{rows}
use proof_forge_near.Suites.Ledger.{
  Memo, ft_transfer_call, ft_transfer_call_fails, act_as, act, balance_is, supply_is, has_row,
}

abbrev max_u128 : ℕ
max_u128 = 2 ^ 128 - 1

abbrev conserved : ℕ
conserved = 2 ^ 64 + 1

-- One row of `transfer_call_scenes`.
pub record CallRow : Type 0 where
  pub receiver : Text
  pub amount : ℕ
  pub used : ℕ
  pub refund : ℕ
  pub sender_after : ℕ
  pub receiver_after : ℕ
  pub memo : Memo
  pub msg : Text
  pub child_failed : Bool

call_row : Text → ℕ → ℕ → ℕ → ℕ → ℕ → Memo → Text → Bool → CallRow
call_row receiver amount used refund sender_after receiver_after memo msg child_failed = record {
  receiver = receiver;
  amount = amount;
  used = used;
  refund = refund;
  sender_after = sender_after;
  receiver_after = receiver_after;
  memo = memo;
  msg = msg;
  child_failed = child_failed;
}

-- `transfer_call_scenes`
unfoldable pub call_rows : List CallRow
unfolding call_row
call_rows =
    call_row (codes "partial.test.near") 10 7 3 (conserved - 7) 7 none (codes "雪😀" ++ (0 ∷ []))
      false
    ∷ call_row (codes "partial.test.near") (2 ^ 64) (2 ^ 64 - 3) 3 4 (2 ^ 64 - 3) none
        (codes "high-limb") false
    ∷ call_row (codes "full.test.near") 10 0 10 conserved 0 (some null) (replicate 64 b'm') false
    ∷ call_row (codes "malformed.test.near") 10 0 10 conserved 0 (some (string []))
        (codes "bad-result") false
    ∷ call_row (codes "failed.test.near") 10 0 10 conserved 0 (some (string (codes "雪\n")))
        (codes "failed") true
    ∷ []

module _ (E : Env) (c : Client) (caller absent_sender : Text) where
  -- A call to `receiver` that must fail, with one yocto attached.
  call_fails : Option Text → Text → ℕ → Suite E.World (Unit {0})
  unfolding ft_transfer_call_fails
  call_fails signer receiver amount = ft_transfer_call_fails E c receiver (pos amount) signer 1 []

  guard_scene : Suite E.World (Unit {0})
  unfolding act call_fails ft_transfer_call_fails
  guard_scene = do
    act E c (codes "fixtureTransferCall")
    call_fails none c.account_id 1
    call_fails none (codes "partial.test.near") 0
    ft_transfer_call_fails E c (codes "partial.test.near") (pos 1) none 0 []
    ft_transfer_call_fails E c (codes "partial.test.near") (pos 1) none 2 []
    call_fails none (codes "absent-ledger.test.near") 1
    call_fails none (codes "partial.test.near") max_u128
    call_fails (some absent_sender) (codes "partial.test.near") 1

  malformed_scene : Suite E.World (Unit {0})
  unfolding act act_as call_fails
  malformed_scene = do
    act E c (codes "fixtureTransferCall")
    act E c (codes "seedSelfMalformed8")
    call_fails none (codes "partial.test.near") 1
    act E c (codes "fixtureTransferCall")
    act_as E c (some caller) (codes "mintCallerOne")
    act E c (codes "seedSelfMalformed20")
    call_fails (some caller) c.account_id 1
    act E c (codes "fixtureTransferCall")
    act_as E c (some caller) (codes "mintCallerOne")
    act E c (codes "fixturePutSelfMaxNoSupply")
    call_fails (some caller) c.account_id 1

  -- The body of the loop over `transfer_call_scenes`.
  unfoldable pub play_call : CallRow → Suite E.World (Unit {0})
  unfolding act ft_transfer_call rows balance_is has_row supply_is
  play_call r = do
    act E c (codes "fixtureTransferCall")
    response ←
        ft_transfer_call E c r.receiver (pos r.amount) r.msg (pos r.used) r.refund none r.memo
          r.child_failed
    state ← rows E c none
    balance_is E c state c.account_id (some r.sender_after)
    balance_is E c state r.receiver (some r.receiver_after)
    found ← has_row E c state r.receiver
    assert found
    supply_is E c conserved

  -- The scenes between the eleventh line printed and the thirteenth.
  unfoldable pub call_scenes : Suite E.World (Unit {0})
  unfolding guard_scene malformed_scene each play_call call_rows
  call_scenes = do guard_scene; malformed_scene; each play_call call_rows
