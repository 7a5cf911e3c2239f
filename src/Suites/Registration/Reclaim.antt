-- ===== src/Suites/Registration/Reclaim.antt =====
-- What a pass of `_assert_exact_reclaim` of storage_registration.py says of the node.
use proof_forge_near.Prelude.{
  ◌≡◌, refl, subst, sym, ap, ◌∙◌, Bool, false, Bool-cases, inl, inr, length, arith, ℕ, ◌+◌, ◌*◌,
  ◌==◌, ==_iff, true, not, Option, none, some, [], Text, Bytes, codes, replicate,
}
use proof_forge_near.Py.Result.{Result, ok}
use proof_forge_near.Py.Int.{ℤ, pos}
use proof_forge_near.Py.Dict.{Dict, lookup}
use proof_forge_near.Py.Value.{Value}
use proof_forge_near.Rpc.Exec.{Exec}
use proof_forge_near.Rpc.Env.{Env, Client}
use proof_forge_near.Rpc.Query.{view_account_balance, view_state_values}
use proof_forge_near.Rpc.View.{view_u64_on, success_value_bytes}
use proof_forge_near.Rpc.Wire.{decode_u64_le}
use proof_forge_near.Rpc.Send.{call_on}
use proof_forge_near.Suites.Play.{Stop, Suite, ◌>>=◌, step, compute, assert, is_some_eq}
use proof_forge_near.Suites.Scene.{is_some}
use proof_forge_near.Suites.Matrix.{default_gas}
use proof_forge_near.Suites.Steps.{
  bind-ok_iff, step-ok_iff, compute-ok_iff, assert-ok_iff, computed-ok_iff, stepped-ok_iff,
  check-ok_iff,
}
use proof_forge_near.Suites.Receipts.{assert_paid_receipt}
use proof_forge_near.Suites.Receipts.Paid.{RefundedFrom, assert_paid_receipt-RefundedFrom}
use proof_forge_near.Suites.Token.{send, rows}
use proof_forge_near.Suites.Token.Checks.{is_some_eq_iff}
use proof_forge_near.Suites.Registration.{
  registration_key, int_le, exactly_eight, result_u64, result_is, unregister, reclaimed_exactly,
  assert_exact_reclaim,
}

module _ (E : Env) (c : Client) (contract caller : Text) (expected_delta per_byte : ℕ) where
  exactly_eight-ok :
      (got : Option Bytes) (raw : Bytes) (w w' : E.World)
      → exactly_eight got w ≡ (ok raw, w')
      → (got ≡ some raw) × (length raw ≡ 8) × (w ≡ w')
  unfolding exactly_eight
  exactly_eight-ok none raw w w' e = cc
  exactly_eight-ok (some b) raw w w' e = elim (Bool-cases (length b == 8)) [
    | inr other ↦ absurd (ground (arith, e, other))
    | inl eight ↦
        let given : ◌≡◌ {A = Result Stop Bytes × E.World} (ok b, w) (ok raw, w') = rw eight at e in
        let same : b ≡ raw = cc given in
        (ap some same, ap length (sym same) ∙ (==_iff (length b) 8).0 eight, ap (λ o. o.1) given)
  ]

  -- The outcome's own value is eight bytes of a number.
  abbrev pub Returned : Value → ℕ → Type 0
  Returned outcome n =
      (raw : Bytes) × (success_value_bytes E.b64decode outcome ≡ ok (some raw))
      × (length raw ≡ 8)
      × (decode_u64_le raw 0 ≡ ok n)

  result_u64-ok :
      (outcome : Value) (w w' : E.World) (n : ℕ)
      → result_u64 E c outcome w ≡ (ok n, w')
      → Returned outcome n × (w ≡ w')
  unfolding result_u64
  result_u64-ok outcome w w' n e =
      let found = success_value_bytes E.b64decode outcome in
      let decoded : Bytes → Suite E.World ℕ = λ raw. compute (decode_u64_le raw 0) in
      let (got, known, r1) =
        (computed-ok_iff found (λ got. exactly_eight got >>= decoded) w w' n).0 e in
      let (raw, w1, e1, r2) = (bind-ok_iff (exactly_eight got) decoded w w' n).0 r1 in
      let (is_raw, eight, kept) = exactly_eight-ok got raw w w1 e1 in
      let (is_n, kept') = (compute-ok_iff (decode_u64_le raw 0) w1 w' n).0 r2 in
      ((raw, known ∙ ap ok is_raw, eight, is_n), kept ∙ kept')

  -- The contract's last delta is read from the first world, and the outcome is found to refund its
  -- cost and one yocto from the world behind that reading to the last.
  abbrev pub ReclaimedFrom : Value → E.World → E.World → Type 0
  ReclaimedFrom outcome w w' =
      Returned outcome 1
      × ((v : E.World) × (view_u64_on E c contract (codes "lastDelta") [] w
            ≡ (ok expected_delta, v))
          × RefundedFrom E c caller (pos (expected_delta * per_byte + 1)) outcome v w')

  reclaimed_exactly_sound :
      (outcome : Value) (w w' : E.World)
      → reclaimed_exactly E c contract caller outcome expected_delta per_byte w ≡ (ok tt, w')
      → ReclaimedFrom outcome w w'
  unfolding reclaimed_exactly result_is
  reclaimed_exactly_sound outcome w w' e =
      let read = view_u64_on E c contract (codes "lastDelta") [] in
      let paid : ℕ → Suite E.World (Unit {0}) =
        λ reclaimed. assert_paid_receipt E c outcome caller (pos (reclaimed * per_byte + 1)) in
      let compared : ℕ → Suite E.World (Unit {0}) =
        λ reclaimed. assert (reclaimed == expected_delta) >>= λ _. paid reclaimed in
      let (u, w1, e1, r1) =
        (bind-ok_iff (result_is E c outcome 1) (λ _. step read >>= compared) w w' tt).0 e in
      let (one, got_one, is_one) =
        (check-ok_iff (result_u64 E c outcome) (λ n. n == 1) w w1).0 e1 in
      let (returned, kept) = result_u64-ok outcome w w1 one got_one in
      let (reclaimed, w2, e2, r2) = (stepped-ok_iff read compared w1 w' tt).0 r1 in
      let (u2, w3, e3, r3) =
        (bind-ok_iff (assert (reclaimed == expected_delta)) (λ _. paid reclaimed) w2 w' tt).0 r2 in
      let (same, there) = (assert-ok_iff (reclaimed == expected_delta) w2 w3).0 e3 in
      let is_delta : reclaimed ≡ expected_delta = (==_iff reclaimed expected_delta).0 same in
      let refunded =
        assert_paid_receipt-RefundedFrom E c caller (pos (reclaimed * per_byte + 1)) outcome w3 w'
          r3 in
      (
        subst (λ n. Returned outcome n) ((==_iff one 1).0 is_one) returned,
        (
          w2,
          subst (λ n. read w ≡ (ok n, w2)) is_delta (ap read kept ∙ e2),
          subst (λ n. RefundedFrom E c caller (pos (n * per_byte + 1)) outcome w2 w') is_delta
              (subst (λ v. RefundedFrom E c caller (pos (reclaimed * per_byte + 1)) outcome v w')
                (sym there) refunded),
        ),
      )

  abbrev called : Exec E.World Value
  called = call_on E c contract (codes "unregisterCaller") [] true default_gas (pos 1) (some caller)

  abbrev state_read : Exec E.World (Dict Bytes)
  state_read = view_state_values E c (some contract)

  -- The row is gone at the end.
  abbrev gone_at_end : Bytes → Suite E.World (Unit {0})
  gone_at_end key = step state_read >>= λ after. assert (not (is_some (lookup key after)))

  gone_at_end-ok :
      (key : Bytes) (w w' : E.World)
      → gone_at_end key w ≡ (ok tt, w')
      → (after : Dict Bytes) × (state_read w ≡ (ok after, w')) × (lookup key after ≡ none)
  gone_at_end-ok key w w' e =
      let (after, e1, absent) =
        (check-ok_iff (step state_read) (λ after. not (is_some (lookup key after))) w w').0 e in
      (after, (step-ok_iff state_read w w' after).0 e1, is_none (lookup key after) absent)
    where
      is_none : (o : Option Bytes) → not (is_some o) ≡ true → o ≡ none
      is_none none h = refl
      is_none (some b) h = cc

  -- What stands behind the call: the balance, the refund and the row.
  abbrev behind_call : Bytes → ℤ → Value → Suite E.World (Unit {0})
  behind_call key balance_before outcome =
      step (view_account_balance E c caller) >>= λ balance_after.
      reclaimed_exactly E c contract caller outcome expected_delta per_byte >>= λ _.
      assert (not (int_le balance_after balance_before)) >>= λ _. gone_at_end key

  -- Behind the call: the balance is read and is larger, the refund is found, and the row is gone.
  abbrev pub Behind : Bytes → ℤ → Value → E.World → E.World → Type 0
  Behind key balance_before outcome w w' =
      (balance_after : ℤ) × (w1 : E.World) × (view_account_balance E c caller w
        ≡ (ok balance_after, w1))
      × (int_le balance_after balance_before ≡ false)
      × ((w2 : E.World) × ReclaimedFrom outcome w1 w2
          × ((after : Dict Bytes) × (view_state_values E c (some contract) w2 ≡ (ok after, w'))
              × (lookup key after ≡ none)))

  behind_call-ok :
      (key : Bytes) (balance_before : ℤ) (outcome : Value) (w w' : E.World)
      → behind_call key balance_before outcome w ≡ (ok tt, w')
      → Behind key balance_before outcome w w'
  behind_call-ok key balance_before outcome w w' e =
      let reclaimed = reclaimed_exactly E c contract caller outcome expected_delta per_byte in
      let richer : ℤ → Suite E.World (Unit {0}) =
        λ balance_after. assert (not (int_le balance_after balance_before)) in
      let (balance_after, w1, e1, r1) =
        (stepped-ok_iff (view_account_balance E c caller)
            (λ balance_after. reclaimed >>= λ _. richer balance_after >>= λ _. gone_at_end key) w w'
            tt).0
          e in
      let (u, w2, e2, r2) =
        (bind-ok_iff reclaimed (λ _. richer balance_after >>= λ _. gone_at_end key) w1 w' tt).0
          r1 in
      let (u3, w3, e3, r3) =
        (bind-ok_iff (richer balance_after) (λ _. gone_at_end key) w2 w' tt).0 r2 in
      let (more, kept) = (assert-ok_iff (not (int_le balance_after balance_before)) w2 w3).0 e3 in
      let (after, read, absent) = gone_at_end-ok key w3 w' r3 in
      (
        balance_after,
        w1,
        e1,
        is_false (int_le balance_after balance_before) more,
        (
          w2,
          reclaimed_exactly_sound outcome w1 w2 e2,
          (after, ap (view_state_values E c (some contract)) kept ∙ read, absent),
        ),
      )
    where
      is_false : (b : Bool) → not b ≡ true → b ≡ false
      is_false true h = cc
      is_false false h = refl

  -- Where `_assert_exact_reclaim` ends well, it has, each step in the world that the step before it
  -- left, read the caller's row as sixteen zeros, read a balance, called `unregisterCaller` with one
  -- yocto, read a larger balance, taken the eight bytes of 1 as the outcome's value, read the expected delta, found the
  -- receipt that refunds the caller the cost of that delta and the yocto, and read a state without a
  -- row for the caller.
  pub assert_exact_reclaim_sound :
      (w w' : E.World)
      → assert_exact_reclaim E c contract caller expected_delta per_byte w ≡ (ok tt, w')
      → (key : Bytes) × (registration_key caller ≡ ok key)
        × ((before : Dict Bytes) × (w1 : E.World) × (view_state_values E c (some contract) w
              ≡ (ok before, w1))
            × (lookup key before ≡ some (replicate 16 0))
            × ((balance_before : ℤ) × (w2 : E.World) × (view_account_balance E c caller w1
                  ≡ (ok balance_before, w2))
                × ((outcome : Value) × (w3 : E.World) × (call_on E c contract
                        (codes "unregisterCaller")
                        []
                        true
                        default_gas
                        (pos 1)
                        (some caller)
                        w2
                      ≡ (ok outcome, w3))
                    × Behind key balance_before outcome w3 w')))
  unfolding assert_exact_reclaim rows unregister send
  assert_exact_reclaim_sound w w' e =
      let balance = view_account_balance E c caller in
      let after_row : Bytes → Suite E.World (Unit {0}) =
        λ key. step balance >>= λ before. step called >>= behind_call key before in
      let with_rows : Bytes → Dict Bytes → Suite E.World (Unit {0}) = λ key before.
        assert (is_some_eq (lookup key before) (replicate 16 0)) >>= λ _. after_row key in
      let (key, is_key, r1) =
        (computed-ok_iff (registration_key caller) (λ key. step state_read >>= with_rows key) w w'
            tt).0
          e in
      let (before, w1, e2, r2) = (stepped-ok_iff state_read (with_rows key) w w' tt).0 r1 in
      let zero_row = is_some_eq (lookup key before) (replicate 16 0) in
      let (u3, w3, e3, r3) = (bind-ok_iff (assert zero_row) (λ _. after_row key) w1 w' tt).0 r2 in
      let (zero, kept) = (assert-ok_iff zero_row w1 w3).0 e3 in
      let is_zero = (is_some_eq_iff (lookup key before) (replicate 16 0)).0 zero in
      let (amount, w4, e4, r4) =
        (stepped-ok_iff balance (λ before. step called >>= behind_call key before) w3 w' tt).0 r3 in
      let (outcome, w5, e5, r5) = (stepped-ok_iff called (behind_call key amount) w4 w' tt).0 r4 in
      (
        key,
        is_key,
        (
          before,
          w1,
          e2,
          is_zero,
          (
            amount,
            w4,
            ap balance kept ∙ e4,
            (outcome, w5, e5, behind_call-ok key amount outcome w5 w' r5),
          ),
        ),
      )
