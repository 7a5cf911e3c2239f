-- ===== src/Suites/Contract.antt =====
-- What the scenes of a suite ask of a contract's views, and what the suite's checks of them decide.
use proof_forge_near.Prelude.{
  ◌≡◌, refl, ap, ◌⊎◌, inl, inr, ℕ, Bool-cases, Option, none, some, arith, Text, Bytes, text_eq,
  text_eq_iff,
}
use proof_forge_near.Py.Result.{Result, ok, err}
use proof_forge_near.Py.Int.{pos}
use proof_forge_near.Rpc.Exc.{Exc, near_rpc_error, Reason}
use proof_forge_near.Rpc.Env.{Env, Client}
use proof_forge_near.Rpc.Wire.{encode_u64_le}
use proof_forge_near.Rpc.Wire.Words.{encode_u64_le-pos}
use proof_forge_near.Rpc.View.{view}
use proof_forge_near.Suites.Play.{
  Stop, assertion_error, raised, Suite, ◌>>=◌, step, compute, assert, refused,
}
use proof_forge_near.Suites.Exact.{Exact, le64}

-- The views of a contract: the bytes that a method returns on its argument bytes, or a trap.
abbrev pub Views : Type 0
Views = Text → Bytes → Option Bytes

module _ (E : Env) (c : Client) where
  -- `got = client.view(method, wire)`, compared with an encoded number.
  unfoldable pub expect_u64 : Text → Bytes → ℕ → Suite E.World (Unit {0})
  expect_u64 method wire value = do
    got ← step (view E c method wire)
    expected ← compute (encode_u64_le (pos value))
    assert (text_eq got expected)

  unfoldable pub expect_failure : Text → Bytes → Suite E.World (Unit {0})
  unfolding refused
  expect_failure method wire = refused (view E c method wire)

  -- The node's outcome of a view, and a live world behind it.
  unfoldable pub Answered : (E.World → Type 0) → Option Bytes → Result Exc Bytes × E.World → Type 0
  Answered Live (some b) out = (w : E.World) × (out ≡ (ok b, w)) × Live w
  Answered Live none out =
      (r : Reason) × (w : E.World) × (out ≡ (err (near_rpc_error r), w)) × Live w

  module _ (Live : E.World → Type 0) (views : Views)
      (answers : (method : Text) (wire : Bytes) (w : E.World)
        → Live w
        → Answered Live (views method wire) (view E c method wire w)) where
    by_answer :
        (method : Text) (wire : Bytes) (value : ℕ) (o : Option Bytes) (w : E.World)
        → Answered Live o (view E c method wire w)
        → (((w' : E.World) × (expect_u64 method wire value w ≡ (ok tt, w')) × Live w')
            × (o ≡ some (le64 value)))
          ⊎ (((e : Stop) × (w' : E.World) × (expect_u64 method wire value w ≡ (err e, w')))
              × ¬ (o ≡ some (le64 value)))
    unfolding expect_u64 Answered
    by_answer method wire value none w (r, w', e, live) =
        inr ((raised (near_rpc_error r), w', rw e refl), λ h. cc)
    by_answer method wire value (some b) w (w', e, live) =
        let sent = encode_u64_le-pos value in
        elim (Bool-cases (text_eq b (le64 value))) [
          | inl same ↦
              inl
                ((w', rw (e, sent, same) refl, live), ap some ((text_eq_iff b (le64 value)).0 same))
          | inr other ↦ inr (
            (assertion_error, w', rw (e, sent, other) refl),
            λ h. ground (arith, text_eq_iff b (le64 value)),
          )
        ]

    -- `_expect_u64` passes exactly when the view returns the number in eight bytes.
    pub expect_u64-Exact :
        (method : Text) (wire : Bytes) (value : ℕ)
        → Exact Live (expect_u64 method wire value) (views method wire ≡ some (le64 value))
    unfolding Exact
    expect_u64-Exact method wire value w live =
        by_answer method wire value (views method wire) w (answers method wire w live)

    refused_by_answer :
        (method : Text) (wire : Bytes) (o : Option Bytes) (w : E.World)
        → Answered Live o (view E c method wire w)
        → (((w' : E.World) × (expect_failure method wire w ≡ (ok tt, w')) × Live w') × (o ≡ none))
          ⊎ (((e : Stop) × (w' : E.World) × (expect_failure method wire w ≡ (err e, w')))
              × ¬ (o ≡ none))
    unfolding expect_failure Answered
    refused_by_answer method wire none w (r, w', e, live) = inl ((w', rw e refl, live), refl)
    refused_by_answer method wire (some b) w (w', e, live) =
        inr ((assertion_error, w', rw e refl), λ h. cc)

    -- `_expect_failure` passes exactly when the view traps.
    pub expect_failure-Exact :
        (method : Text) (wire : Bytes)
        → Exact Live (expect_failure method wire) (views method wire ≡ none)
    unfolding Exact
    expect_failure-Exact method wire w live =
        refused_by_answer method wire (views method wire) w (answers method wire w live)
