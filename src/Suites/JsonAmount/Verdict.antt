-- ===== src/Suites/JsonAmount/Verdict.antt =====
-- What the accepted wires of runtime-tests/near/json_amount_input.py say of the contract's views.
use proof_forge_near.Prelude.{
  append-cancel, prefix-cancel, ◌≡◌, ◌↔◌, ap, sym, ◌∙◌, ℕ, ◌+◌, ◌*◌, ◌/◌, ◌%◌, ◌^◌, ◌<◌, some, List,
  [], ◌∷◌, ◌++◌, map, Text, Bytes, codes, length, All, All-append, arith,
}
use proof_forge_near.Py.Bytes.{
  to_le, from_le, IsByte, length-to_le, from_le-to_le, to_le-from_le, to_le-IsByte,
}
use proof_forge_near.Rpc.Env.{Env, Client}
use proof_forge_near.Rpc.View.{view}
use proof_forge_near.Suites.Exact.{le64, Exact, Exact-iff}
use proof_forge_near.Suites.Contract.{Views, Answered}
use proof_forge_near.Suites.Matrix.{Reads, accept_all, accept_all-Exact}
use proof_forge_near.Suites.JsonAmount.{numbers, amount_fields, accepted}

-- The bytes that the two views return are the number's sixteen bytes, eight of them in each.
unfoldable pub HoldsNumber : Views → ℕ × Bytes → Type 0
HoldsNumber views a =
    (low : Bytes) × (high : Bytes) × (views (codes "amountW0") a.1 ≡ some low)
    × ((views (codes "amountW1") a.1 ≡ some high)
        × ((length low ≡ 8) × (low ++ high ≡ to_le 16 a.0)))

from_le-word :
    (n : ℕ) (bs : Bytes) → n < 2 ^ 64 → from_le (to_le 8 n ++ bs) ≡ n + 2 ^ 64 * from_le bs
unfolding to_le from_le
from_le-word n bs h = omega (arith, from_le-to_le 8 n h)

limbs : (v : ℕ) → v < 2 ^ 128 → le64 (v % 2 ^ 64) ++ le64 (v / 2 ^ 64) ≡ to_le 16 v
unfolding to_le
limbs v h =
    let low = v % 2 ^ 64 % 2 ^ 64 in
    let high = v / 2 ^ 64 % 2 ^ 64 in
    let are_bytes =
      All-append IsByte (to_le 8 low) (to_le 8 high) (to_le-IsByte 8 low) (to_le-IsByte 8 high) in
    let total : from_le (to_le 8 low ++ to_le 8 high) ≡ v =
      omega (
        arith,
        from_le-word low (to_le 8 high) (omega arith),
        from_le-to_le 8 high (omega arith),
      ) in
    sym (to_le-from_le (to_le 8 low ++ to_le 8 high) are_bytes) ∙ ap (to_le 16) total

fields_iff :
    (views : Views) (v : ℕ) (wire : Bytes)
    → v < 2 ^ 128
    → Reads views (wire, amount_fields v) ↔ HoldsNumber views (v, wire)
unfolding Reads amount_fields HoldsNumber
fields_iff views v wire h = (
  λ (low, (high, t)). (
    le64 (v % 2 ^ 64),
    le64 (v / 2 ^ 64),
    low,
    (high, (length-to_le 8 (v % 2 ^ 64 % 2 ^ 64), limbs v h)),
  ),
  λ (low, high, l, (r, (n, e))).
      let joined = e ∙ sym (limbs v h) in
      let first : low ≡ le64 (v % 2 ^ 64) =
        prefix-cancel low (le64 (v % 2 ^ 64)) high (le64 (v / 2 ^ 64)) (n ∙ sym (length-to_le 8 _))
          joined in
      let second : high ≡ le64 (v / 2 ^ 64) =
        append-cancel low high _ (joined ∙ ap (λ x. x ++ le64 (v / 2 ^ 64)) (sym first)) in
      (l ∙ ap some first, (r ∙ ap some second, tt)),
)

in_range : All (λ a. a.0 < 2 ^ 128) numbers
unfolding numbers
in_range = (
  omega arith,
  (
    omega arith,
    (omega arith, (omega arith, (omega arith, (omega arith, (omega arith, (omega arith, tt)))))),
  ),
)

accepted_iff :
    (views : Views) (rows : List (ℕ × Bytes))
    → All (λ a. a.0 < 2 ^ 128) rows
    → All (Reads views) (map (λ a. (a.1, amount_fields a.0)) rows) ↔ All (HoldsNumber views) rows
accepted_iff views [] h = (λ _. tt, λ _. tt)
accepted_iff views ((v, wire) ∷ rows) h =
    let here = fields_iff views v wire h.0 in
    let more = accepted_iff views rows h.1 in
    (λ (a, b). (here.0 a, more.0 b), λ (a, b). (here.1 a, more.1 b))

-- From a live world, the accepting scenes of the suite pass exactly when, for each of its numbers and
-- the wire that holds it, the views of the two limbs return eight bytes each that are together the
-- number's sixteen little-endian bytes.
pub accepted-Exact :
    (E : Env) (c : Client) (Live : E.World → Type 0) (views : Views)
    → ((method : Text) (wire : Bytes) (w : E.World)
        → Live w
        → Answered E c Live (views method wire) (view E c method wire w))
    → Exact Live (accept_all E c accepted) (All (HoldsNumber views) numbers)
unfolding accepted
accepted-Exact E c Live views answers =
    let rows = accepted_iff views numbers in_range in
    Exact-iff Live (accept_all E c accepted) _ _ rows.0 rows.1
      (accept_all-Exact E c Live views answers accepted)
