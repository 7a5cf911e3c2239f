-- ===== src/Rpc/Send/Outcome.antt =====
-- When `sign_and_send` returns the response: `expect_success` against the failures in it.
use proof_forge_near.Prelude.{
  ◌≡◌, ◌↔◌, refl, Bool, true, false, not, ◌||◌, some, List, [], ◌∷◌, arith, codes,
}
use proof_forge_near.Py.Result.{ok}
use proof_forge_near.Py.Value.{Value, list, dict, Items, nil, item, Entries, get, has_key}
use proof_forge_near.Rpc.Dynamic.{get_or_default, contains, iterate}
use proof_forge_near.Rpc.Send.{
  receipt_failed, any_receipt_failed, outcome_failed, judge, check_outcome,
}

-- Each receipt is an object with an `outcome` object whose `status` is the given object.
abbrev pub HasStatuses : Items → List Entries → Type 0
HasStatuses nil [] = Unit
HasStatuses nil (s ∷ ss) = ⊥
HasStatuses (item r rest) [] = ⊥
HasStatuses (item r rest) (s ∷ ss) =
    ((d : Entries) × (o : Entries) × (r ≡ dict d)
      × (get (codes "outcome") d ≡ some (dict o))
      × (get (codes "status") o ≡ some (dict s)))
    × HasStatuses rest ss

-- One of the statuses has the key `Failure`.
abbrev pub any_failure : List Entries → Bool
any_failure [] = false
any_failure (s ∷ ss) = has_key (codes "Failure") s || any_failure ss

receipt_failed_lem :
    (r : Value) (d o s : Entries)
    → r ≡ dict d
    → get (codes "outcome") d ≡ some (dict o)
    → get (codes "status") o ≡ some (dict s)
    → receipt_failed r ≡ ok (has_key (codes "Failure") s)
unfolding receipt_failed get_or_default contains
receipt_failed_lem r d o s e f g = rw e (ground arith)

any_receipt_failed_lem :
    (rs : Items) (ss : List Entries)
    → HasStatuses rs ss
    → any_receipt_failed rs ≡ ok (any_failure ss)
unfolding any_receipt_failed
any_receipt_failed_lem nil [] h = refl
any_receipt_failed_lem nil (s ∷ ss) h = absurd h
any_receipt_failed_lem (item r rest) [] h = absurd h
any_receipt_failed_lem (item r rest) (s ∷ ss) h =
    let (d, o, e, f, g) = h.0 in
    ground (arith, receipt_failed_lem r d o s e f g, any_receipt_failed_lem rest ss h.1)

module _ (d s : Entries) (rs : Items) (ss : List Entries)
    (has_status : get (codes "status") d ≡ some (dict s))
    (has_receipts : get (codes "receipts_outcome") d ≡ some (list rs))
    (receipts : HasStatuses rs ss) where
  outcome_failed_lem : outcome_failed (dict d) ≡ ok (any_failure (s ∷ ss))
  unfolding outcome_failed get_or_default contains iterate
  outcome_failed_lem =
      ground (arith, has_status, has_receipts, any_receipt_failed_lem rs ss receipts)

  -- A response whose status and receipt statuses are objects is returned exactly when success was
  -- expected and none of those statuses has the key `Failure`, or failure was expected and one has.
  pub check_outcome_iff :
      (expect_success : Bool)
      → (check_outcome expect_success (dict d) ≡ ok (dict d))
        ↔ (any_failure (s ∷ ss) ≡ not expect_success)
  unfolding check_outcome judge
  check_outcome_iff true = ground (arith, outcome_failed_lem)
  check_outcome_iff false = ground (arith, outcome_failed_lem)
