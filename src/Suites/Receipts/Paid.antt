-- ===== src/Suites/Receipts/Paid.antt =====
-- What a pass of `_assert_transfer_receipt` says of the receipts that the node shows.
use proof_forge_near.Prelude.{
  ◌≡◌, ◌↔◌, refl, subst, sym, ap, ◌∙◌, Bool, true, false, Option, none, some, Text, codes, [],
}
use proof_forge_near.Prelude.{◌∷◌}
use proof_forge_near.Py.Result.{Result, ok, then-ok, ◌>>=◌ as ◌then◌}
use proof_forge_near.Py.Int.{ℤ}
use proof_forge_near.Py.Value.{Value, str, dict, Items, nil, item, end, Among, first, later}
use proof_forge_near.Rpc.Exc.{Exc}
use proof_forge_near.Rpc.Dynamic.{truthy, truthy?, get_or_none, object, get_or_default}
use proof_forge_near.Rpc.Env.{Env, Client}
use proof_forge_near.Rpc.Query.{rpc_call}
use proof_forge_near.Suites.Play.{Stop, Suite, ◌>>=◌, compute, assert, pass}
use proof_forge_near.Suites.Steps.{
  bind-ok_iff, assert-ok_iff, computed-ok_iff, stepped-ok_iff, compute-ok_iff,
}
use proof_forge_near.Suites.Receipts.{
  any_pays, actions_of, is_text, succeeded, has_succeeded, when, receipt_at, receipt_of,
  is_transfer, visit, find_transfer, records_of, assert_transfer_receipt, assert_paid_receipt,
}
use proof_forge_near.Suites.Receipts.Actions.{PaidIn, any_pays_sound, is_text_sound, when-true}

module _ (E : Env) (c : Client) (receiver : Text) (amount : ℤ) where
  -- The node shows a receipt under a record's id, its receiver is the account, and one of its actions
  -- transfers the amount.
  unfoldable pub Pays : Value → E.World → E.World → Type 0
  Pays row w w' =
      (id : Value) × (get_or_none (codes "id") row ≡ ok (some id))
      × ((receipt : Value) × (rpc_call E c (codes "EXPERIMENTAL_receipt")
              (dict (object ((codes "receipt_id", id) ∷ []))) w
            ≡ (ok receipt, w'))
          × (get_or_none (codes "receiver_id") receipt ≡ ok (some (str receiver)))
          × ((actions : Items) × (actions_of receipt ≡ ok actions)
              × PaidIn E.parse_int amount actions))

  is_transfer_sound :
      (receipt : Value)
      → is_transfer E c receiver amount (some receipt) ≡ ok true
      → (get_or_none (codes "receiver_id") receipt ≡ ok (some (str receiver)))
        × ((actions : Items) × (actions_of receipt ≡ ok actions)
            × PaidIn E.parse_int amount actions)
  unfolding is_transfer
  is_transfer_sound receipt e =
      let paid = actions_of receipt then λ actions. any_pays E.parse_int amount actions in
      let (who, known, more) =
        then-ok (get_or_none (codes "receiver_id") receipt)
          (λ who. when (is_text who receiver) paid) true e in
      let (is_receiver, found) = when-true (is_text who receiver) paid more in
      let (actions, shown, pays_) =
        then-ok (actions_of receipt) (λ actions. any_pays E.parse_int amount actions) true found in
      (
        known ∙ ap ok (is_text_sound who receiver is_receiver),
        (actions, shown, any_pays_sound E.parse_int amount actions pays_),
      )

  receipt_at-some :
      (id : Option Value) (receipt : Value) (w w' : E.World)
      → receipt_at E c id (truthy? id) w ≡ (ok (some receipt), w')
      → (v : Value) × (id ≡ some v)
        × (rpc_call E c
              (codes "EXPERIMENTAL_receipt")
              (dict (object ((codes "receipt_id", v) ∷ [])))
              w
            ≡ (ok receipt, w'))
  unfolding receipt_at
  receipt_at-some none receipt w w' e = cc
  receipt_at-some (some v) receipt w w' e =
      let asked =
        rpc_call E c (codes "EXPERIMENTAL_receipt")
          (dict (object ((codes "receipt_id", v) ∷ []))) in
      onward (truthy v) e
    where
      onward :
          (b : Bool)
          → receipt_at E c (some v) b w ≡ (ok (some receipt), w')
          → (u : Value) × (some v ≡ some u)
            × (rpc_call E c
                  (codes "EXPERIMENTAL_receipt")
                  (dict (object ((codes "receipt_id", u) ∷ [])))
                  w
                ≡ (ok receipt, w'))
      onward false e = cc
      onward true e =
          let asked =
            rpc_call E c (codes "EXPERIMENTAL_receipt")
              (dict (object ((codes "receipt_id", v) ∷ []))) in
          let (got, w1, e1, r1) =
            (stepped-ok_iff asked (λ got. compute (ok (some got))) w w' (some receipt)).0 e in
          let (same, here_) = (compute-ok_iff (ok (some got)) w1 w' (some receipt)).0 r1 in
          let is_got : got ≡ receipt = cc same in (v, refl, rw (sym is_got, sym here_) e1)

  visit_sound :
      (row : Value) (w w' : E.World)
      → visit E c receiver amount row w ≡ (ok true, w')
      → Pays row w w'
  unfolding visit receipt_of Pays
  visit_sound row w w' e =
      let judge : Option Value → Suite E.World Bool =
        λ found. compute (is_transfer E c receiver amount found) in
      let (found, w1, e1, r1) = (bind-ok_iff (receipt_of E c row) judge w w' true).0 e in
      let (good, there_) =
        (compute-ok_iff (is_transfer E c receiver amount found) w1 w' true).0 r1 in
      fetched found (subst (λ v. receipt_of E c row w ≡ (ok found, v)) there_ e1) good
    where
      fetched :
          (found : Option Value)
          → receipt_of E c row w ≡ (ok found, w')
          → is_transfer E c receiver amount found ≡ ok true
          → Pays row w w'
      fetched none e good = cc
      fetched (some receipt) e good =
          let (id, known, asked) =
            (computed-ok_iff (get_or_none (codes "id") row) (λ id. receipt_at E c id (truthy? id)) w
                w' (some receipt)).0
              e in
          let (v, is_v, shown) = receipt_at-some id receipt w w' asked in
          let (to_receiver, paid) = is_transfer_sound receipt good in
          (v, known ∙ ap ok is_v, (receipt, shown, to_receiver, paid))

-- The records up to the first that is found to pay, each visited in its turn from the world that the
-- visit before it left.
pub data Finds (E : Env) (c : Client) (receiver : Text) (amount : ℤ)
    : Items → E.World → Value → E.World → Type 0 where
  here :
      {row : Value} {rest : Items} {w w' : E.World}
      → Pays E c receiver amount row w w'
      → visit E c receiver amount row w ≡ (ok true, w')
      → Finds E c receiver amount (item row rest) w row w'
  there :
      {row found : Value} {rest : Items} {w w1 w' : E.World}
      → visit E c receiver amount row w ≡ (ok false, w1)
      → Finds E c receiver amount rest w1 found w'
      → Finds E c receiver amount (item row rest) w found w'

module _ (E : Env) (c : Client) (receiver : Text) (amount : ℤ) where
  Finds-find_transfer :
      (behind : Value → Suite E.World (Unit {0})) (rows : Items) (found : Value) (w w' : E.World)
      → Finds E c receiver amount rows w found w'
      → find_transfer E c behind receiver amount rows w ≡ behind found w'
  unfolding find_transfer
  Finds-find_transfer behind nil found w w' none_there = elim none_there [ ]
  Finds-find_transfer behind (item _ rest) found w w' (here paid e) = rw e refl
  Finds-find_transfer behind (item row rest) found w w' (there e more) =
      rw e (Finds-find_transfer behind rest found _ w' more)

  abbrev next : (Value → Suite E.World (Unit {0})) → Value → Items → Bool → Suite E.World (Unit {0})
  next behind row rest found = elim found [
    | true ↦ behind row
    | false ↦ find_transfer E c behind receiver amount rest
  ]

  find_transfer-Finds :
      (behind : Value → Suite E.World (Unit {0})) (rows : Items) (w w'' : E.World)
      → find_transfer E c behind receiver amount rows w ≡ (ok tt, w'')
      → (found : Value) × (w' : E.World) × Finds E c receiver amount rows w found w'
        × (behind found w' ≡ (ok tt, w''))
  unfolding find_transfer
  find_transfer-Finds behind nil w w'' e = cc
  find_transfer-Finds behind (item row rest) w w'' e =
      let (b, w1, e1, r1) =
        (bind-ok_iff (visit E c receiver amount row) (next behind row rest) w w'' tt).0 e in
      onward (λ v. find_transfer-Finds behind rest v w'') b w1 e1 r1
    where
      onward :
          ((v : E.World)
            → find_transfer E c behind receiver amount rest v ≡ (ok tt, w'')
            → (found : Value) × (w' : E.World) × Finds E c receiver amount rest v found w'
              × (behind found w' ≡ (ok tt, w'')))
          → (b : Bool) (w1 : E.World) → visit E c receiver amount row w ≡ (ok b, w1)
          → ◌≡◌ {A = Result Stop (Unit {0}) × E.World} (next behind row rest b w1) (ok tt, w'')
          → (found : Value) × (w' : E.World) × Finds E c receiver amount (item row rest) w found w'
            × (behind found w' ≡ (ok tt, w''))
      onward more_ true w1 e1 r1 =
          (row, w1, here (visit_sound E c receiver amount row w w1 e1) e1, r1)
      onward more_ false w1 e1 r1 =
          let (found, w', more, end_) = more_ w1 r1 in (found, w', there e1 more, end_)

module _ (E : Env) (c : Client) (receiver : Text) (amount : ℤ) where
  Finds-Pays :
      (rows : Items) (found : Value) (w w' : E.World)
      → Finds E c receiver amount rows w found w'
      → Among found rows × ((v : E.World) × Pays E c receiver amount found v w')
  Finds-Pays nil found w w' none_there = elim none_there [ ]
  Finds-Pays (item _ rest) found w w' (here paid e) = (first, (w, paid))
  Finds-Pays (item _ rest) found w w' (there e more) =
      let (among, paid) = Finds-Pays rest found _ w' more in (later among, paid)

  -- `_assert_transfer_receipt` of ledger.py ends well exactly when, of the outcome's receipt records
  -- in their order, one is found to pay and no visit before it found one or raised: the node shows,
  -- under that record's id, a receipt to the account with an action that transfers exactly the amount.
  pub assert_transfer_receipt-ok_iff :
      (outcome : Value) (w w' : E.World)
      → (assert_transfer_receipt E c outcome receiver amount w ≡ (ok tt, w')) ↔ (
          (rows : Items) × (records_of outcome ≡ ok rows)
          × ((found : Value) × Finds E c receiver amount rows w found w'))
  unfolding assert_transfer_receipt
  assert_transfer_receipt-ok_iff outcome w w' =
      let search : Items → Suite E.World (Unit {0}) =
        λ rows. find_transfer E c (λ row. pass) receiver amount rows in
      let read = computed-ok_iff (records_of outcome) search w w' tt in
      (
        λ e.
            let (rows, known, r1) = read.0 e in
            let (found, v, finds, done) =
              find_transfer-Finds E c receiver amount (λ row. pass) rows w w' r1 in
            let same : v ≡ w' = ap (λ o. o.1) done in
            (
              rows,
              known,
              (found, subst (λ u. Finds E c receiver amount rows w found u) same finds),
            ),
        λ (rows, known, (found, finds)). read.1 (
          rows,
          known,
          Finds-find_transfer E c receiver amount (λ row. pass) rows found w w' finds,
        ),
      )

  has_succeeded-ok :
      (row : Value) (w w' : E.World)
      → has_succeeded E c row w ≡ (ok tt, w')
      → ((own : Value) × (get_or_default (codes "outcome") (dict end) row ≡ ok own)
          × ((status : Value) × (get_or_default (codes "status") (dict end) own ≡ ok status)
              × (succeeded status ≡ true)))
        × (w ≡ w')
  unfolding has_succeeded
  has_succeeded-ok row w w' e =
      let judge : Value → Suite E.World (Unit {0}) = λ status. assert (succeeded status) in
      let status_of : Value → Result Exc Value =
        λ own. get_or_default (codes "status") (dict end) own in
      let (own, known, r1) =
        (computed-ok_iff (get_or_default (codes "outcome") (dict end) row)
            (λ own. compute (status_of own) >>= judge) w w' tt).0
          e in
      let (status, known', r2) = (computed-ok_iff (status_of own) judge w w' tt).0 r1 in
      let (good, same) = (assert-ok_iff (succeeded status) w w').0 r2 in
      ((own, known, (status, known', good)), same)

  -- The record's own status has a success value.
  abbrev pub Succeeded : Value → Type 0
  Succeeded row =
      (own : Value) × (get_or_default (codes "outcome") (dict end) row ≡ ok own)
      × ((status : Value) × (get_or_default (codes "status") (dict end) own ≡ ok status)
          × (succeeded status ≡ true))

  -- From one world to another, a record of the outcome is found to pay, and it has succeeded.
  abbrev pub RefundedFrom : Value → E.World → E.World → Type 0
  RefundedFrom outcome w w' =
      (rows : Items) × (records_of outcome ≡ ok rows)
      × ((found : Value) × Finds E c receiver amount rows w found w' × Succeeded found)

  pub assert_paid_receipt-RefundedFrom :
      (outcome : Value) (w w' : E.World)
      → assert_paid_receipt E c outcome receiver amount w ≡ (ok tt, w')
      → RefundedFrom outcome w w'
  unfolding assert_paid_receipt
  assert_paid_receipt-RefundedFrom outcome w w' e =
      let search : Items → Suite E.World (Unit {0}) =
        λ rows. find_transfer E c (has_succeeded E c) receiver amount rows in
      let (rows, known, r1) = (computed-ok_iff (records_of outcome) search w w' tt).0 e in
      let (found, u, finds, done) =
        find_transfer-Finds E c receiver amount (has_succeeded E c) rows w w' r1 in
      let (good, same) = has_succeeded-ok found u w' done in
      (rows, known, (found, subst (λ x. Finds E c receiver amount rows w found x) same finds, good))

  -- One of the outcome's receipt records pays the account the amount, shown by the node up to the
  -- world `w'`, and its own status has a success value.
  unfoldable pub Refunded : Value → E.World → Type 0
  Refunded outcome w' =
      (rows : Items) × (records_of outcome ≡ ok rows)
      × ((found : Value) × Among found rows
          × ((v : E.World) × Pays E c receiver amount found v w')
          × ((own : Value) × (get_or_default (codes "outcome") (dict end) found ≡ ok own)
              × ((status : Value) × (get_or_default (codes "status") (dict end) own ≡ ok status)
                  × (succeeded status ≡ true))))

  -- Where `_assert_transfer_receipt` of storage_registration.py ends well, one of the outcome's
  -- receipt records has an id under which the node shows a receipt to the account with an action that
  -- transfers exactly the amount, and the record's own status has a success value.
  pub assert_paid_receipt_sound :
      (outcome : Value) (w w' : E.World)
      → assert_paid_receipt E c outcome receiver amount w ≡ (ok tt, w')
      → Refunded outcome w'
  unfolding Refunded
  assert_paid_receipt_sound outcome w w' e =
      let (rows, known, (found, finds, good)) = assert_paid_receipt-RefundedFrom outcome w w' e in
      let (among, (v, paid)) = Finds-Pays rows found w w' finds in
      (rows, known, (found, among, (v, paid), good))
