-- ===== src/Suites/Receipts/Logs.antt =====
-- The logs of a response's receipts.
use proof_forge_near.Prelude.{sym, subst, ◌≡◌, refl, ap, ◌∙◌, codes}
use proof_forge_near.Py.Result.{Result, ok, then-ok, ◌>>=◌ as ◌then◌}
use proof_forge_near.Py.Value.{Value, list, dict, Items, nil, item, end, Among, first, later}
use proof_forge_near.Rpc.Exc.{Exc}
use proof_forge_near.Rpc.Dynamic.{get_or_default, iterate}
use proof_forge_near.Suites.Receipts.{append_items, logs_in, receipt_logs}

-- The logs of a receipt's outcome are there and empty, or missing.
abbrev pub IsSilent : Value → Type 0
IsSilent receipt =
    (outcome logs : Value) × (get_or_default (codes "outcome") (dict end) receipt ≡ ok outcome)
    × (get_or_default (codes "logs") (list nil) outcome ≡ ok logs)
    × (iterate logs ≡ ok nil)

unfoldable pub LogsNothing : Value → Type 0
LogsNothing response =
    (records : Value) × (receipts : Items) × (get_or_default (codes "receipts_outcome") (list nil)
        response
      ≡ ok records)
    × (iterate records ≡ ok receipts)
    × ((receipt : Value) → Among receipt receipts → IsSilent receipt)

append_items-nil : (xs ys : Items) → append_items xs ys ≡ nil → (xs ≡ nil) × (ys ≡ nil)
unfolding append_items
append_items-nil nil ys e = (refl, e)
append_items-nil (item x xs) ys e = cc

among_both :
    (r : Value) (rest : Items) (receipt : Value)
    → IsSilent r
    → ((x : Value) → Among x rest → IsSilent x)
    → Among receipt (item r rest)
    → IsSilent receipt
among_both r rest receipt here behind first = here
among_both r rest receipt here behind (later m) = behind receipt m

logs_in-IsSilent :
    (receipts : Items)
    → logs_in receipts ≡ ok nil
    → (receipt : Value) → Among receipt receipts
    → IsSilent receipt
unfolding logs_in
logs_in-IsSilent nil e receipt m = elim m [ ]
logs_in-IsSilent (item r rest) e receipt m =
    let behind_logs : Items → Result Exc Items =
      λ some_logs. logs_in rest then λ more. ok (append_items some_logs more) in
    let behind_outcome : Value → Result Exc Items = λ outcome.
      get_or_default (codes "logs") (list nil) outcome then λ logs. iterate logs then behind_logs in
    let (outcome, e1, r1) =
      then-ok (get_or_default (codes "outcome") (dict end) r) behind_outcome nil e in
    let (logs, e2, r2) =
      then-ok (get_or_default (codes "logs") (list nil) outcome)
        (λ logs. iterate logs then behind_logs) nil r1 in
    let (own, e3, r3) = then-ok (iterate logs) behind_logs nil r2 in
    let (more, e4, r4) = then-ok (logs_in rest) (λ more. ok (append_items own more)) nil r3 in
    let (no_own, no_more) = append_items-nil own more (cc r4) in
    among_both r rest receipt (outcome, logs, e1, e2, e3 ∙ ap ok no_own)
      (logs_in-IsSilent rest (e4 ∙ ap ok no_more)) m

pub receipt_logs-LogsNothing :
    (response : Value) → receipt_logs response ≡ ok nil → LogsNothing response
unfolding receipt_logs LogsNothing
receipt_logs-LogsNothing response e =
    let (records, e1, r1) =
      then-ok (get_or_default (codes "receipts_outcome") (list nil) response)
        (λ receipts. iterate receipts then λ rs. logs_in rs) nil e in
    let (receipts, e2, r2) = then-ok (iterate records) (λ rs. logs_in rs) nil r1 in
    (records, receipts, e1, e2, logs_in-IsSilent receipts r2)

-- What the outcome of a receipt has logged.
abbrev pub Shows : Value → Items → Type 0
Shows receipt own =
    (outcome logs : Value) × (get_or_default (codes "outcome") (dict end) receipt ≡ ok outcome)
    × (get_or_default (codes "logs") (list nil) outcome ≡ ok logs)
    × (iterate logs ≡ ok own)

-- The logs of the receipts, one receipt's behind another's.
pub data Collects : Items → Items → Type 0 where
  none_left : Collects nil nil
  next :
      {receipt : Value} {rest own more all : Items}
      → Shows receipt own
      → Collects rest more
      → all ≡ append_items own more
      → Collects (item receipt rest) all

-- The logs of all receipts of a response together.
unfoldable pub Logged : Value → Items → Type 0
Logged response all =
    (records : Value) × (receipts : Items) × (get_or_default (codes "receipts_outcome") (list nil)
        response
      ≡ ok records)
    × (iterate records ≡ ok receipts)
    × Collects receipts all

logs_in-Collects : (receipts all : Items) → logs_in receipts ≡ ok all → Collects receipts all
unfolding logs_in
logs_in-Collects nil all e =
    let same : nil ≡ all = cc e in subst (λ x. Collects nil x) same none_left
logs_in-Collects (item r rest) all e =
    let behind_logs : Items → Result Exc Items =
      λ some_logs. logs_in rest then λ more. ok (append_items some_logs more) in
    let behind_outcome : Value → Result Exc Items = λ outcome.
      get_or_default (codes "logs") (list nil) outcome then λ logs. iterate logs then behind_logs in
    let (outcome, e1, r1) =
      then-ok (get_or_default (codes "outcome") (dict end) r) behind_outcome all e in
    let (logs, e2, r2) =
      then-ok (get_or_default (codes "logs") (list nil) outcome)
        (λ logs. iterate logs then behind_logs) all r1 in
    let (own, e3, r3) = then-ok (iterate logs) behind_logs all r2 in
    let (more, e4, r4) = then-ok (logs_in rest) (λ more. ok (append_items own more)) all r3 in
    let whole : append_items own more ≡ all = cc r4 in
    next (outcome, logs, e1, e2, e3) (logs_in-Collects rest more e4) (sym whole)

pub receipt_logs-Logged :
    (response : Value) (all : Items) → receipt_logs response ≡ ok all → Logged response all
unfolding receipt_logs Logged
receipt_logs-Logged response all e =
    let (records, e1, r1) =
      then-ok (get_or_default (codes "receipts_outcome") (list nil) response)
        (λ receipts. iterate receipts then λ rs. logs_in rs) all e in
    let (receipts, e2, r2) = then-ok (iterate records) (λ rs. logs_in rs) all r1 in
    (records, receipts, e1, e2, logs_in-Collects receipts all r2)
