-- ===== src/Rpc/View/Success.antt =====
-- Which `SuccessValue` `success_value_bytes` gives.
use proof_forge_near.Prelude.{
  ◌≡◌, refl, Option, none, some, List, [], ◌∷◌, arith, Text, Bytes, codes,
}
use proof_forge_near.Py.Result.{ok}
use proof_forge_near.Py.Value.{list, dict, Items, nil, item, Entries, get}
use proof_forge_near.Rpc.Dynamic.{get_or_default, iterate}
use proof_forge_near.Rpc.Send.Outcome.{HasStatuses}
use proof_forge_near.Rpc.View.{
  success_in, last_success, reversed, reversed_onto, success_value_bytes,
}

-- The last value that is there, or `d`.
abbrev pub last_some : List (Option Bytes) → Option Bytes → Option Bytes
last_some [] d = d
last_some (none ∷ fs) d = last_some fs d
last_some (some b ∷ fs) d = last_some fs (some b)

module _ (decode : Text → Option Bytes) where
  -- The success value of each status.
  abbrev pub HasValues : List Entries → List (Option Bytes) → Type 0
  HasValues [] [] = Unit
  HasValues [] (f ∷ fs) = ⊥
  HasValues (s ∷ ss) [] = ⊥
  HasValues (s ∷ ss) (f ∷ fs) = (success_in decode (dict s) ≡ ok f) × HasValues ss fs

  last_success-reversed_onto :
      (rs acc : Items) (ss : List Entries) (fs : List (Option Bytes)) (d : Option Bytes)
      → HasStatuses rs ss
      → HasValues ss fs
      → last_success decode acc ≡ ok d
      → last_success decode (reversed_onto rs acc) ≡ ok (last_some fs d)
  unfolding reversed_onto last_success get_or_default
  last_success-reversed_onto nil acc [] [] d h v e = e
  last_success-reversed_onto nil acc [] (f ∷ fs) d h v e = absurd v
  last_success-reversed_onto nil acc (s ∷ ss) fs d h v e = absurd h
  last_success-reversed_onto (item r rest) acc [] fs d h v e = absurd h
  last_success-reversed_onto (item r rest) acc (s ∷ ss) [] d h v e = absurd v
  last_success-reversed_onto (item r rest) acc (s ∷ ss) (none ∷ fs) d h v e =
      let (x, o, p, q, t) = h.0 in
      last_success-reversed_onto rest (item r acc) ss fs d h.1 v.1
        (rw p (ground (arith, q, t, v.0, e)))
  last_success-reversed_onto (item r rest) acc (s ∷ ss) (some b ∷ fs) d h v e =
      let (x, o, p, q, t) = h.0 in
      last_success-reversed_onto rest (item r acc) ss fs (some b) h.1 v.1
        (rw p (ground (arith, q, t, v.0, e)))

  -- The value of the transaction's own status comes first, and else that of the last receipt that
  -- has one; there is none where no status has one. The statuses are objects whose success values,
  -- where they have one, decode.
  pub success_value_bytes_lem :
      (d s : Entries) (rs : Items) (ss : List Entries) (own : Option Bytes)
      (fs : List (Option Bytes))
      → get (codes "status") d ≡ some (dict s)
      → get (codes "receipts_outcome") d ≡ some (list rs)
      → HasStatuses rs ss
      → success_in decode (dict s) ≡ ok own
      → HasValues ss fs
      → success_value_bytes decode (dict d)
        ≡ ok (elim own [ some b ↦ some b | none ↦ last_some fs none ])
  unfolding success_value_bytes get_or_default reversed iterate last_success
  success_value_bytes_lem d s rs ss own fs hs hr h e v =
      ground (arith, hs, hr, e, last_success-reversed_onto rs nil ss fs none h v refl)
