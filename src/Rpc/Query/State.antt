-- ===== src/Rpc/Query/State.antt =====
-- `view_state_values`: the rows of the response and the dict that they give.
use proof_forge_near.Prelude.{
  ◌≡◌, ◌↔◌, refl, sym, ap, ◌∙◌, Option, none, some, Option-cases, inl, inr, [], ◌∷◌, ◌++◌,
  append-nil, append_assoc, arith, Text, Bytes, codes,
}
use proof_forge_near.Py.Result.{Result, ok, err}
use proof_forge_near.Py.Dict.{
  Dict, lookup, insert, NodupKeys, insert-NodupKeys, insert-new, lookup_middle,
}
use proof_forge_near.Py.Value.{Value, dict, list, Items, nil, item, Entries, get}
use proof_forge_near.Rpc.Exc.{Exc}
use proof_forge_near.Rpc.Env.{Env}
use proof_forge_near.Rpc.Query.{decode_row, add_row, collect_rows, read_values, read_state}

module _ (E : Env) where
  -- Every row is an object whose `key` and `value` are base64 texts of the dict's row.
  abbrev pub DecodesTo : Items → Dict Bytes → Type 0
  DecodesTo nil [] = Unit
  DecodesTo nil (kv ∷ kvs) = ⊥
  DecodesTo (item row rest) [] = ⊥
  DecodesTo (item row rest) (kv ∷ kvs) = (decode_row E row ≡ some kv) × DecodesTo rest kvs

  add_row_sound :
      (target : Text) (row : Value) (values more : Dict Bytes)
      → add_row E target row values ≡ ok more
      → (kv : Bytes × Bytes) × (decode_row E row ≡ some kv)
        × (lookup kv.0 values ≡ none)
        × (more ≡ insert kv.0 kv.1 values)
  unfolding add_row
  add_row_sound target row values more h = elim (Option-cases (decode_row E row)) [
    | inl bad ↦ absurd (ground (arith, bad))
    | inr (kv, e) ↦ (kv, e, fresh kv e, ground (arith, e, fresh kv e))
  ]
    where
      fresh : (kv : Bytes × Bytes) → decode_row E row ≡ some kv → lookup kv.0 values ≡ none
      fresh kv e = ground (arith, e)

  add_row_complete :
      (target : Text) (row : Value) (values : Dict Bytes) (k v : Bytes)
      → decode_row E row ≡ some (k, v)
      → lookup k values ≡ none
      → add_row E target row values ≡ ok (insert k v values)
  unfolding add_row
  add_row_complete target row values k v e h = ground arith

  collect_rows_sound :
      (target : Text) (rows : Items) (values out : Dict Bytes)
      → NodupKeys values
      → collect_rows E target rows values ≡ ok out
      → (kvs : Dict Bytes) × (out ≡ values ++ kvs) × DecodesTo rows kvs × NodupKeys out
  unfolding collect_rows
  collect_rows_sound target nil values out u h =
      let e : values ≡ out = cc in ([], sym e ∙ sym (append-nil values), tt, rw (← e) u)
  collect_rows_sound target (item row rest) values out u h =
      step (add_row E target row values) refl (collect_rows_sound target rest)
    where
      step :
          (r : Result Exc (Dict Bytes))
          → add_row E target row values ≡ r
          → ((vs o : Dict Bytes)
              → NodupKeys vs
              → collect_rows E target rest vs ≡ ok o
              → (kvs : Dict Bytes) × (o ≡ vs ++ kvs) × DecodesTo rest kvs × NodupKeys o)
          → (kvs : Dict Bytes) × (out ≡ values ++ kvs)
            × DecodesTo (item row rest) kvs
            × NodupKeys out
      step (err e) q ih = absurd (ground (arith, q))
      step (ok more) q ih =
          let (kv, e, fresh, m) = add_row_sound target row values more q in
          let (kvs, o, dec, nod) =
            ih more out (rw m (insert-NodupKeys kv.0 kv.1 values u)) (ground (arith, q)) in
          (
            kv ∷ kvs,
            o
                ∙ (ap (λ x. x ++ kvs) (m ∙ insert-new kv.0 kv.1 values fresh)
                    ∙ append_assoc values (kv ∷ []) kvs),
            (e, dec),
            nod,
          )

  collect_rows_step :
      (target : Text) (row : Value) (rest : Items) (values more : Dict Bytes)
      → add_row E target row values ≡ ok more
      → collect_rows E target (item row rest) values ≡ collect_rows E target rest more
  unfolding collect_rows
  collect_rows_step target row rest values more h = ground arith

  collect_rows_complete :
      (target : Text) (rows : Items) (values kvs : Dict Bytes)
      → DecodesTo rows kvs
      → NodupKeys (values ++ kvs)
      → collect_rows E target rows values ≡ ok (values ++ kvs)
  unfolding collect_rows
  collect_rows_complete target nil values [] d u = ap ok (sym (append-nil values))
  collect_rows_complete target nil values (kv ∷ kvs) d u = absurd d
  collect_rows_complete target (item row rest) values [] d u = absurd d
  collect_rows_complete target (item row rest) values ((k, v) ∷ kvs) d u =
      let fresh = lookup_middle k v values kvs u in
      let assoc = append_assoc values ((k, v) ∷ []) kvs in
      collect_rows_step target row rest values _ (add_row_complete target row values k v d.0 fresh)
      ∙ rw (insert-new k v values fresh) (
          collect_rows_complete target rest (values ++ ((k, v) ∷ [])) kvs d.1 (rw assoc u)
          ∙ ap ok assoc)

  read_state-rows :
      (target : Text) (d : Entries) (rows : Items)
      → get (codes "error") d ≡ none
      → get (codes "values") d ≡ some (list rows)
      → read_state E target (dict d) ≡ collect_rows E target rows []
  unfolding read_state read_values
  read_state-rows target d rows no_error has_rows = ground arith

  read_state-object :
      (target : Text) (v : Value) (out : Dict Bytes)
      → read_state E target v ≡ ok out
      → (d : Entries) × (rows : Items) × (v ≡ dict d)
        × (get (codes "error") d ≡ none)
        × (get (codes "values") d ≡ some (list rows))
  unfolding read_state read_values
  read_state-object target (dict d) out h = elim (Option-cases (get (codes "error") d)) [
    | inr (e, p) ↦ absurd (ground (arith, p))
    | inl p ↦ let (rows, q) = from_values (get (codes "values") d) refl p in (d, rows, refl, p, q)
  ]
    where
      from_values :
          (o : Option Value)
          → get (codes "values") d ≡ o
          → get (codes "error") d ≡ none
          → (rows : Items) × (get (codes "values") d ≡ some (list rows))
      from_values (some (list rows)) q p = (rows, q)
      from_values none q p = absurd (ground (arith, q))
      from_values (some _) q p = absurd (ground (arith, q))
  read_state-object target _ out h = absurd (ground arith)

  -- A state response gives a dict exactly when it is an object with no `error` whose `values` is an
  -- array, the array's rows decode, in order, to the rows of the dict, and no key is there twice.
  pub read_state_iff :
      (target : Text) (v : Value) (out : Dict Bytes)
      → (read_state E target v ≡ ok out) ↔ (
          (d : Entries) × (rows : Items) × (v ≡ dict d)
          × (get (codes "error") d ≡ none)
          × (get (codes "values") d ≡ some (list rows))
          × DecodesTo rows out
          × NodupKeys out)
  read_state_iff target v out = (
    λ h.
        let (d, rows, is_object, no_error, has_rows) = read_state-object target v out h in
        let collected : collect_rows E target rows [] ≡ ok out =
          sym (read_state-rows target d rows no_error has_rows)
          ∙ (ap (read_state E target) (sym is_object) ∙ h) in
        let (kvs, o, dec, nod) = collect_rows_sound target rows [] out tt collected in
        (d, rows, is_object, no_error, has_rows, rw o dec, nod),
    λ (d, rows, is_object, no_error, has_rows, dec, nod).
        ap (read_state E target) is_object
        ∙ (read_state-rows target d rows no_error has_rows
            ∙ collect_rows_complete target rows [] out dec nod),
  )

  -- Whatever the response, a dict that is returned has no key twice.
  pub read_state-NodupKeys :
      (target : Text) (v : Value) (out : Dict Bytes)
      → read_state E target v ≡ ok out
      → NodupKeys out
  read_state-NodupKeys target v out h =
      let (d, rows, is_object, no_error, has_rows, dec, nod) = (read_state_iff target v out).0 h in
      nod
