-- ===== src/Observation/Check/Exact.antt =====
-- What `require_nullary_uint64_view_observation_v1` accepts.
use proof_forge_near.Prelude.{
  ℕ, ◌≡◌, ◌↔◌, refl, sym, true, false, Option, none, some, [], arith, Text, Bytes, text_eq_iff,
  length,
}
use proof_forge_near.Py.Result.{ok}
use proof_forge_near.Py.Bytes.{from_le}
use proof_forge_near.Py.Dict.{NodupKeys, lookup, dict_eq, dict_eq_iff}
use proof_forge_near.Observation.Adapter.{CallObservation}
use proof_forge_near.Observation.Check.{require_nullary_uint64_view}

-- The observation of a view that took no input, failed nowhere, returned the eight expected bytes,
-- logged nothing, made no promise and left the storage as it was.
pub record IsExactView (o : CallObservation) (name : Text) (expected : Bytes) : Type 0 where
  pub width : length expected ≡ 8
  pub named : o.export_name ≡ name
  pub nullary : o.input ≡ []
  pub no_failure : o.failure_observed ≡ false
  pub returned : o.return_data ≡ some expected
  pub no_logs : o.logs ≡ []
  pub no_promises : o.promises ≡ []
  pub same_storage : (k : Text) → lookup k o.pre ≡ lookup k o.post

module _ (o : CallObservation) (name : Text) (expected : Bytes) where
  -- The checks, with the comparison of the two snapshots as a test.
  abbrev Checked : Type 0
  Checked =
      (length expected ≡ 8)
      × (o.export_name ≡ name)
      × (o.input ≡ [])
      × (o.failure_observed ≡ false)
      × (o.return_data ≡ some expected)
      × (o.logs ≡ [])
      × (o.promises ≡ [])
      × (dict_eq o.post o.pre ≡ true)

  checked_of_ok :
      (r : Option Bytes) (n : ℕ)
      → o.return_data ≡ r
      → require_nullary_uint64_view o name expected ≡ ok n
      → Checked × (n ≡ from_le expected)
  unfolding require_nullary_uint64_view
  checked_of_ok none n e h = ground (arith, e)
  checked_of_ok (some b) n e h =
      ground
        (arith, e, text_eq_iff o.export_name name, text_eq_iff o.input [], text_eq_iff b expected)

  ok_of_checked : Checked → require_nullary_uint64_view o name expected ≡ ok (from_le expected)
  unfolding require_nullary_uint64_view
  ok_of_checked h =
      ground (
        arith,
        text_eq_iff o.export_name name,
        text_eq_iff o.input [],
        text_eq_iff expected expected,
      )

  -- The check gives `n` exactly when the observation is that of an exact view and `n` is the
  -- little-endian value of the expected bytes. No snapshot has a key twice.
  pub require_nullary_uint64_view_iff :
      (n : ℕ)
      → NodupKeys o.pre
      → NodupKeys o.post
      → (require_nullary_uint64_view o name expected ≡ ok n)
        ↔ (IsExactView o name expected × (n ≡ from_le expected))
  require_nullary_uint64_view_iff n u v =
      let same = dict_eq_iff o.post o.pre v u in
      (
        λ h.
            let (c, e) = checked_of_ok o.return_data n refl h in
            (
              record {
                width = c.0;
                named = c.1;
                nullary = c.2;
                no_failure = c.3;
                returned = c.4;
                no_logs = c.5;
                no_promises = c.6;
                same_storage = λ k. sym (same.0 c.7 k);
              },
              e,
            ),
        λ (e, v'). rw v' (
            ok_of_checked (
              e.width,
              e.named,
              e.nullary,
              e.no_failure,
              e.returned,
              e.no_logs,
              e.no_promises,
              same.1 (λ k. sym (e.same_storage k)),
            )),
      )
