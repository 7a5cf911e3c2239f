-- ===== src/Observation/Adapter/Accepts.antt =====
-- The responses that the adapter accepts, and the observation that each gives.
use proof_forge_near.Prelude.{
  ℕ, ◌+◌, ◌≡◌, ◌≢◌, ◌↔◌, refl, ap, false, Option, none, some, List, [], ◌∷◌, map, arith, Text,
  Bytes, All, codes,
}
use proof_forge_near.Py.Result.{Result, ok, err}
use proof_forge_near.Py.Int.{pos}
use proof_forge_near.Py.Bytes.{IsByte}
use proof_forge_near.Py.Utf8.{encode}
use proof_forge_near.Py.Value.{
  Value, int, str, bytes, list, dict, Items, nil, item, Entries, get, has_key,
}
use proof_forge_near.Observation.Adapter.{
  CallObservation, storage_copy, require_name, require_bytes, require_object, receipt_fields,
  reject_fields, result_bytes, require_result, log_bytes, require_logs,
  observation_from_view_response,
}
use proof_forge_near.Observation.Error.{ObservationError, pre_storage, post_storage}

-- The JSON arrays of numbers and of strings.
abbrev pub byte_items : Bytes → Items
byte_items [] = nil
byte_items (b ∷ bs) = item (int (pos b)) (byte_items bs)

abbrev pub text_items : List Text → Items
text_items [] = nil
text_items (t ∷ ts) = item (str t) (text_items ts)

result_bytes_sound :
    (i : ℕ) (xs : Items) (ret : Bytes)
    → result_bytes i xs ≡ ok ret
    → (xs ≡ byte_items ret) × All IsByte ret
unfolding result_bytes
result_bytes_sound i nil [] h = (refl, tt)
result_bytes_sound i nil (b ∷ ret) h = cc
result_bytes_sound i (item (int (pos n)) rest) [] h = ground arith
result_bytes_sound i (item (int (pos n)) rest) (b ∷ ret) h =
    ground (arith, result_bytes_sound (i + 1) rest ret)
result_bytes_sound i (item _ rest) ret h = cc

result_bytes_complete :
    (i : ℕ) (ret : Bytes) → All IsByte ret → result_bytes i (byte_items ret) ≡ ok ret
unfolding result_bytes
result_bytes_complete i [] h = refl
result_bytes_complete i (b ∷ ret) h = ground (arith, result_bytes_complete (i + 1) ret h.1)

log_bytes-nonempty :
    (i : ℕ) (text : Text) (rest : Items) → log_bytes i (item (str text) rest) ≢ ok []
unfolding log_bytes
log_bytes-nonempty i text rest h = ground arith

log_bytes_step :
    (i : ℕ) (text : Text) (rest : Items) (b : Bytes) (logs : List Bytes)
    → log_bytes i (item (str text) rest) ≡ ok (b ∷ logs)
    → (encode text ≡ some b) × (log_bytes (i + 1) rest ≡ ok logs)
unfolding log_bytes
log_bytes_step i text rest b logs h = ground arith

log_bytes_sound :
    (i : ℕ) (xs : Items) (logs : List Bytes)
    → log_bytes i xs ≡ ok logs
    → (texts : List Text) × (xs ≡ text_items texts) × (map encode texts ≡ map some logs)
unfolding log_bytes
log_bytes_sound i nil [] h = ([], refl, refl)
log_bytes_sound i nil (b ∷ logs) h = cc
log_bytes_sound i (item (str text) rest) [] h = absurd (log_bytes-nonempty i text rest h)
log_bytes_sound i (item (str text) rest) (b ∷ logs) h =
    let (e, r) = log_bytes_step i text rest b logs h in
    let (texts, p, q) = log_bytes_sound (i + 1) rest logs r in
    (text ∷ texts, ap (λ xs. item (str text) xs) p, cc (e, q))
log_bytes_sound i (item _ rest) logs h = cc

log_bytes_complete :
    (i : ℕ) (texts : List Text) (logs : List Bytes)
    → map encode texts ≡ map some logs
    → log_bytes i (text_items texts) ≡ ok logs
unfolding log_bytes
log_bytes_complete i [] [] h = refl
log_bytes_complete i [] (b ∷ logs) h = cc
log_bytes_complete i (t ∷ texts) [] h = cc
log_bytes_complete i (t ∷ texts) (b ∷ logs) h =
    ground (arith, log_bytes_complete (i + 1) texts logs)

-- What the adapter is given, and the observation that it makes of it.
pub record IsViewObservation (export_name input response pre post : Value) (o : CallObservation)
    : Type 0 where
  pub named : export_name ≡ str o.export_name
  pub name_nonempty : o.export_name ≢ []
  pub input_bytes : input ≡ bytes o.input
  pub fields : Entries
  pub object : response ≡ dict fields
  pub no_error : get (codes "error") fields ≡ none
  pub no_receipts : All (λ f. get f fields ≡ none) receipt_fields
  pub returned : Bytes
  pub returned_bytes : All IsByte returned
  pub result : get (codes "result") fields ≡ some (list (byte_items returned))
  pub return_data : o.return_data ≡ some returned
  pub texts : List Text
  pub log_texts : get (codes "logs") fields ≡ some (list (text_items texts))
  pub log_bytes : map encode texts ≡ map some o.logs
  pub no_failure : o.failure_observed ≡ false
  pub no_promises : o.promises ≡ []
  pub pre_copy : storage_copy pre pre_storage ≡ ok o.pre
  pub post_copy : storage_copy post post_storage ≡ ok o.post

require_name_sound :
    (v : Value) (name : Text) → require_name v ≡ ok name → (v ≡ str name) × (name ≢ [])
unfolding require_name
require_name_sound (str (c ∷ t)) name h = (ground arith, λ e. ground arith)
require_name_sound (str []) name h = cc
require_name_sound _ name h = cc

require_bytes_sound : (v : Value) (b : Bytes) → require_bytes v ≡ ok b → v ≡ bytes b
unfolding require_bytes
require_bytes_sound (bytes x) b h = cc
require_bytes_sound _ b h = cc

require_object_sound : (v : Value) (d : Entries) → require_object v ≡ ok d → v ≡ dict d
unfolding require_object
require_object_sound (dict x) d h = cc
require_object_sound _ d h = cc

has_key-false : (k : Text) (d : Entries) → (has_key k d ≡ false) ↔ (get k d ≡ none)
unfolding has_key
has_key-false k d = ground arith

reject_fields_iff :
    (fs : List Text) (d : Entries) → (reject_fields fs d ≡ ok tt) ↔ All (λ f. get f d ≡ none) fs
unfolding reject_fields
reject_fields_iff [] d = (λ h. tt, λ h. refl)
reject_fields_iff (f ∷ fs) d =
    let more = reject_fields_iff fs d in
    let here = has_key-false f d in
    (λ h. let (p, q) = split h in (here.0 p, more.0 q), λ h. joined (here.1 h.0) (more.1 h.1))
  where
    split : reject_fields (f ∷ fs) d ≡ ok tt → (has_key f d ≡ false) × (reject_fields fs d ≡ ok tt)
    split h = ground arith

    joined : has_key f d ≡ false → reject_fields fs d ≡ ok tt → reject_fields (f ∷ fs) d ≡ ok tt
    joined p q = ground arith

require_result_sound :
    (v : Option Value) (ret : Bytes)
    → require_result v ≡ ok ret
    → (v ≡ some (list (byte_items ret))) × All IsByte ret
unfolding require_result
require_result_sound (some (list xs)) ret h =
    let (e, b) = result_bytes_sound 0 xs ret h in (ap (λ y. some (list y)) e, b)
require_result_sound none ret h = cc
require_result_sound (some _) ret h = cc

require_logs_sound :
    (v : Option Value) (logs : List Bytes)
    → require_logs v ≡ ok logs
    → (texts : List Text) × (v ≡ some (list (text_items texts)))
      × (map encode texts ≡ map some logs)
unfolding require_logs
require_logs_sound (some (list xs)) logs h =
    let (texts, e, b) = log_bytes_sound 0 xs logs h in (texts, ap (λ y. some (list y)) e, b)
require_logs_sound none logs h = cc
require_logs_sound (some _) logs h = cc

require_name_complete : (name : Text) → name ≢ [] → require_name (str name) ≡ ok name
unfolding require_name
require_name_complete [] h = absurd (h refl)
require_name_complete (c ∷ name) h = refl

require_bytes_complete : (b : Bytes) → require_bytes (bytes b) ≡ ok b
unfolding require_bytes
require_bytes_complete b = refl

require_object_complete : (d : Entries) → require_object (dict d) ≡ ok d
unfolding require_object
require_object_complete d = refl

require_result_complete :
    (ret : Bytes) → All IsByte ret → require_result (some (list (byte_items ret))) ≡ ok ret
unfolding require_result
require_result_complete ret h = result_bytes_complete 0 ret h

require_logs_complete :
    (texts : List Text) (logs : List Bytes)
    → map encode texts ≡ map some logs
    → require_logs (some (list (text_items texts))) ≡ ok logs
unfolding require_logs
require_logs_complete texts logs h = log_bytes_complete 0 texts logs h

module _ (export_name input response pre post : Value) where
  accepted_steps :
      (d : Entries) (o : CallObservation)
      → observation_from_view_response export_name input (dict d) pre post ≡ ok o
      → (require_name export_name ≡ ok o.export_name)
        × (require_bytes input ≡ ok o.input)
        × (has_key (codes "error") d ≡ false)
        × (reject_fields receipt_fields d ≡ ok tt)
        × (require_logs (get (codes "logs") d) ≡ ok o.logs)
        × (o.failure_observed ≡ false)
        × (o.promises ≡ [])
        × (storage_copy pre pre_storage ≡ ok o.pre)
        × (storage_copy post post_storage ≡ ok o.post)
  unfolding observation_from_view_response require_object
  accepted_steps d o h = ground arith

  accepted_result :
      (d : Entries) (o : CallObservation)
      → observation_from_view_response export_name input (dict d) pre post ≡ ok o
      → (ret : Bytes) × (o.return_data ≡ some ret)
        × (require_result (get (codes "result") d) ≡ ok ret)
  unfolding observation_from_view_response require_object
  accepted_result d o h = ground arith

  response_refused :
      (e : ObservationError) (o : CallObservation)
      → require_object response ≡ err e
      → observation_from_view_response export_name input response pre post ≢ ok o
  unfolding observation_from_view_response
  response_refused e o q h = ground arith

  accepted_sound :
      (r : Result ObservationError Entries) (o : CallObservation)
      → require_object response ≡ r
      → observation_from_view_response export_name input response pre post ≡ ok o
      → IsViewObservation export_name input response pre post o
  accepted_sound (err e) o q h = absurd (response_refused e o q h)
  accepted_sound (ok d) o q h =
      let object = require_object_sound response d q in
      let h' = rw object at h in
      let s = accepted_steps d o h' in
      let (ret, data_eq, result_eq) = accepted_result d o h' in
      let name = require_name_sound export_name o.export_name s.0 in
      let result = require_result_sound (get (codes "result") d) ret result_eq in
      let (texts, log_eq, log_codes) = require_logs_sound (get (codes "logs") d) o.logs s.4 in
      record {
        named = name.0;
        name_nonempty = name.1;
        input_bytes = require_bytes_sound input o.input s.1;
        fields = d;
        object = object;
        no_error = (has_key-false (codes "error") d).0 s.2;
        no_receipts = (reject_fields_iff receipt_fields d).0 s.3;
        returned = ret;
        returned_bytes = result.1;
        result = result.0;
        return_data = data_eq;
        texts = texts;
        log_texts = log_eq;
        log_bytes = log_codes;
        no_failure = s.5;
        no_promises = s.6;
        pre_copy = s.7;
        post_copy = s.8;
      }

  accepted_complete :
      (o : CallObservation)
      → IsViewObservation export_name input response pre post o
      → observation_from_view_response export_name input response pre post ≡ ok o
  unfolding observation_from_view_response
  accepted_complete o v =
      let name : require_name export_name ≡ ok o.export_name =
        rw v.named (require_name_complete o.export_name v.name_nonempty) in
      let inp : require_bytes input ≡ ok o.input =
        rw v.input_bytes (require_bytes_complete o.input) in
      let object : require_object response ≡ ok v.fields =
        rw v.object (require_object_complete v.fields) in
      let no_error : has_key (codes "error") v.fields ≡ false =
        (has_key-false (codes "error") v.fields).1 v.no_error in
      let receipts : reject_fields receipt_fields v.fields ≡ ok tt =
        (reject_fields_iff receipt_fields v.fields).1 v.no_receipts in
      let result : require_result (get (codes "result") v.fields) ≡ ok v.returned =
        rw v.result (require_result_complete v.returned v.returned_bytes) in
      let logs : require_logs (get (codes "logs") v.fields) ≡ ok o.logs =
        rw v.log_texts (require_logs_complete v.texts o.logs v.log_bytes) in
      ground (arith, name, inp, object, no_error, receipts, result, logs, v.pre_copy, v.post_copy)

  -- The adapter gives an observation exactly when the export name is a nonempty string, the input
  -- bytes, and the response an object with no error and no receipt field whose `result` is an array
  -- of numbers below 256 and whose `logs` is an array of strings with a UTF-8 encoding; the
  -- observation then holds the name, the input, those bytes, the encoded logs, no promise and the
  -- copies of both snapshots.
  pub observation_from_view_response_iff :
      (o : CallObservation)
      → (observation_from_view_response export_name input response pre post ≡ ok o)
        ↔ IsViewObservation export_name input response pre post o
  observation_from_view_response_iff o =
      (accepted_sound (require_object response) o refl, accepted_complete o)
