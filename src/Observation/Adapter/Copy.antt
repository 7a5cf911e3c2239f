-- ===== src/Observation/Adapter/Copy.antt =====
-- `_storage_copy` of a mapping from bytes to bytes.
use proof_forge_near.Prelude.{
  ◌≡◌, refl, sym, ap, ◌∙◌, [], ◌∷◌, ◌++◌, append-nil, append_assoc, Bytes,
}
use proof_forge_near.Py.Result.{ok}
use proof_forge_near.Py.Dict.{Dict, insert, NodupKeys, insert-new, lookup_middle}
use proof_forge_near.Py.Value.{bytes, dict, Entries, entry, as_mapping}
use proof_forge_near.Observation.Adapter.{copy_rows, storage_copy}
use proof_forge_near.Observation.Error.{Snapshot}

copy_rows-entry :
    (s : Snapshot) (k v : Bytes) (rest : Entries) (copied : Dict Bytes)
    → copy_rows s (entry (bytes k) (bytes v) rest) copied ≡ copy_rows s rest (insert k v copied)
unfolding copy_rows
copy_rows-entry s k v rest copied = refl

copy_rows-as_mapping :
    (s : Snapshot) (d copied : Dict Bytes)
    → NodupKeys (copied ++ d)
    → copy_rows s (as_mapping d) copied ≡ ok (copied ++ d)
unfolding copy_rows
copy_rows-as_mapping s [] copied u = ap ok (sym (append-nil copied))
copy_rows-as_mapping s ((k, v) ∷ d) copied u =
    let assoc = append_assoc copied ((k, v) ∷ []) d in
    copy_rows-entry s k v (as_mapping d) copied
    ∙ rw (insert-new k v copied (lookup_middle k v copied d u))
        (copy_rows-as_mapping s d (copied ++ ((k, v) ∷ [])) (rw assoc u) ∙ ap ok assoc)

-- A mapping with no key twice is copied as it is.
pub storage_copy-as_mapping :
    (s : Snapshot) (d : Dict Bytes) → NodupKeys d → storage_copy (dict (as_mapping d)) s ≡ ok d
unfolding storage_copy
storage_copy-as_mapping s d u = copy_rows-as_mapping s d [] u
