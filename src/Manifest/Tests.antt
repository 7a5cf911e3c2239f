-- ===== src/Manifest/Tests.antt =====
-- check_artifact_manifest.py at a small registry and output directory.
use proof_forge_near.Prelude.{
  ◌≡◌, ◌↔◌, refl, ◌||◌, ◌==◌, some, [], ◌∷◌, ◌++◌, starts_with, Text, codes, text_eq, All,
}
use proof_forge_near.Py.Dict.{Dict, NodupKeys, lookup, insert}
use proof_forge_near.Manifest.{
  is_hex, add_entries, strip_suffix, check_entry, file_at, check_expected_file, read_digest,
  parse_registry, artifact_stem, File, Library, check_target, diagnostics, report, entries_found,
  magic, digest_mismatch,
}
use proof_forge_near.Manifest.Registry.{HasHexDigest, parse_registry_iff}
use proof_forge_near.Manifest.Target.{IsOwned, HasFiles, check_target_iff}
use proof_forge_near.Manifest.Report.{IsClean, diagnostics_status}

abbrev entries : Dict Text
entries = (codes "Counter", codes "ba9876") ∷ []

-- ASCII texts of one line.
abbrev python : Library
python = record {
  decode_utf8 = λ b. some b;
  splitlines = λ t. t ∷ [];
  space = λ c. c == b' ' || c == b'\n';
}

abbrev wasm_file : File
wasm_file = record { above = []; name = codes "Counter.wasm"; size = 4; content = some magic }

abbrev wat_file : Text → File
wat_file digest = record {
  above = [];
  name = codes "Counter.wat";
  size = 16;
  content = some (codes ";; digest=" ++ digest);
}

parse_registry_iff_example : (entries ≡ entries) × NodupKeys entries × All HasHexDigest entries
unfolding parse_registry add_entries lookup is_hex insert
parse_registry_iff_example = (parse_registry_iff entries entries).0 refl

mismatch_found :
    check_target python entries (some (wasm_file ∷ wat_file (codes "000111") ∷ []))
    ≡ digest_mismatch (codes "Counter") (codes "ba9876") (codes "000111") ∷ []
unfolding check_target artifact_stem strip_suffix text_eq lookup check_entry file_at
    check_expected_file read_digest starts_with
mismatch_found = refl

check_target_iff_example :
    All (IsOwned python entries) (wasm_file ∷ wat_file (codes "ba9876") ∷ [])
    × All (HasFiles python (wasm_file ∷ wat_file (codes "ba9876") ∷ [])) entries
unfolding check_target artifact_stem strip_suffix text_eq lookup check_entry file_at
    check_expected_file read_digest starts_with
check_target_iff_example =
    (check_target_iff python entries (wasm_file ∷ wat_file (codes "ba9876") ∷ [])).0 refl

diagnostics_status_example :
    (report (diagnostics python (entries_found entries) (some (wasm_file ∷ []))) ≡ 0)
    ↔ IsClean python entries (wasm_file ∷ [])
diagnostics_status_example = diagnostics_status python entries (wasm_file ∷ [])
