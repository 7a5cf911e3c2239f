-- ===== src/Manifest.antt =====
-- scripts/check_artifact_manifest.py: the registry and the build artifacts. The matches of `ENTRY_RE`
-- in the registry's text, the UTF-8 decoder, `str.splitlines` and the class `\s` of `re` are
-- parameters; the registry file and the output directory are arguments.
pub mod Registry
pub mod Target
pub mod Report
pub mod Tests
use proof_forge_near.Prelude.{
  ℕ, Bool, true, false, not, ◌&&◌, ◌||◌, Option, none, some, List, [], ◌∷◌, ◌++◌, ◌==◌, leb,
  if◌then◌else◌, Text, Bytes, codes, text_eq, mem, starts_with, length, take, drop, map,
}
use proof_forge_near.Py.Result.{Result, ok, err}
use proof_forge_near.Py.Dict.{Dict, lookup, insert}

-- `[0-9a-f]`
pub is_hex_digit : ℕ → Bool
is_hex_digit c = (leb b'0' c && leb c b'9') || (leb b'a' c && leb c b'f')

all_hex : Text → Bool
unfolding is_hex_digit
all_hex [] = true
all_hex (c ∷ t) = is_hex_digit c && all_hex t

-- `HEX_RE.fullmatch(digest)`
unfoldable pub is_hex : Text → Bool
unfolding all_hex
is_hex [] = false
is_hex (c ∷ t) = all_hex (c ∷ t)

pub data RegistryError : Type 0 where
  duplicate_name malformed_digest : Text → RegistryError

-- The loop of `parse_registry` over the matches.
unfoldable pub add_entries : List (Text × Text) → Dict Text → Result RegistryError (Dict Text)
add_entries [] entries = ok entries
add_entries ((name, digest) ∷ rest) entries = elim (lookup name entries) [
  | some old ↦ err (duplicate_name name)
  | none ↦ elim (is_hex digest) [
    | false ↦ err (malformed_digest name)
    | true ↦ add_entries rest (insert name digest entries)
  ]
]

unfoldable pub parse_registry : List (Text × Text) → Result RegistryError (Dict Text)
parse_registry found = add_entries found []

-- `SUFFIXES_BY_SPECIFICITY`, and the suffixes of the one target.
pub data Suffix : Type 0 where
  wasm wat : Suffix

abbrev pub suffix_text : Suffix → Text
suffix_text wasm = codes ".wasm"
suffix_text wat = codes ".wat"

-- `filename.endswith(suffix)`, and the name in front of it.
unfoldable pub strip_suffix : Text → Text → Option Text
strip_suffix suffix [] = if text_eq suffix [] then some [] else none
strip_suffix suffix (c ∷ t) =
    let more = strip_suffix suffix t in
    if text_eq (c ∷ t) suffix then some [] else (elim more [ none ↦ none | some s ↦ some (c ∷ s) ])

-- `artifact_suffix` and the stem of `iter_artifacts`.
unfoldable pub artifact_stem : Text → Option Text
artifact_stem name = elim (strip_suffix (codes ".wasm") name) [
  | some stem ↦ some stem
  | none ↦ strip_suffix (codes ".wat") name
]

-- A file below the output directory: the directories above it, its name and its bytes; `none` where
-- reading raises an `OSError`, and then the size that `stat` gives.
pub record File : Type 0 where
  pub above : List Text
  pub name : Text
  pub size : ℕ
  pub content : Option Bytes

-- `out_dir / name`, if it is a file.
unfoldable pub file_at : Text → List File → Option File
file_at name [] = none
file_at name (f ∷ fs) =
    let more = file_at name fs in
    elim f.above [ [] ↦ (if text_eq f.name name then some f else more) | d ∷ ds ↦ more ]

pub data Diag : Type 0 where
  missing_registry missing_out_dir empty_registry : Diag
  malformed_registry : RegistryError → Diag
  unreadable_registry : Diag
  registry_count : ℕ → Diag
  orphan_stem : Text → Diag
  missing_artifact : Text → Suffix → Diag
  empty_file missing_digest unreadable_file not_wasm : Text → Diag
  digest_mismatch : Text → Text → Text → Diag

abbrev pub expected_count : ℕ
expected_count = 48

abbrev pub magic : Bytes
magic = 0 ∷ b'a' ∷ b's' ∷ b'm' ∷ []

-- What the script takes from Python's library.
pub record Library : Type 0 where
  pub decode_utf8 : Bytes → Option Text
  pub splitlines : Text → List Text
  pub space : ℕ → Bool

module _ (L : Library) where
  skip_spaces : Text → Text
  skip_spaces [] = []
  skip_spaces (c ∷ rest) = elim (L.space c) [ true ↦ skip_spaces rest | false ↦ c ∷ rest ]

  all_spaces : Text → Bool
  all_spaces [] = true
  all_spaces (c ∷ t) = L.space c && all_spaces t

  hex_run : Text → Text × Text
  unfolding is_hex_digit
  hex_run [] = ([], [])
  hex_run (c ∷ rest) =
      let (run, behind) = hex_run rest in
      if is_hex_digit c then (c ∷ run, behind) else ([], c ∷ rest)

  -- `^;;\s*digest=([0-9a-f]+)\s*$` on one line; no shorter run of digits has a tail that fits.
  digest_line : Text → Option Text
  unfolding skip_spaces all_spaces hex_run
  digest_line line =
      let label = skip_spaces (drop 2 line) in
      let (run, rest) = hex_run (drop 7 label) in
      if starts_with line (codes ";;")
        && starts_with label (codes "digest=")
        && not (text_eq run [])
        && all_spaces rest
      then some run
      else none

  first_digest : List Text → Option Text
  unfolding digest_line
  first_digest [] = none
  first_digest (line ∷ lines) =
      let more = first_digest lines in
      elim (digest_line line) [ some digest ↦ some digest | none ↦ more ]

  unfoldable pub read_digest : File → Option Text
  unfolding first_digest
  read_digest f = elim f.content [
    | none ↦ none
    | some b ↦ elim (L.decode_utf8 b) [ none ↦ none | some text ↦ first_digest (L.splitlines text) ]
  ]

  check_wasm : File → List Diag
  check_wasm f = elim f.content [
    | none ↦ unreadable_file f.name ∷ []
    | some b ↦ if text_eq (take 4 b) magic then [] else not_wasm f.name ∷ []
  ]

  unfoldable pub check_expected_file : File → Suffix → List Diag
  unfolding check_wasm
  check_expected_file f wat =
      if f.size == 0
      then empty_file f.name ∷ []
      else elim (read_digest f) [ none ↦ missing_digest f.name ∷ [] | some d ↦ [] ]
  check_expected_file f wasm = if f.size == 0 then empty_file f.name ∷ [] else check_wasm f

  check_artifact : List File → Text → Suffix → List Diag
  check_artifact out name suffix = elim (file_at (name ++ suffix_text suffix) out) [
    | none ↦ missing_artifact name suffix ∷ []
    | some f ↦ check_expected_file f suffix
  ]

  compare_digest : Text → Text → Option Text → List Diag
  compare_digest name expected none = []
  compare_digest name expected (some found) =
      if text_eq found expected then [] else digest_mismatch name expected found ∷ []

  -- `digest_path.is_file() and digest_path.stat().st_size > 0`
  check_digest : List File → Text → Text → List Diag
  unfolding compare_digest
  check_digest out name expected = elim (file_at (name ++ codes ".wat") out) [
    | none ↦ []
    | some f ↦ if f.size == 0 then [] else compare_digest name expected (read_digest f)
  ]

  unfoldable pub check_entry : List File → Text → Text → List Diag
  unfolding check_artifact check_digest
  check_entry out name digest =
      check_artifact out name wasm ++ (check_artifact out name wat ++ check_digest out name digest)

  check_entries : List File → Dict Text → List Diag
  check_entries out [] = []
  check_entries out ((name, digest) ∷ rest) = check_entry out name digest ++ check_entries out rest

  orphan : Dict Text → Option Text → List Diag
  orphan entries none = []
  orphan entries (some stem) = elim (lookup stem entries) [
    | none ↦ orphan_stem stem ∷ []
    | some d ↦ []
  ]

  orphans : Dict Text → List File → List Diag
  unfolding orphan
  orphans entries [] = []
  orphans entries (f ∷ fs) = orphan entries (artifact_stem f.name) ++ orphans entries fs

  -- The output directory is `none` where it is no directory.
  unfoldable pub check_target : Dict Text → Option (List File) → List Diag
  unfolding orphans check_entries
  check_target entries none = missing_out_dir ∷ []
  check_target entries (some out) = orphans entries out ++ check_entries out entries

-- The registry file: it is missing, reading or decoding it raises, or it has these entries.
pub data RegistryFile : Type 0 where
  absent unreadable : RegistryFile
  entries_found : List (Text × Text) → RegistryFile

unfoldable pub load_entries : RegistryFile → Dict Text × List Diag
load_entries absent = ([], missing_registry ∷ [])
load_entries unreadable = ([], unreadable_registry ∷ [])
load_entries (entries_found found) = elim (parse_registry found) [
  | err e ↦ ([], malformed_registry e ∷ [])
  | ok entries ↦ (
    entries,
    if length entries == expected_count then [] else registry_count (length entries) ∷ [],
  )
]

module _ (L : Library) where
  empty_check : Dict Text → List Diag → List Diag
  empty_check [] [] = empty_registry ∷ []
  empty_check [] (d ∷ ds) = []
  empty_check (e ∷ es) ds = []

  target_check : Dict Text → Option (List File) → List Diag
  target_check [] out = []
  target_check (e ∷ es) out = check_target L (e ∷ es) out

  -- `diagnostics` on the repository's own registry, before `sorted(set(diags))`.
  unfoldable pub diagnostics : RegistryFile → Option (List File) → List Diag
  unfolding empty_check target_check
  diagnostics registry out =
      let (entries, load_diags) = load_entries registry in
      load_diags ++ (empty_check entries load_diags ++ target_check entries out)

-- `report`: the exit status.
unfoldable pub report : List Diag → ℕ
report [] = 0
report (d ∷ ds) = 1
