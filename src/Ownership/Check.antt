-- ===== src/Ownership/Check.antt =====
-- The allowlist, the failures and `main`. The files below the scanned directories come in their
-- sorted order, with their paths from the repository's root.
use proof_forge_near.Prelude.{
  ℕ, suc, ◌+◌, Bool, true, false, not, ◌&&◌, ◌||◌, Option, none, some, List, [], ◌∷◌, ◌++◌, ◌==◌,
  if◌then◌else◌, Text, codes, text_eq, mem, starts_with, has_substring, take, map,
}
use proof_forge_near.Py.Space.{strip_space, splitlines}
use proof_forge_near.Py.Sorted.{sorted_set}
use proof_forge_near.Ownership.Patterns.{
  newline, Pattern, Match, finditer, found, direct_emit_import, sdk_forbidden_import,
  umbrella_import, application_import, Letters, protocol_vocabulary,
}

pub record Source : Type 0 where
  pub rel : Text
  pub text : Text

-- What the script reads. The allowlist is `none` where it is no file.
pub record Repository : Type 0 where
  pub examples : List Source
  pub allowlist : Option Text
  pub sdk_files : List Source
  pub target_files : List Source
  pub is_file : Text → Bool

pub data Rule : Type 0 where
  direct_emit application vocabulary : Rule

pub data Failure : Type 0 where
  broken_rule : Rule → Text → ℕ → Text → Failure
  new_umbrella missing_entry stale_entry : Text → Failure
  sdk_import : Text → ℕ → Text → Text → Failure

-- `text.count("\n")`
count_newlines : Text → ℕ
count_newlines [] = 0
count_newlines (c ∷ rest) = if c == newline then suc (count_newlines rest) else count_newlines rest

unfoldable pub line_number : Text → ℕ → ℕ
unfolding count_newlines
line_number text offset = count_newlines (take offset text) + 1

unfoldable pub report : Rule → Source → Pattern (Unit {0}) → List Failure
unfolding line_number strip_space finditer
report rule f pattern_at =
    map (λ m. broken_rule rule f.rel (line_number f.text m.start) (strip_space m.group))
      (finditer pattern_at f.text)

is_comment : Text → Bool
is_comment [] = false
is_comment (c ∷ rest) = c == b'#'

-- `line.replace("\\", "/")`
forward_slashes : Text → Text
forward_slashes = map (λ c. if c == b'\\' then b'/' else c)

allowlist_lines : List Text → List Text
unfolding is_comment forward_slashes strip_space text_eq
allowlist_lines [] = []
allowlist_lines (raw ∷ lines) =
    let line = strip_space raw in
    let more = allowlist_lines lines in
    if text_eq line [] || is_comment line then more else forward_slashes line ∷ more

unfoldable pub load_allowlist : Option Text → List Text
unfolding allowlist_lines splitlines
load_allowlist none = []
load_allowlist (some text) = allowlist_lines (splitlines text)

-- `UMBRELLA_IMPORT.search(text)`
unfoldable pub uses_umbrella : Source → Bool
unfolding finditer found umbrella_import
uses_umbrella f = found (finditer umbrella_import f.text)

unfoldable pub check_example : List Text → Source → List Failure
unfolding report direct_emit_import uses_umbrella mem
check_example allowlist f =
    report direct_emit f direct_emit_import
    ++ (if uses_umbrella f && not (mem f.rel allowlist) then new_umbrella f.rel ∷ [] else [])

unfoldable pub check_examples : List Text → List Source → List Failure
unfolding check_example
check_examples allowlist [] = []
check_examples allowlist (f ∷ fs) = check_example allowlist f ++ check_examples allowlist fs

unfoldable pub umbrella_users : List Source → List Text
unfolding uses_umbrella
umbrella_users [] = []
umbrella_users (f ∷ fs) =
    let more = umbrella_users fs in if uses_umbrella f then f.rel ∷ more else more

-- `{p for p in texts if keep(p)}`
unfoldable pub keep_texts : (Text → Bool) → List Text → List Text
keep_texts keep [] = []
keep_texts keep (p ∷ ps) = let more = keep_texts keep ps in if keep p then p ∷ more else more

unfoldable pub unknown_entries : (Text → Bool) → List Text → List Failure
unfolding keep_texts sorted_set
unknown_entries is_file allowlist =
    map missing_entry (sorted_set (keep_texts (λ p. not (is_file p)) allowlist))

unfoldable pub stale_entries : (Text → Bool) → List Text → List Text → List Failure
unfolding keep_texts sorted_set mem
stale_entries is_file users allowlist =
    map stale_entry (sorted_set (keep_texts (λ p. not (mem p users) && is_file p) allowlist))

-- The two branches on the group `target` of a match in an SDK file.
unfoldable pub is_own_target : Text → Option Text → Bool
is_own_target rel none = true
is_own_target rel (some target) =
    let folder = codes "ProofForge/Wasm/" ++ (target ++ codes "/") in
    has_substring folder rel || starts_with rel folder

unfoldable pub sdk_matches : Source → List (Match (Option Text × Text)) → List Failure
unfolding is_own_target
sdk_matches f [] = []
sdk_matches f (m ∷ ms) =
    (if is_own_target f.rel m.capture.0
      then sdk_import f.rel (line_number f.text m.start) m.capture.1 (strip_space m.group) ∷ []
      else [])
    ++ sdk_matches f ms

unfoldable pub check_sdk_file : Source → List Failure
unfolding sdk_matches finditer sdk_forbidden_import
check_sdk_file f = sdk_matches f (finditer sdk_forbidden_import f.text)

unfoldable pub check_sdk_files : List Source → List Failure
unfolding check_sdk_file
check_sdk_files [] = []
check_sdk_files (f ∷ fs) = check_sdk_file f ++ check_sdk_files fs

-- `path.name`
unfoldable pub base_name : Text → Text → Text
base_name name [] = name
base_name name (c ∷ rest) = base_name (if c == b'/' then [] else name ++ (c ∷ [])) rest

abbrev pub registry_file : Text
registry_file = codes "Registry.lean"

unfoldable pub check_target_file : Letters → Source → List Failure
unfolding base_name text_eq report application_import protocol_vocabulary
check_target_file L f =
    if text_eq (base_name [] f.rel) registry_file
    then []
    else report application f application_import ++ report vocabulary f (protocol_vocabulary L)

unfoldable pub check_target_files : Letters → List Source → List Failure
unfolding check_target_file
check_target_files L [] = []
check_target_files L (f ∷ fs) = check_target_file L f ++ check_target_files L fs

unfoldable pub failures : Letters → Repository → List Failure
unfolding load_allowlist check_examples unknown_entries stale_entries umbrella_users check_sdk_files
    check_target_files
failures L r =
    let allowlist = load_allowlist r.allowlist in
    check_examples allowlist r.examples
    ++ (unknown_entries r.is_file allowlist
        ++ (stale_entries r.is_file (umbrella_users r.examples) allowlist
            ++ (check_sdk_files r.sdk_files ++ check_target_files L r.target_files)))

unfoldable pub status : List Failure → ℕ
status [] = 0
status (f ∷ fs) = 1

-- The exit status.
unfoldable pub run : Letters → Repository → ℕ
unfolding status failures
run L r = status (failures L r)
