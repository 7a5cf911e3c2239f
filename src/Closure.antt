-- ===== src/Closure.antt =====
-- scripts/check_sdk_import_closure.py: the walk over the imports of the SDK. The files under the
-- repository are the parameter `file`, from the parts of a path to a text, and the class `\s` of
-- Python's `re` is the parameter `space`.
pub mod Names
pub mod Reachable
pub mod Fuel
pub mod Gate
pub mod Tests
use proof_forge_near.Prelude.{
  ℕ, zero, suc, Bool, true, false, not, ◌&&◌, ◌||◌, Option, none, some, List, [], ◌∷◌, ◌++◌, ◌==◌,
  if◌then◌else◌, leb, Text, codes, text_eq, mem, starts_with, length, drop,
}
use proof_forge_near.ModuleNames.{dot, split_dots, is_ident, name_run}

abbrev pub forbidden_parts : List Text
forbidden_parts = codes "Emit" ∷ codes "Assemble" ∷ codes "Registry" ∷ []

abbrev pub wasm_prefix : Text
wasm_prefix = codes "ProofForge.Wasm."

any_forbidden : List Text → Bool
any_forbidden [] = false
any_forbidden (p ∷ ps) = mem p forbidden_parts || any_forbidden ps

unfoldable pub is_forbidden : Text → Bool
unfolding any_forbidden
is_forbidden m =
    if starts_with m wasm_prefix
    then any_forbidden (split_dots (drop (length wasm_prefix) m))
    else false

-- `PF.joinpath(*parts[1:]).with_suffix(".lean")`, from the repository's root.
with_suffix : List Text → List Text
with_suffix [] = []
with_suffix (p ∷ []) = (p ++ codes ".lean") ∷ []
with_suffix (p ∷ q ∷ ps) = p ∷ with_suffix (q ∷ ps)

module _ (file : List Text → Option Text) where
  -- The text of the module's file, if the module is one of ProofForge and its file is there.
  unfoldable pub module_text : Text → Option Text
  unfolding with_suffix
  module_text m = elim (split_dots m) [
    | [] ↦ none
    | p ∷ ps ↦ if text_eq p (codes "ProofForge") then file (with_suffix (p ∷ ps)) else none
  ]

-- `(?:\.[A-Za-z0-9_]+)+` for a whole run. The flags say that a part may end here.
is_name_tail : Bool → Text → Bool
is_name_tail may_end [] = may_end
is_name_tail may_end (c ∷ rest) =
    if c == dot then may_end && is_name_tail false rest else is_name_tail true rest

starts_with_dot : Text → Bool
starts_with_dot [] = false
starts_with_dot (c ∷ rest) = c == dot

module _ (space : ℕ → Bool) where
  skip_spaces : Text → Text
  skip_spaces [] = []
  skip_spaces (c ∷ rest) = elim (space c) [ true ↦ skip_spaces rest | false ↦ c ∷ rest ]

  -- `\s*(?:--.*)?$`: the space behind the name has a line end, or the text or a comment ends it.
  is_line_tail : Bool → Text → Bool
  is_line_tail seen [] = true
  is_line_tail seen (c ∷ rest) =
      if space c
      then is_line_tail (seen || c == b'\n') rest
      else seen || starts_with (c ∷ rest) (codes "--")

  -- The module name, where `import` and the rest of the pattern stand at the head of the text. A
  -- shorter run than the longest is followed by one of its characters, so it matches no tail.
  import_here : Text → Option Text
  unfolding name_run is_name_tail starts_with_dot skip_spaces is_line_tail is_ident
  import_here text =
      let behind = drop 6 text in
      let target = skip_spaces behind in
      let (run, rest) = name_run (drop 10 target) in
      if starts_with text (codes "import")
        && not (leb (length behind) (length target))
        && starts_with target (codes "ProofForge")
        && starts_with_dot run
        && is_name_tail true run
        && is_line_tail false rest
      then some (codes "ProofForge" ++ run)
      else none

  cons_some : Option Text → List Text → List Text
  cons_some none ms = ms
  cons_some (some m) ms = m ∷ ms

  -- `IMPORT_RE.finditer(text)`: the matches begin where only space stands behind the line's start,
  -- and none of them reaches into another. The flag says that this is such a place.
  imports_from : Bool → Text → List Text
  unfolding import_here cons_some
  imports_from at_start [] = []
  imports_from at_start (c ∷ rest) =
      let more = imports_from (c == b'\n' || (at_start && space c)) rest in
      cons_some (if at_start then import_here (c ∷ rest) else none) more

  unfoldable pub text_imports : Text → List Text
  unfolding imports_from
  text_imports text = imports_from true text

  unfoldable pub imports_of : (List Text → Option Text) → Text → List Text
  imports_of file m = elim (module_text file m) [ none ↦ [] | some text ↦ text_imports text ]

-- `if dep not in seen: q.append(dep)`
pub unseen : List Text → List Text → List Text
unseen seen [] = []
unseen seen (d ∷ ds) = let more = unseen seen ds in if mem d seen then more else d ∷ more

module _ (imports : Text → List Text) where
  -- The loop of `closure`, on fuel: the deque, `seen` and `bad`.
  unfoldable pub closure_loop :
      ℕ → List Text → List Text → List Text → Option (List Text × List Text)
  unfolding unseen
  closure_loop zero q seen bad = none
  closure_loop (suc fuel) [] seen bad = some (seen, bad)
  closure_loop (suc fuel) (m ∷ q) seen bad = elim (mem m seen) [
    | true ↦ closure_loop fuel q seen bad
    | false ↦ elim (is_forbidden m) [
      | true ↦ closure_loop fuel q (m ∷ seen) (bad ++ (m ∷ []))
      | false ↦ closure_loop fuel (q ++ unseen (m ∷ seen) (imports m)) (m ∷ seen) bad
    ]
  ]

  unfoldable pub closure : ℕ → Text → Option (List Text × List Text)
  closure fuel entry = closure_loop fuel (entry ∷ []) [] []

-- The failures of an entry point, before they are sorted: its file is missing, or it reaches the
-- modules.
pub data Failure : Type 0 where
  missing_entry : Text → Failure
  reaches : Text → Text → Failure

all_reach : Text → List Text → List Failure
all_reach entry [] = []
all_reach entry (m ∷ ms) = reaches entry m ∷ all_reach entry ms

module _ (space : ℕ → Bool) (file : List Text → Option Text) where
  unfoldable pub entry_failures : ℕ → Text → Option (List Failure)
  unfolding all_reach
  entry_failures fuel entry = elim (module_text file entry) [
    | none ↦ some (missing_entry entry ∷ [])
    | some text ↦ elim (closure (imports_of space file) fuel entry) [
      | none ↦ none
      | some (seen, bad) ↦ some (all_reach entry bad)
    ]
  ]

abbrev pub sdk_entry : Text
sdk_entry = codes "ProofForge.Wasm.Near.Sdk"
