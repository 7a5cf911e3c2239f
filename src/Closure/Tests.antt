-- ===== src/Closure/Tests.antt =====
-- check_sdk_import_closure.py on a small repository.
use proof_forge_near.Prelude.{
  ℕ, ◌≡◌, ◌↔◌, refl, Bool, true, ◌||◌, ◌==◌, Option, some, starts_with, List, [], ◌∷◌, Text, codes,
  text_eq, arith, mem, if◌then◌else◌,
}
use proof_forge_near.ModuleNames.{split_dots}
use proof_forge_near.Closure.{
  is_forbidden, module_text, text_imports, imports_of, closure, closure_loop, entry_failures,
  sdk_entry, Failure,
}
use proof_forge_near.Closure.Reachable.{Reach, closure_sound}
use proof_forge_near.Closure.Fuel.{closure_total}
use proof_forge_near.Closure.Gate.{IsClean, entry_failures_iff}

abbrev emit : Text
emit = codes "ProofForge.Wasm.Emit"

abbrev space : ℕ → Bool
space c = c == b' ' || c == b'\n'

-- The imports of a file.
imports_read :
    text_imports space
      (codes "import Foo\n import ProofForge.Wasm.Emit -- x\nimport ProofForge.A y")
    ≡ emit ∷ []
unfolding text_imports starts_with
imports_read = refl

-- The SDK imports A, which imports the SDK and the emitter.
abbrev imports : Text → List Text
imports m =
    if text_eq m sdk_entry
    then codes "A" ∷ []
    else if text_eq m (codes "A")
    then sdk_entry ∷ emit ∷ []
    else []

abbrev universe : List Text
universe = sdk_entry ∷ codes "A" ∷ emit ∷ []

closure_sound_example :
    ((mem emit (emit ∷ codes "A" ∷ sdk_entry ∷ []) ≡ true) ↔ Reach imports sdk_entry emit)
    × ((mem emit (emit ∷ []) ≡ true) ↔ (Reach imports sdk_entry emit × (is_forbidden emit ≡ true)))
unfolding closure closure_loop mem is_forbidden starts_with split_dots
closure_sound_example =
    closure_sound imports sdk_entry 9 (emit ∷ codes "A" ∷ sdk_entry ∷ []) (emit ∷ []) refl emit

universe-closed :
    (m d : Text) → mem m universe ≡ true → mem d (imports m) ≡ true → mem d universe ≡ true
unfolding mem
universe-closed m d h i = ground arith

closure_total_example : (r : List Text × List Text) × (closure imports 9 sdk_entry ≡ some r)
unfolding mem
closure_total_example =
    closure_total imports universe universe-closed 9 sdk_entry refl (omega arith)

-- A repository in which each module of ProofForge imports the same one.
abbrev page : Text
page = codes "import ProofForge.A"

abbrev file : List Text → Option Text
file path = some page

abbrev modules : List Text
modules = sdk_entry ∷ codes "ProofForge.A" ∷ []

page_imports : text_imports space page ≡ codes "ProofForge.A" ∷ []
unfolding text_imports starts_with
page_imports = refl

modules-closed :
    (m d : Text)
    → mem m modules ≡ true
    → mem d (imports_of space file m) ≡ true
    → mem d modules ≡ true
unfolding mem imports_of module_text
modules-closed m d h i = ground (arith, page_imports)

entry_failures_iff_example :
    (r : List Failure) × (entry_failures space file 9 sdk_entry ≡ some r)
    × ((r ≡ []) ↔ IsClean space file sdk_entry)
unfolding mem imports_of module_text split_dots text_imports starts_with
entry_failures_iff_example =
    entry_failures_iff space file sdk_entry modules refl modules-closed 9 (omega arith)
