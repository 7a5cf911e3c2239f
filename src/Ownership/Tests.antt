-- ===== src/Ownership/Tests.antt =====
-- The ownership gate on a small repository.
use proof_forge_near.Prelude.{
  List, ◌≡◌, refl, ℕ, ◌&&◌, ◌||◌, some, [], ◌∷◌, ◌+◌, ◌==◌, leb, if◌then◌else◌, Text, codes,
  replicate, ◌++◌, text_eq, mem, starts_with,
}
use proof_forge_near.Ownership.Patterns.{Letters, newline, direct_emit_import}
use proof_forge_near.Ownership.Check.{
  Failure, Repository, direct_emit, report, broken_rule, load_allowlist, umbrella_users, run,
}
use proof_forge_near.Py.Space.{skip_space, strip_space}
use proof_forge_near.Ownership.Lines.{report-empty_lines}
use proof_forge_near.Ownership.Gate.{run-allowlist}
use proof_forge_near.Ownership.Owned.{IsOwned, run_iff}

lower : ℕ → ℕ
lower c = if leb 65 c && leb c 90 then c + 32 else c

abbrev ascii : Letters
ascii = record {
  word =
      λ c. (leb 48 c && leb c 57) || (leb 65 c && leb c 90) || c == 95 || (leb 97 c && leb c 122);
  same = λ p c. lower p == lower c;
}

abbrev counter_path : Text
counter_path = codes "Examples/Counter.lean"

abbrev small : Repository
small = record {
  examples = record { rel = counter_path; text = codes "import ProofForge -- all" } ∷ [];
  allowlist = some (codes "# allowed\nExamples/Counter.lean\n");
  sdk_files =
      record {
        rel = codes "ProofForge/Wasm/Near/Sdk.lean";
        text = codes "import ProofForge.Wasm.Near.Ledger";
      }
      ∷ [];
  target_files =
      record { rel = codes "ProofForge/Wasm/Near/Ir.lean"; text = codes "import Lean" } ∷ [];
  is_file = λ p. text_eq p counter_path;
}

small-passes : run ascii small ≡ 0
unfolding run lower starts_with
small-passes = refl

run_iff_example : IsOwned ascii small
run_iff_example = (run_iff ascii small).0 small-passes

run-allowlist_example :
    mem counter_path (load_allowlist small.allowlist)
    ≡ mem counter_path (umbrella_users small.examples)
run-allowlist_example = run-allowlist ascii small counter_path small-passes

report-empty_lines_example :
    (more : List Failure) × (report direct_emit
        (record {
          rel = counter_path;
          text = replicate 2 newline ++ codes "import ProofForge.Wasm.Near.Emit\n";
        })
        direct_emit_import
      ≡ broken_rule direct_emit counter_path 1 (codes "import ProofForge.Wasm.Near.Emit") ∷ more)
unfolding direct_emit_import starts_with skip_space text_eq strip_space
report-empty_lines_example =
    report-empty_lines direct_emit counter_path 2 (codes "import ProofForge.Wasm.Near.Emit\n") 33
      refl
