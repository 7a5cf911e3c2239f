-- ===== src/ModuleNames.antt =====
-- Dotted module names in Lean sources, as the import patterns of scripts/check_sdk_import_closure.py
-- and scripts/check_ownership.py read them.
use proof_forge_near.Prelude.{
  ℕ, Bool, true, false, ◌&&◌, ◌||◌, List, [], ◌∷◌, ◌==◌, if◌then◌else◌, leb, Text,
}

abbrev pub dot : ℕ
dot = b'.'

prepend : ℕ → List Text → List Text
prepend c [] = (c ∷ []) ∷ []
prepend c (p ∷ ps) = (c ∷ p) ∷ ps

-- `name.split(".")`
unfoldable pub split_dots : Text → List Text
unfolding prepend
split_dots [] = [] ∷ []
split_dots (c ∷ rest) =
    let ps = split_dots rest in elim (c == dot) [ true ↦ [] ∷ ps | false ↦ prepend c ps ]

-- `[A-Za-z0-9_]`
unfoldable pub is_ident : ℕ → Bool
is_ident c =
    (leb b'a' c && leb c b'z')
    || (leb b'A' c && leb c b'Z')
    || (leb b'0' c && leb c b'9')
    || c == b'_'

-- The longest run of identifier characters and dots, and what stands behind it.
unfoldable pub name_run : Text → Text × Text
unfolding is_ident
name_run [] = ([], [])
name_run (c ∷ rest) =
    let (run, behind) = name_run rest in
    if is_ident c || c == dot then (c ∷ run, behind) else ([], c ∷ rest)
