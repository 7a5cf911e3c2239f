-- ===== src/Ownership/Patterns.antt =====
-- The patterns of scripts/check_ownership.py and `finditer`. A pattern is tried at a place of a
-- text, with the character before it, and gives the length of its match and what it captures. No
-- pattern matches the empty text.
use proof_forge_near.Prelude.{
  ℕ, zero, suc, ◌+◌, ◌-◌, Bool, true, false, not, ◌&&◌, ◌||◌, Option, none, some, List, [], ◌∷◌,
  ◌==◌, if◌then◌else◌, ltb, Text, codes, text_eq, mem, starts_with, length, take, drop,
}
use proof_forge_near.Py.Space.{is_space, skip_space}
use proof_forge_near.ModuleNames.{split_dots, name_run}

abbrev pub newline : ℕ
newline = 10

abbrev pub Pattern {ℓ} : Type ℓ → Type ℓ
Pattern A = Option ℕ → Text → Option (ℕ × A)

pub record Match {ℓ} (A : Type ℓ) : Type ℓ where
  pub start : ℕ
  pub group : Text
  pub capture : A

module _ {ℓ} {A : Type ℓ} (pattern_at : Pattern A) where
  -- `skip` characters of the last match are still ahead.
  unfoldable pub finditer_from : Option ℕ → ℕ → ℕ → Text → List (Match A)
  finditer_from prev skip pos [] = []
  finditer_from prev (suc skip) pos (c ∷ rest) = finditer_from (some c) skip (pos + 1) rest
  finditer_from prev zero pos (c ∷ rest) = elim (pattern_at prev (c ∷ rest)) [
    | none ↦ finditer_from (some c) 0 (pos + 1) rest
    | some (n, a) ↦
        record { start = pos; group = take n (c ∷ rest); capture = a }
        ∷ finditer_from (some c) (n - 1) (pos + 1) rest
  ]

  -- `pattern.finditer(text)`
  unfoldable pub finditer : Text → List (Match A)
  unfolding finditer_from
  finditer text = finditer_from none 0 0 text

-- `pattern.search(text)`, as a truth value.
unfoldable pub found {ℓ} : {A : Type ℓ} → List (Match A) → Bool
found [] = false
found (m ∷ ms) = true

-- `^` under `MULTILINE`
unfoldable pub line_start : Option ℕ → Bool
line_start none = true
line_start (some c) = c == newline

-- The characters up to the line's end.
line_length : Text → ℕ
line_length [] = 0
line_length (c ∷ rest) = elim (c == newline) [ true ↦ 0 | false ↦ suc (line_length rest) ]

-- `\s*(?:--.*)?$` under `MULTILINE`: the longest run of space behind which the rest fits.
unfoldable pub line_tail : Text → Option ℕ
unfolding line_length
line_tail [] = some 0
line_tail (c ∷ rest) =
    let more = line_tail rest in
    if is_space c
    then (elim more [ some k ↦ some (suc k) | none ↦ if c == newline then some 0 else none ])
    else if starts_with (c ∷ rest) (codes "--")
    then some (line_length (c ∷ rest))
    else none

all_nonempty : List Text → Bool
all_nonempty [] = true
all_nonempty (p ∷ ps) = not (text_eq p []) && all_nonempty ps

module _ {ℓ} {A : Type ℓ} where
  unfoldable pub with_length : ℕ → Option (ℕ × A) → Option (ℕ × A)
  with_length k none = none
  with_length k (some (n, a)) = some (k + n, a)

  -- `^\s*import\s+`, and the rest of the pattern behind it.
  unfoldable pub import_at : (Text → Option (ℕ × A)) → Pattern A
  unfolding line_start with_length
  import_at target prev text =
      let keyword = skip_space text in
      let behind = drop 6 keyword in
      let body = skip_space behind in
      if line_start prev
        && starts_with keyword (codes "import")
        && ltb (length body) (length behind)
      then with_length (length text - length body) (target body)
      else none

  pick_parts : (List Text → Option A) → List Text → Option A
  unfolding all_nonempty
  pick_parts pick [] = none
  pick_parts pick (p ∷ ps) = if text_eq p [] && all_nonempty ps then pick ps else none

  at_tail : ℕ → Option A → Option ℕ → Option (ℕ × A)
  at_tail n none tail = none
  at_tail n (some a) none = none
  at_tail n (some a) (some k) = some (n + k, a)

  -- A prefix, the parts of a dotted name behind it, and the line's tail. A shorter run of the name's
  -- characters is followed by one of them, which no tail begins with.
  unfoldable pub dotted : Text → (List Text → Option A) → Text → Option (ℕ × A)
  unfolding pick_parts at_tail line_tail name_run split_dots
  dotted prefix pick body =
      let (run, rest) = name_run (drop (length prefix) body) in
      if starts_with body prefix
      then at_tail (length prefix + length run) (pick_parts pick (split_dots run)) (line_tail rest)
      else none

unfoldable pub last_is_emit : List Text → Option (Unit {0})
last_is_emit [] = none
last_is_emit (p ∷ []) = if text_eq p (codes "Emit") then some tt else none
last_is_emit (p ∷ q ∷ ps) = last_is_emit (q ∷ ps)

-- `DIRECT_EMIT_IMPORT`
unfoldable pub direct_emit_import : Pattern (Unit {0})
unfolding import_at dotted last_is_emit
direct_emit_import = import_at (dotted (codes "ProofForge.Wasm") last_is_emit)

abbrev pub kinds : List Text
kinds = codes "Emit" ∷ codes "Assemble" ∷ codes "Registry" ∷ []

-- The groups before and behind `kind` are greedy: `kind` is the last part that it can be.
last_kind : List Text → Option Text
last_kind [] = none
last_kind (p ∷ ps) = elim (last_kind ps) [
  | some k ↦ some k
  | none ↦ if mem p kinds then some p else none
]

-- The groups `target` and `kind`.
target_and_kind : List Text → Option (Option Text × Text)
unfolding last_kind
target_and_kind [] = none
target_and_kind (p ∷ ps) = elim (last_kind (p ∷ ps)) [
  | none ↦ none
  | some k ↦ some (if text_eq p (codes "Near") then some p else none, k)
]

-- `SDK_FORBIDDEN_IMPORT`
unfoldable pub sdk_forbidden_import : Pattern (Option Text × Text)
unfolding import_at dotted target_and_kind
sdk_forbidden_import = import_at (dotted (codes "ProofForge.Wasm") target_and_kind)

umbrella_target : Text → Option (ℕ × Unit {0})
unfolding line_tail
umbrella_target body = elim (line_tail (drop 10 body)) [
  | some k ↦ if starts_with body (codes "ProofForge") then some (10 + k, tt) else none
  | none ↦ none
]

-- `UMBRELLA_IMPORT`
unfoldable pub umbrella_import : Pattern (Unit {0})
unfolding import_at umbrella_target
umbrella_import = import_at umbrella_target

-- `(?:\.|\s|$)`
name_end : Text → Option ℕ
name_end [] = some 0
name_end (c ∷ rest) = if c == b'.' || is_space c then some 1 else none

application_target : Text → Option (ℕ × Unit {0})
unfolding name_end
application_target body = elim (name_end (drop 8 body)) [
  | some k ↦
      if starts_with body (codes "Examples") || starts_with body (codes "Projects")
      then some (8 + k, tt)
      else none
  | none ↦ none
]

-- `APPLICATION_IMPORT`
unfoldable pub application_import : Pattern (Unit {0})
unfolding import_at application_target
application_import = import_at application_target

-- `\w` of `re`, and whether a character is a letter of a pattern under `IGNORECASE`.
pub record Letters : Type 0 where
  pub word : ℕ → Bool
  pub same : ℕ → ℕ → Bool

abbrev vocabulary : List Text
vocabulary =
    codes "PhoenixV1"
    ∷ codes "Phoenix"
    ∷ codes "OrderPacket"
    ∷ codes "MarketHeader"
    ∷ codes "TraderState"
    ∷ []

module _ (L : Letters) where
  word_at : Option ℕ → Bool
  word_at none = false
  word_at (some c) = L.word c

  -- `\b`
  boundary : Option ℕ → Option ℕ → Bool
  unfolding word_at
  boundary before after = if word_at before then not (word_at after) else word_at after

  -- A literal of the pattern, the boundary behind it, and the length.
  literal_at : Option ℕ → ℕ → Text → Text → Option ℕ
  unfolding boundary
  literal_at prev n [] [] = if boundary prev none then some n else none
  literal_at prev n [] (c ∷ rest) = if boundary prev (some c) then some n else none
  literal_at prev n (p ∷ ps) [] = none
  literal_at prev n (p ∷ ps) (c ∷ rest) =
      let more = literal_at (some c) (suc n) ps rest in if L.same p c then more else none

  first_literal : List Text → Option ℕ → Text → Option (ℕ × Unit {0})
  unfolding literal_at
  first_literal [] prev text = none
  first_literal (w ∷ ws) prev text =
      let more = first_literal ws prev text in
      elim (literal_at prev 0 w text) [ some n ↦ some (n, tt) | none ↦ more ]

  head_of : Text → Option ℕ
  head_of [] = none
  head_of (c ∷ rest) = some c

  -- `PROTOCOL_VOCABULARY`
  unfoldable pub protocol_vocabulary : Pattern (Unit {0})
  unfolding first_literal head_of boundary
  protocol_vocabulary prev text =
      if boundary prev (head_of text) then first_literal vocabulary prev text else none
