-- ===== src/Prelude/Strings.antt =====
-- Python's `str` and `bytes` as lists of numbers: code points, and bytes below 256.
use Prim.Native.Nat.{ℕ}
use Prim.Native.Char.{code}
use Prim.Native.String.{String}
use mathlib.Core.Path.{◌≡◌, refl}
use mathlib.Core.Logic.{◌↔◌}
use mathlib.Core.Bool.{Bool, true, false, ◌&&◌, ◌||◌}
use mathlib.Core.List.{List, [], ◌∷◌, ◌++◌}
use native.Mathlib.Omega.{arith}
use proof_forge_near.Prelude.Tests.{◌==◌}

abbrev pub Text : Type 0
Text = List ℕ

abbrev pub Bytes : Type 0
Bytes = List ℕ

-- The code points of a literal.
abbrev pub codes : String → Text
codes String.[] = []
codes (String.◌∷◌ c s) = code c ∷ codes s

-- `==` of two texts.
unfoldable pub text_eq : Text → Text → Bool
text_eq [] [] = true
text_eq [] (y ∷ ys) = false
text_eq (x ∷ xs) [] = false
text_eq (x ∷ xs) (y ∷ ys) = x == y && text_eq xs ys

pub text_eq_iff : (xs ys : Text) → (text_eq xs ys ≡ true) ↔ (xs ≡ ys)
unfolding text_eq
text_eq_iff [] [] = ground arith
text_eq_iff [] (y ∷ ys) = ground arith
text_eq_iff (x ∷ xs) [] = ground arith
text_eq_iff (x ∷ xs) (y ∷ ys) = ground (arith, text_eq_iff xs ys)

-- `x in xs` for a list of texts.
unfoldable pub mem : Text → List Text → Bool
unfolding text_eq
mem x [] = false
mem x (y ∷ ys) = text_eq x y || mem x ys

-- `text.startswith(prefix)`
unfoldable pub starts_with : Text → Text → Bool
starts_with text [] = true
starts_with [] (p ∷ ps) = false
starts_with (x ∷ xs) (p ∷ ps) = x == p && starts_with xs ps

pub starts_with_sound :
    (text prefix : Text) → starts_with text prefix ≡ true → (rest : Text) × (text ≡ prefix ++ rest)
unfolding starts_with
starts_with_sound text [] h = (text, refl)
starts_with_sound [] (p ∷ ps) h = cc
starts_with_sound (x ∷ xs) (p ∷ ps) h =
    let (rest, e) = starts_with_sound xs ps (ground arith) in (rest, ground arith)

pub starts_with-append : (prefix rest : Text) → starts_with (prefix ++ rest) prefix ≡ true
unfolding starts_with
starts_with-append [] rest = refl
starts_with-append (p ∷ ps) rest = ground (arith, starts_with-append ps rest)

-- `needle in text` for two texts.
unfoldable pub has_substring : Text → Text → Bool
unfolding starts_with
has_substring needle [] = starts_with [] needle
has_substring needle (c ∷ text) = starts_with (c ∷ text) needle || has_substring needle text
