-- ===== src/Suites/Play.antt =====
-- How the suites of runtime-tests/near end: an `AssertionError`, or an exception of the client. What
-- an assertion says, and the lines that a suite prints, are left out.
use proof_forge_near.Prelude.{Bool, true, false, List, [], ◌∷◌, Bytes, text_eq, Option, none, some}
use proof_forge_near.Py.Result.{Result, ok, err}
use proof_forge_near.Rpc.Exc.{Exc, near_rpc_error}
use proof_forge_near.Rpc.Exec.{Exec}

pub data Stop : Type 0 where
  assertion_error : Stop
  raised : Exc → Stop

abbrev pub Suite : Type 0 → Type 0 → Type 0
Suite W A = W → Result Stop A × W

abbrev pub go_on : {W A B : Type 0} → Result Stop A → (A → Suite W B) → Suite W B
go_on (ok a) f w = f a w
go_on (err e) f w = (err e, w)

infixl 5 ◌>>=◌ ◌>>◌
abbrev pub ◌>>=◌ : {W A B : Type 0} → Suite W A → (A → Suite W B) → Suite W B
◌>>=◌ m f w = let (r, w') = m w in go_on r f w'

abbrev pub ◌>>◌ : {W B : Type 0} → Suite W (Unit {0}) → Suite W B → Suite W B
m >> k = m >>= λ _. k

abbrev pub stop_at : {A : Type 0} → Result Exc A → Result Stop A
stop_at (ok a) = ok a
stop_at (err e) = err (raised e)

-- A step of the client.
abbrev pub step : {W A : Type 0} → Exec W A → Suite W A
step m w = let (r, w') = m w in (stop_at r, w')

-- A step that only computes.
abbrev pub compute : {W A : Type 0} → Result Exc A → Suite W A
compute r w = (stop_at r, w)

-- `if not good: raise AssertionError(...)`
abbrev pub assert : {W : Type 0} → Bool → Suite W (Unit {0})
assert true w = (ok tt, w)
assert false w = (err assertion_error, w)

abbrev pub pass : {W : Type 0} → Suite W (Unit {0})
pass w = (ok tt, w)

-- Only a `NearRpcError` is awaited.
abbrev pub refusal : {A : Type 0} → Result Exc A → Result Stop (Unit {0})
refusal (ok a) = err assertion_error
refusal (err (near_rpc_error r)) = ok tt
refusal (err e) = err (raised e)

-- `try: ... except NearRpcError: return`, and an assertion that fails behind it.
unfoldable pub refused : {W A : Type 0} → Exec W A → Suite W (Unit {0})
refused m w = let (r, w') = m w in (refusal r, w')

-- `for x in xs`
unfoldable pub each : {W A : Type 0} → (A → Suite W (Unit {0})) → List A → Suite W (Unit {0})
each f [] w = (ok tt, w)
each f (x ∷ xs) w = (f x >> each f xs) w

abbrev pub is_some_eq : Option Bytes → Bytes → Bool
is_some_eq none b = false
is_some_eq (some a) b = text_eq a b
