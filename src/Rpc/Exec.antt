-- ===== src/Rpc/Exec.antt =====
-- Methods that talk to the node: the world is the node and the network, and what a request did to it
-- stays done when the method raises.
use proof_forge_near.Prelude.{Bool, true, false}
use proof_forge_near.Py.Result.{Result, ok, err}
use proof_forge_near.Rpc.Exc.{Exc}

abbrev pub Exec : Type 0 → Type 0 → Type 0
Exec W A = W → Result Exc A × W

abbrev continue : {W A B : Type 0} → Result Exc A → (A → Exec W B) → Exec W B
continue (ok a) f w = f a w
continue (err e) f w = (err e, w)

infixl 5 ◌>>=◌ ◌>>◌
abbrev pub ◌>>=◌ : {W A B : Type 0} → Exec W A → (A → Exec W B) → Exec W B
◌>>=◌ m f w = let (r, w') = m w in continue r f w'

abbrev pub ◌>>◌ : {W B : Type 0} → Exec W (Unit {0}) → Exec W B → Exec W B
m >> k = m >>= λ _. k

-- A step that only computes.
abbrev pub lift : {W A : Type 0} → Result Exc A → Exec W A
lift r w = (r, w)

-- `if bad: raise e`
abbrev pub check : {W : Type 0} → Bool → Exc → Exec W (Unit {0})
check true e w = (err e, w)
check false e w = (ok tt, w)
