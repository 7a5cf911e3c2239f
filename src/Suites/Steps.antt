-- ===== src/Suites/Steps.antt =====
-- The steps of a suite that ends well, one after another.
use proof_forge_near.Prelude.{◌≡◌, ◌↔◌, refl, subst, ap, sym, ◌∙◌, Bool, true, false}
use proof_forge_near.Py.Result.{Result, ok, err}
use proof_forge_near.Rpc.Exc.{
  Exc, near_rpc_error, Reason, struct_error, overflow_error, value_error, unicode_error, key_error,
  type_error, attribute_error,
}
use proof_forge_near.Rpc.Exec.{Exec}
use proof_forge_near.Suites.Play.{
  Stop, Suite, go_on, ◌>>=◌, step, compute, stop_at, assert, refused, refusal,
}

module _ {W : Type 0} where
  pub bind-ok_iff :
      {A B : Type 0} (m : Suite W A) (f : A → Suite W B) (w w'' : W) (b : B)
      → ((m >>= f) w ≡ (ok b, w''))
        ↔ ((a : A) × (w' : W) × (m w ≡ (ok a, w')) × (f a w' ≡ (ok b, w'')))
  bind-ok_iff {A} {B} m f w w'' b = (λ e. onward (m w) refl e, λ (a, w', e, h). rw e h)
    where
      onward :
          (out : Result Stop A × W)
          → out ≡ m w
          → go_on out.0 f out.1 ≡ (ok b, w'')
          → (a : A) × (w' : W) × (m w ≡ (ok a, w')) × (f a w' ≡ (ok b, w''))
      onward (ok a, w') h e = (a, w', sym h, e)
      onward (err x, w') h e = cc

  pub step-ok_iff :
      {A : Type 0} (m : Exec W A) (w w' : W) (a : A) → (step m w ≡ (ok a, w')) ↔ (m w ≡ (ok a, w'))
  step-ok_iff {A} m w w' a = (λ e. inward (m w) refl e, λ e. rw e refl)
    where
      inward :
          (out : Result Exc A × W)
          → out ≡ m w
          → ◌≡◌ {A = Result Stop A × W} (stop_at out.0, out.1) (ok a, w')
          → m w ≡ (ok a, w')
      inward (ok x, v) h e = sym h ∙ cc e
      inward (err x, v) h e = cc

  pub assert-ok_iff : (b : Bool) (w w' : W) → (assert b w ≡ (ok tt, w')) ↔ ((b ≡ true) × (w ≡ w'))
  assert-ok_iff true w w' = (λ e. (refl, ap (λ o. o.1) e), λ (t, e). rw e refl)
  assert-ok_iff false w w' = (λ e. cc, λ (t, e). cc)

  pub refused-ok_iff :
      {A : Type 0} (m : Exec W A) (w w' : W)
      → (refused m w ≡ (ok tt, w')) ↔ ((r : Reason) × (m w ≡ (err (near_rpc_error r), w')))
  unfolding refused
  refused-ok_iff {A} m w w' = (λ e. inward (m w) refl e, λ (r, e). rw e refl)
    where
      inward :
          (out : Result Exc A × W)
          → out ≡ m w
          → ◌≡◌ {A = Result Stop (Unit {0}) × W} (refusal out.0, out.1) (ok tt, w')
          → (r : Reason) × (m w ≡ (err (near_rpc_error r), w'))
      inward (ok x, v) h e = cc
      inward (err (near_rpc_error r), v) h e = (r, sym h ∙ cc e)
      inward (err struct_error, v) h e = cc
      inward (err overflow_error, v) h e = cc
      inward (err value_error, v) h e = cc
      inward (err unicode_error, v) h e = cc
      inward (err key_error, v) h e = cc
      inward (err type_error, v) h e = cc
      inward (err attribute_error, v) h e = cc

  pub compute-ok_iff :
      {A : Type 0} (r : Result Exc A) (w w' : W) (a : A)
      → (compute r w ≡ (ok a, w')) ↔ ((r ≡ ok a) × (w ≡ w'))
  compute-ok_iff (ok x) w w' a = (
    λ e. (cc e, ap (λ o. o.1) e),
    λ (x_is, there). let same : x ≡ a = cc x_is in rw (same, there) refl,
  )
  compute-ok_iff (err x) w w' a = (λ e. cc, λ (e, there). cc)

  -- A check of what a step gives.
  pub check-ok_iff :
      {A : Type 0} (m : Suite W A) (good : A → Bool) (w w' : W)
      → ((m >>= λ a. assert (good a)) w ≡ (ok tt, w'))
        ↔ ((a : A) × (m w ≡ (ok a, w')) × (good a ≡ true))
  check-ok_iff m good w w' = (
    λ e.
        let (a, w1, e1, r1) = (bind-ok_iff m (λ a. assert (good a)) w w' tt).0 e in
        let (is_good, here) = (assert-ok_iff (good a) w1 w').0 r1 in (a, rw here at e1, is_good),
    λ (a, e, is_good). rw (e, is_good) refl,
  )

  -- A bind whose first part computes, and one whose first part is a step of the client.
  pub computed-ok_iff :
      {A B : Type 0} (r : Result Exc A) (f : A → Suite W B) (w w' : W) (b : B)
      → ((compute r >>= f) w ≡ (ok b, w')) ↔ ((a : A) × (r ≡ ok a) × (f a w ≡ (ok b, w')))
  computed-ok_iff {A} {B} r f w w' b = (
    λ e.
        let (a, w1, e1, r1) = (bind-ok_iff (compute r) f w w' b).0 e in
        let (known, there) = (compute-ok_iff r w w1 a).0 e1 in
        (a, known, subst (λ v. f a v ≡ (ok b, w')) (sym there) r1),
    λ (a, known, e). rw known e,
  )

  pub stepped-ok_iff :
      {A B : Type 0} (m : Exec W A) (f : A → Suite W B) (w w' : W) (b : B)
      → ((step m >>= f) w ≡ (ok b, w'))
        ↔ ((a : A) × (v : W) × (m w ≡ (ok a, v)) × (f a v ≡ (ok b, w')))
  stepped-ok_iff {A} {B} m f w w' b = (
    λ e.
        let (a, v, e1, r1) = (bind-ok_iff (step m) f w w' b).0 e in
        (a, v, (step-ok_iff m w v a).0 e1, r1),
    λ (a, v, e, h). rw e h,
  )
