-- ===== src/Suites/Exact.antt =====
-- Suites that pass exactly when the deployed contract has a property.
use proof_forge_near.Prelude.{
  ◌≡◌, refl, ap, sym, ◌∙◌, ◌⊎◌, inl, inr, ℕ, Bool, true, false, List, [], ◌∷◌, arith, Bytes, All,
  ◌%◌, ◌^◌,
}
use proof_forge_near.Py.Result.{Result, ok, err}
use proof_forge_near.Py.Bytes.{to_le}
use proof_forge_near.Suites.Play.{Stop, assertion_error, go_on, Suite, ◌>>◌, assert, each}

-- The bytes of `encode_u64_le` of a number.
abbrev pub le64 : ℕ → Bytes
le64 n = to_le 8 (n % 2 ^ 64)

module _ {W : Type 0} (Live : W → Type 0) where
  Passes : Result Stop (Unit {0}) × W → Type 0
  Passes out = (w : W) × (out ≡ (ok tt, w)) × Live w

  Fails : Result Stop (Unit {0}) × W → Type 0
  Fails out = (e : Stop) × (w : W) × (out ≡ (err e, w))

  -- From a live world, the suite either passes, and `P` holds, or fails, and `P` does not hold.
  unfoldable pub Exact : Suite W (Unit {0}) → Type 0 → Type 0
  unfolding Passes Fails
  Exact m P = (w : W) → Live w → (Passes (m w) × P) ⊎ (Fails (m w) × ¬ P)

  pub Exact->> :
      (m n : Suite W (Unit {0})) (P Q : Type 0) → Exact m P → Exact n Q → Exact (m >> n) (P × Q)
  unfolding Exact Passes Fails
  Exact->> m n P Q h k w live = elim (h w live) [
    | inl ((w', e, live'), p) ↦ elim (k w' live') [
      | inl ((w'', f, live''), q) ↦ inl ((w'', rw (e, f) refl, live''), (p, q))
      | inr ((x, w'', f), nq) ↦ inr ((x, w'', rw (e, f) refl), λ pq. nq pq.1)
    ]
    | inr ((x, w', e), np) ↦ inr ((x, w', rw e refl), λ pq. np pq.0)
  ]

  pub Exact-each :
      {A : Type 0} (f : A → Suite W (Unit {0})) (P : A → Type 0) (xs : List A)
      → ((x : A) → Exact (f x) (P x))
      → Exact (each f xs) (All P xs)
  unfolding Exact Passes Fails each
  Exact-each f P [] h w live = inl ((w, refl, live), tt)
  Exact-each f P (x ∷ xs) h w live =
      Exact->> (f x) (each f xs) (P x) (All P xs) (h x) (Exact-each f P xs h) w live

  pub Exact-assert : (b : Bool) → Exact (assert b) (b ≡ true)
  unfolding Exact Passes Fails
  Exact-assert true w live = inl ((w, refl, live), refl)
  Exact-assert false w live = inr ((assertion_error, w, refl), λ e. ground arith)

  pub Exact-iff :
      (m : Suite W (Unit {0})) (P Q : Type 0) → (P → Q) → (Q → P) → Exact m P → Exact m Q
  unfolding Exact
  Exact-iff m P Q f g h w live = elim (h w live) [
    | inl (passes, p) ↦ inl (passes, f p)
    | inr (fails, np) ↦ inr (fails, λ q. np (g q))
  ]

  -- A suite that ends well has gone on to a live world.
  pub Exact-ok :
      (m : Suite W (Unit {0})) (P : Type 0) (w w' : W)
      → Exact m P
      → Live w
      → m w ≡ (ok tt, w')
      → P × Live w'
  unfolding Exact Passes Fails
  Exact-ok m P w w' h live e = elim (h w live) [
    | inl ((x, f, live'), p) ↦
        let same : x ≡ w' = ap (λ o. o.1) (sym f ∙ e) in (p, rw same at live')
    | inr ((x, w'', f), np) ↦ absurd (clash x w'' (sym e ∙ f))
  ]
    where
      clash :
          (x : Stop) (w'' : W) → ◌≡◌ {A = Result Stop (Unit {0}) × W} (ok tt, w') (err x, w'') → ⊥
      clash x w'' h = cc

pub ok->> :
    {W : Type 0} (m n : Suite W (Unit {0})) (w w'' : W)
    → (m >> n) w ≡ (ok tt, w'')
    → (w' : W) × (m w ≡ (ok tt, w')) × (n w' ≡ (ok tt, w''))
ok->> {W = W} m n w w'' e = from_first (m w) refl e
  where
    from_first :
        (out : Result Stop (Unit {0}) × W)
        → out ≡ m w
        → go_on out.0 (λ _. n) out.1 ≡ (ok tt, w'')
        → (w' : W) × (m w ≡ (ok tt, w')) × (n w' ≡ (ok tt, w''))
    from_first (ok a, w') h e = (w', sym h, e)
    from_first (err x, w') h e = cc
