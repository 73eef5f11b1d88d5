-- ===== src/Prelude/Exec.antt =====
-- Methods that read and change a state and may raise. What was written before a raise stays
-- written, so the state comes back beside the error; a transaction undoes it (`Store.World`).

use mathlib.Core.Path.{◌≡◌, refl}

pub data Result {ℓ} (E A : Type ℓ) : Type ℓ where
  ok : A → Result E A
  err : E → Result E A

abbrev pub Exec {ℓ} : Type ℓ → Type ℓ → Type ℓ → Type ℓ
Exec E S A = S → Result E A × S

module _ {ℓ} {E S A : Type ℓ} where
  abbrev pub pure : A → Exec E S A
  pure a s = (ok a, s)

  abbrev pub raise : E → Exec E S A
  raise e s = (err e, s)

  abbrev pub gets : (S → A) → Exec E S A
  gets f s = (ok (f s), s)

module _ {ℓ} {E S A B : Type ℓ} where
  abbrev pub continue : (A → Exec E S B) → Result E A × S → Result E B × S
  continue f (ok a, s) = f a s
  continue f (err e, s) = (err e, s)

  infixl 10 ◌>>=◌ ◌>>◌
  abbrev pub ◌>>=◌ : Exec E S A → (A → Exec E S B) → Exec E S B
  ◌>>=◌ m f s = continue f (m s)

  abbrev pub ◌>>◌ : Exec E S A → Exec E S B → Exec E S B
  ◌>>◌ m n s = continue (λ _. n) (m s)

module _ {ℓ} {E S A B : Type ℓ} where
  -- A block that returns has returned from its first step.
  pub continue-eq-ok :
      (f : A → Exec E S B) (r : Result E A × S) (b : B) (s : S)
      → continue f r ≡ (ok b, s)
      → (a : A) × (u : S) × (r ≡ (ok a, u)) × (f a u ≡ (ok b, s))
  continue-eq-ok f (ok a, u) b s h = (a, u, refl, h)
  continue-eq-ok f (err e, u) b s h = cc
