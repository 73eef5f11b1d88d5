-- ===== src/Store/Gives.antt =====
-- What a computation gives when it ends without an error, one rule for each way to build it.
use mathlib.Core.Path.{subst}
use runspool.Prelude.{◌≡◌, refl, Bool, true, false, if◌then◌else◌}
use runspool.Prelude.Exec.{Result, ok, pure, raise, ◌>>=◌, continue-eq-ok}
use runspool.Models.{Error}
use runspool.Store.World.{World, M}

-- Every value that `m` returns satisfies `P`.
pub record Gives {A : Type 0} (P : A → Type 0) (m : M A) : Type 0 where
  pub of : (w w' : World) (a : A) → m w ≡ (ok a, w') → P a

value_eq :
    {A : Type 0} (a b : A) (w w' : World)
    → ◌≡◌ {A = Result Error A × World} (ok a, w) (ok b, w')
    → a ≡ b
value_eq a b w w' h = cc

module _ {A : Type 0} {P : A → Type 0} where
  pub Gives-pure : (a : A) → P a → Gives P (pure a)
  Gives-pure a p = record { of = λ w w' b h. subst P (value_eq a b w w' h) p }

  pub Gives-raise : (e : Error) → Gives P (raise e)
  Gives-raise e = record { of = λ w w' b h. absurd (cc) }

  pub Gives-if :
      (b : Bool) (m n : M A)
      → (b ≡ true → Gives P m)
      → (b ≡ false → Gives P n)
      → Gives P (if b then m else n)
  Gives-if true m n f g = f refl
  Gives-if false m n f g = g refl

pub Gives-any : {A : Type 0} (m : M A) → Gives (λ _. Unit {0}) m
Gives-any m = record { of = λ w w' a h. tt }

pub Gives-bind :
    {A B : Type 0} {Q : A → Type 0} {P : B → Type 0} (m : M A) (f : A → M B)
    → Gives Q m
    → ((a : A) → Q a → Gives P (f a))
    → Gives P (m >>= f)
Gives-bind m f gm gf = record {
  of = λ w w' b h.
      let (a, u, e, h') = continue-eq-ok f (m w) b w' h in (gf a (gm.of w u a e)).of u w' b h';
}
