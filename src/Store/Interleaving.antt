-- ===== src/Store/Interleaving.antt =====
-- What other processes do between this process's transactions, as steps, and computations that
-- commit no change of their own.
use runspool.Prelude.{ℕ, String, ◌≡◌, refl, Bool, true, false, Option, none, some, if◌then◌else◌}
use runspool.Prelude.Exec.{Result, ok, err, pure, raise, continue, ◌>>=◌}
use runspool.Models.{Error, transition_committed}
use runspool.Store.Rows.{Db}
use runspool.Store.World.{World, M, advance, connect, attempt, utcnow}

-- From the first world to the second only others have changed the database.
pub data Idle (w : World) : World → Type 0 where
  here : Idle w w
  pass : {v : World} → Idle w v → Idle w (advance v)

pub Idle-trans : {u v w : World} → Idle u v → Idle v w → Idle u w
Idle-trans h here = h
Idle-trans h (pass k) = pass (Idle-trans h k)

-- Any error but `TransitionCommitted`.
abbrev pub IsPlain : Error → Type 0
IsPlain (transition_committed _) = ⊥
IsPlain _ = Unit

abbrev pub IsPlainResult : {A : Type 0} → Result Error A → Type 0
IsPlainResult (ok a) = Unit
IsPlainResult (err e) = IsPlain e

-- How a computation that only reads ends: this process has changed nothing, and an error is plain.
pub data Untouched (w : World) {A : Type 0} : Result Error A × World → Type 0 where
  untouched : {r : Result Error A} {w' : World} → Idle w w' → IsPlainResult r → Untouched w (r, w')

pub record Reads {A : Type 0} (m : M A) : Type 0 where
  pub of : (w : World) → Untouched w (m w)

module _ {A : Type 0} where
  pub Reads-pure : (a : A) → Reads (pure a)
  Reads-pure a = record { of = λ w. untouched here tt }

  pub Reads-raise : (e : Error) → IsPlain e → Reads (raise {A = A} e)
  Reads-raise e p = record { of = λ w. untouched here p }

  pub Reads-if : (b : Bool) (m n : M A) → Reads m → Reads n → Reads (if b then m else n)
  Reads-if true m n f g = f
  Reads-if false m n f g = g

  Untouched-after :
      {v w : World} {r : Result Error A × World} → Idle w v → Untouched v r → Untouched w r
  Untouched-after h (untouched k p) = untouched (Idle-trans h k) p

  attempt-Untouched :
      (w v : World) (fault : Option String) (r : Result Error A)
      → Idle w v
      → IsPlainResult r
      → Untouched w (attempt v fault (r, v.db))
  attempt-Untouched w v none (ok a) h p = untouched h tt
  attempt-Untouched w v none (err e) h p = untouched h p
  attempt-Untouched w v (some message) r h p = untouched h tt

  -- A transaction that only looks.
  pub Reads-connect : (f : ℕ → Db → A) → Reads (connect (λ now db. (ok (f now db), db)))
  unfolding connect
  Reads-connect f = record {
    of = λ w.
        attempt-Untouched w (advance w) (w.fault w.tick) (ok (f (w.clock w.tick) (advance w).db))
          (pass here) tt;
  }

module _ {A B : Type 0} (f : A → M B) (reads : (a : A) → Reads (f a)) where
  continue-Untouched :
      (w : World) (r : Result Error A × World) → Untouched w r → Untouched w (continue f r)
  continue-Untouched w (ok a, v) (untouched h p) = Untouched-after h ((reads a).of v)
  continue-Untouched w (err e, v) (untouched h p) = untouched h p

  pub Reads-bind : (m : M A) → Reads m → Reads (m >>= f)
  Reads-bind m g = record { of = λ w. continue-Untouched w (m w) (g.of w) }

pub Reads-utcnow : Reads utcnow
Reads-utcnow = record { of = λ w. untouched here tt }

-- A description `Q` of how a method ends that holds of every end that changed nothing holds of a read
-- and what follows it.
module _ {B : Type 0} (Q : World → Result Error B × World → Type 0)
    (undone : (w : World) (r : Result Error B × World) → Untouched w r → Q w r) where
  continue_ends :
      {A : Type 0} (w : World) (f : A → M B) (r : Result Error A × World)
      → Untouched w r
      → ((a : A) (v : World) → r ≡ (ok a, v) → Idle w v → Q w (f a v))
      → Q w (continue f r)
  continue_ends w f (ok a, v) (untouched h p) k = k a v refl h
  continue_ends w f (err e, v) (untouched h p) k = undone w (err e, v) (untouched h p)

  pub read_then :
      {A : Type 0} (m : M A) (f : A → M B)
      → Reads m
      → (w : World) → ((a : A) (v : World) → m w ≡ (ok a, v) → Idle w v → Q w (f a v))
      → Q w ((m >>= f) w)
  read_then m f reads w k = continue_ends w f (m w) (reads.of w) k
