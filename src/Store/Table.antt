-- ===== src/Store/Table.antt =====
-- A table as the list of its rows in id order. `id` is the primary key: at most one row has it, so
-- a statement `... where id = ?` reads or writes the first row with that id.
use runspool.Prelude.{
  ℕ, ◌≡◌, ◌≢◌, refl, Bool, true, false, Option, none, some, List, [], ◌∷◌, arith, Bool-cases, inl,
  inr, if◌then◌else◌, ◌==◌, nat_eq,
}

module _ {ℓ} {A : Type ℓ} where
  -- `select ... where <test>`.
  unfoldable pub select : (A → Bool) → List A → List A
  select test [] = []
  select test (r ∷ rs) = let rest = select test rs in if test r then r ∷ rest else rest

  -- `update ... set <f> where <test>`.
  unfoldable pub update_all : (A → Bool) → (A → A) → List A → List A
  update_all test f [] = []
  update_all test f (r ∷ rs) = (if test r then f r else r) ∷ update_all test f rs

module _ {ℓ} {A : Type ℓ} (key : A → ℕ) where
  -- `select ... where id = ?`.
  unfoldable pub find : ℕ → List A → Option A
  find i [] = none
  find i (r ∷ rs) = if key r == i then some r else find i rs

  unfoldable pub replace : ℕ → A → List A → List A
  replace i new [] = []
  replace i new (r ∷ rs) = if key r == i then new ∷ rs else r ∷ replace i new rs

  -- `update ... set <f> where id = ? and <test>`; `none` is a `rowcount` of 0.
  unfoldable pub update_row : ℕ → (A → Bool) → (A → A) → List A → Option (List A)
  update_row i test f rows = elim (find i rows) [
    | none ↦ none
    | some r ↦ if test r then some (replace i (f r) rows) else none
  ]

  pub find_key : (i : ℕ) (rows : List A) (r : A) → find i rows ≡ some r → key r ≡ i
  unfolding find
  find_key i [] r h = cc
  find_key i (q ∷ rs) r h = ground (arith, find_key i rs r)

  -- A row that keeps its id is found under it, once written.
  pub find-replace :
      (i : ℕ) (new : A) (rows : List A) (r : A)
      → find i rows ≡ some r
      → key new ≡ i
      → find i (replace i new rows) ≡ some new
  unfolding find replace
  find-replace i new [] r h k = cc
  find-replace i new (q ∷ rs) r h k = ground (arith, find-replace i new rs r)

  -- Writing one row leaves every other row alone.
  pub find-replace_ne :
      (i j : ℕ) (new : A) (rows : List A)
      → j ≢ i
      → key new ≡ i
      → find j (replace i new rows) ≡ find j rows
  unfolding find replace
  find-replace_ne i j new [] h k = refl
  find-replace_ne i j new (r ∷ rs) h k = ground (arith, find-replace_ne i j new rs)

  written_row :
      (i : ℕ) (test : A → Bool) (f : A → A) (rows rows' : List A) (found : Option A)
      → ◌≡◌ {A = Option (List A)}
          (elim found [
            | none ↦ none
            | some r ↦ if test r then some (replace i (f r) rows) else none
          ])
          (some rows')
      → (r : A) × (found ≡ some r) × (test r ≡ true) × (rows' ≡ replace i (f r) rows)
  written_row i test f rows rows' none h = absurd (cc)
  written_row i test f rows rows' (some r) h = elim (Bool-cases (test r)) [
    | inl holds ↦ (r, refl, holds, ground arith)
    | inr fails ↦ absurd (ground arith)
  ]

  -- A statement that changed a row found it, and its condition held there.
  pub update_row-eq-some :
      (i : ℕ) (test : A → Bool) (f : A → A) (rows rows' : List A)
      → update_row i test f rows ≡ some rows'
      → (r : A) × (find i rows ≡ some r) × (test r ≡ true) × (rows' ≡ replace i (f r) rows)
  unfolding update_row
  update_row-eq-some i test f rows rows' h = written_row i test f rows rows' (find i rows) h

  -- A statement whose condition fails on the row changes nothing.
  pub update_row-eq-none :
      (i : ℕ) (test : A → Bool) (f : A → A) (rows : List A) (r : A)
      → find i rows ≡ some r
      → test r ≡ false
      → update_row i test f rows ≡ none
  unfolding update_row
  update_row-eq-none i test f rows r e h = ground arith

  -- A statement whose condition holds on the row writes it.
  pub update_row-eq-written :
      (i : ℕ) (test : A → Bool) (f : A → A) (rows : List A) (r : A)
      → find i rows ≡ some r
      → test r ≡ true
      → update_row i test f rows ≡ some (replace i (f r) rows)
  unfolding update_row
  update_row-eq-written i test f rows r e h = ground arith
