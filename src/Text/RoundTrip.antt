-- ===== src/Text/RoundTrip.antt =====
-- `int` reads back what an f-string prints, and the last colon of `a:n` is the one before `n`.
use Prim.Native.Char.{Char}
use runspool.Prelude.{
  ℕ, zero, suc, ◌+◌, ◌*◌, ◌/◌, ◌%◌, ◌<◌, String, false, none, some, ◌≡◌, refl, ap, ◌∙◌, arith, ltb,
  Bool-cases, inl, inr,
}
use runspool.Text.{
  append, digit, digits, decimal, digit_value, scan, int, is_colon, rsplit, rpartition,
}

digit_value-digit : (n : ℕ) → n < 10 → digit_value (digit n) ≡ some n
unfolding digit_value digit
digit_value-digit zero h = refl
digit_value-digit (suc zero) h = refl
digit_value-digit (suc (suc zero)) h = refl
digit_value-digit (suc (suc (suc zero))) h = refl
digit_value-digit (suc (suc (suc (suc zero)))) h = refl
digit_value-digit (suc (suc (suc (suc (suc zero))))) h = refl
digit_value-digit (suc (suc (suc (suc (suc (suc zero)))))) h = refl
digit_value-digit (suc (suc (suc (suc (suc (suc (suc zero))))))) h = refl
digit_value-digit (suc (suc (suc (suc (suc (suc (suc (suc zero)))))))) h = refl
digit_value-digit (suc (suc (suc (suc (suc (suc (suc (suc (suc zero))))))))) h = refl
digit_value-digit (suc (suc (suc (suc (suc (suc (suc (suc (suc (suc n)))))))))) h =
    absurd (omega arith)

-- Reading one printed digit appends it to the number read so far.
scan-digit :
    (d n : ℕ) (out : String) → d < 10 → scan (String.◌∷◌ (digit d) out) n ≡ scan out (n * 10 + d)
unfolding scan
scan-digit d n out h = rw (digit_value-digit d h, scan)

scan-digits : (fuel n : ℕ) (out : String) → n < fuel → scan (digits fuel n out) 0 ≡ scan out n
unfolding digits
scan-digits zero n out h = absurd (omega arith)
scan-digits (suc fuel) n out h = elim (Bool-cases (ltb n 10)) [
  | inl small ↦ rw small (scan-digit n 0 out (ground arith) ∙ ap (scan out) (omega arith))
  | inr large ↦ rw large (
      scan-digits fuel (n / 10) (String.◌∷◌ (digit (n % 10)) out) (ground arith)
      ∙ scan-digit (n % 10) (n / 10) out (omega arith)
      ∙ ap (scan out) (omega arith))
]

digits-cons :
    (fuel n : ℕ) (c : Char) (out : String)
    → (d : Char) × (s : String) × (digits fuel n (String.◌∷◌ c out) ≡ String.◌∷◌ d s)
unfolding digits
digits-cons zero n c out = (c, out, refl)
digits-cons (suc fuel) n c out = elim (Bool-cases (ltb n 10)) [
  | inl small ↦ (digit n, String.◌∷◌ c out, rw small)
  | inr large ↦
      let (d, s, e) = digits-cons fuel (n / 10) (digit (n % 10)) (String.◌∷◌ c out) in
      (d, s, rw large e)
]

int-scan : (c : Char) (s : String) → int (String.◌∷◌ c s) ≡ scan (String.◌∷◌ c s) 0
unfolding int
int-scan c s = refl

-- A printed number is not the empty text.
decimal-cons : (n : ℕ) → (d : Char) × (s : String) × (decimal n ≡ String.◌∷◌ d s)
unfolding decimal digits
decimal-cons n = elim (Bool-cases (ltb n 10)) [
  | inl small ↦ (digit n, "", rw small)
  | inr large ↦ let (d, s, e) = digits-cons n (n / 10) (digit (n % 10)) "" in (d, s, rw large e)
]

-- `int(f"{n}") == n`.
pub int-decimal : (n : ℕ) → int (decimal n) ≡ some n
int-decimal n =
    let (d, s, e) = decimal-cons n in
    rw e (int-scan d s ∙ rw (← e) (unfold decimal scan in scan-digits (suc n) n "" (omega arith)))

-- No digit is a colon.
colon-digit : (n : ℕ) → n < 10 → is_colon (digit n) ≡ false
unfolding digit_value
colon-digit n h = ground (arith, digit_value-digit n h)

rsplit-digits : (fuel n : ℕ) (out : String) → rsplit out ≡ none → rsplit (digits fuel n out) ≡ none
unfolding digits
rsplit-digits zero n out h = h
rsplit-digits (suc fuel) n out h = elim (Bool-cases (ltb n 10)) [
  | inl small ↦ rw small (unfold rsplit in rw (h, colon-digit n (ground arith)))
  | inr large ↦ rw large (
      rsplit-digits fuel (n / 10) (String.◌∷◌ (digit (n % 10)) out)
        (unfold rsplit in rw (h, colon-digit (n % 10) (omega arith))))
]

rsplit-append : (s t : String) → rsplit t ≡ none → rsplit (append s (append ":" t)) ≡ some (s, t)
unfolding append rsplit
rsplit-append String.[] t h = rw h
rsplit-append (String.◌∷◌ c s) t h = rw (rsplit-append s t h)

-- Splitting `s:n` at its last colon gives `s` and the print of `n`, whatever colons `s` holds.
pub rpartition-decimal :
    (s : String) (n : ℕ) → rpartition (append s (append ":" (decimal n))) ≡ (s, decimal n)
unfolding rpartition decimal
rpartition-decimal s n = rw (
  rsplit-append s (digits (suc n) n "") (rsplit-digits (suc n) n "" (unfold rsplit in refl)),
  rpartition,
)
