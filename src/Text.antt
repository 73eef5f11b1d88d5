-- ===== src/Text.antt =====
-- What the program's modules take of Python's `str`: joining, `f"{n}"` of an integer, `int(text)`,
-- `partition(":")` and `rpartition(":")`. A text is the native `String`.
pub mod RoundTrip
use Prim.Native.Char.{Char, code}
use runspool.Prelude.{
  ℕ, zero, suc, ◌+◌, ◌-◌, ◌*◌, ◌/◌, ◌%◌, String, Bool, ◌||◌, Option, none, some, List, [], ◌∷◌, ltb,
  if◌then◌else◌, ◌==◌, nat_eq,
}

-- `s + t`.
unfoldable pub append : String → String → String
append String.[] t = t
append (String.◌∷◌ c s) t = String.◌∷◌ c (append s t)

-- An f-string: its parts, joined.
unfoldable pub join : List String → String
unfolding append
join [] = ""
join (s ∷ ss) = append s (join ss)

digit : ℕ → Char
digit zero = "0"
digit (suc zero) = "1"
digit (suc (suc zero)) = "2"
digit (suc (suc (suc zero))) = "3"
digit (suc (suc (suc (suc zero)))) = "4"
digit (suc (suc (suc (suc (suc zero))))) = "5"
digit (suc (suc (suc (suc (suc (suc zero)))))) = "6"
digit (suc (suc (suc (suc (suc (suc (suc zero))))))) = "7"
digit (suc (suc (suc (suc (suc (suc (suc (suc zero)))))))) = "8"
digit (suc (suc (suc (suc (suc (suc (suc (suc (suc n))))))))) = "9"

-- The digits of `n` before `out`, most significant first.
digits : ℕ → ℕ → String → String
unfolding digit
digits zero n out = out
digits (suc fuel) n out =
    let more = digits fuel (n / 10) (String.◌∷◌ (digit (n % 10)) out) in
    if ltb n 10 then String.◌∷◌ (digit n) out else more

-- `f"{n}"`: a number has at most as many digits as its value plus one.
unfoldable pub decimal : ℕ → String
unfolding digits
decimal n = digits (suc n) n ""

digit_value : Char → Option ℕ
digit_value c = if ltb (code c) b'0' || ltb b'9' (code c) then none else some (code c - b'0')

scan : String → ℕ → Option ℕ
unfolding digit_value
scan String.[] n = some n
scan (String.◌∷◌ c s) n = elim (digit_value c) [ none ↦ none | some d ↦ scan s (n * 10 + d) ]

-- `int(text)` of a text of digits; `none` is the `ValueError` of any other text.
unfoldable pub int : String → Option ℕ
unfolding scan
int String.[] = none
int (String.◌∷◌ c s) = scan (String.◌∷◌ c s) 0

abbrev pub is_colon : Char → Bool
is_colon c = code c == b':'

-- `text.partition(":")` as the part before the first colon and the part behind it.
unfoldable pub partition : String → String × String
partition String.[] = ("", "")
partition (String.◌∷◌ c s) =
    let (before, behind) = partition s in
    if is_colon c then ("", s) else (String.◌∷◌ c before, behind)

-- The parts before and behind the last colon, if there is one.
rsplit : String → Option (String × String)
rsplit String.[] = none
rsplit (String.◌∷◌ c s) = elim (rsplit s) [
  | none ↦ if is_colon c then some ("", s) else none
  | some (before, behind) ↦ some (String.◌∷◌ c before, behind)
]

-- `text.rpartition(":")`: without a colon the text stands behind.
unfoldable pub rpartition : String → String × String
unfolding rsplit
rpartition s = elim (rsplit s) [ none ↦ ("", s) | some parts ↦ parts ]
