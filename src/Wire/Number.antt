-- ===== src/Wire/Number.antt =====
-- Python's `str(n)` of an integer, and `int(s)` of a text in Latin-1, which shared/wire.py uses, with no
-- limit on the number of digits.
use cat_automation.Prelude.{
  ℕ, zero, suc, ◌+◌, ◌-◌, ◌*◌, ◌/◌, ◌%◌, ℤ, pos, negsuc, Bool, true, false, Option, none, some, [],
  ◌∷◌, ◌++◌, ◌==◌, ◌&&◌, ltb, leb, if◌then◌else◌,
}
use cat_automation.Wire.Text.{Bytes, strip}

-- The decimal digits of `n`, of which there are fewer than `fuel`.
unfoldable pub show_digits : ℕ → ℕ → Bytes
show_digits zero n = []
show_digits (suc fuel) n = elim (ltb n 10) [
  | true ↦ (48 + n) ∷ []
  | false ↦ show_digits fuel (n / 10) ++ (48 + n % 10) ∷ []
]

unfoldable pub str_nat : ℕ → Bytes
unfolding show_digits
str_nat n = show_digits (suc n) n

unfoldable pub str_int : ℤ → Bytes
unfolding str_nat
str_int (pos n) = str_nat n
str_int (negsuc n) = 45 ∷ str_nat (suc n)

unfoldable pub is_digit : ℕ → Bool
is_digit c = leb 48 c && leb c 57

-- The rest of a number's digits. `int` lets one underscore stand between two digits.
unfoldable pub read_digits : Bool → ℕ → Bytes → Option ℕ
unfolding is_digit
read_digits after_digit n [] = if after_digit then some n else none
read_digits after_digit n (c ∷ s) =
    let rest = read_digits (is_digit c) (if is_digit c then n * 10 + (c - 48) else n) s in
    if is_digit c then rest else if after_digit && c == 95 then rest else none

unfoldable pub negate : ℕ → ℤ
negate zero = pos zero
negate (suc n) = negsuc n

unfoldable pub read_signed : Bytes → Option ℤ
unfolding read_digits negate
read_signed [] = none
read_signed (c ∷ s) =
    let unsigned = read_digits false 0 s in
    let whole = read_digits false 0 (c ∷ s) in
    if c == 45
    then elim unsigned [ none ↦ none | some n ↦ some (negate n) ]
    else elim (if c == 43 then unsigned else whole) [ none ↦ none | some n ↦ some (pos n) ]

-- `int(s)`, and `none` where it raises ValueError.
unfoldable pub int_of : Bytes → Option ℤ
unfolding read_signed strip
int_of s = read_signed (strip s)
