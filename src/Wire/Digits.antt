-- ===== src/Wire/Digits.antt =====
-- `int` reads back what `str` writes of an integer, which shared/wire.py relies on.
use cat_automation.Prelude.{
  ℕ, zero, suc, ◌+◌, ◌-◌, ◌*◌, ◌/◌, ◌%◌, ◌≤◌, ◌<◌, ◌≡◌, sym, ap, subst, ◌∙◌, ◌⊎◌, ℤ, pos, negsuc,
  Bool, true, false, none, some, [], ◌∷◌, ◌++◌, append-nil, append_assoc, All, All-append, inl, inr,
  arith,
}
use cat_automation.Wire.Text.{Bytes}
use cat_automation.Wire.Lines.{IsVisible, strip-eq_self}
use cat_automation.Wire.Number.{
  show_digits, str_nat, str_int, is_digit, read_digits, negate, read_signed, int_of,
}

abbrev pub IsDigit : ℕ → Type 0
IsDigit c = (48 ≤ c) × (c ≤ 57)

read_digits-digit :
    (d : Bool) (n c : ℕ) (s : Bytes)
    → IsDigit c
    → read_digits d n (c ∷ s) ≡ read_digits true (n * 10 + (c - 48)) s
unfolding read_digits is_digit
read_digits-digit d n c s h = ground (arith, h)

-- The last digit, which is the only one of a number below ten.
show_digits-cases :
    (fuel n : ℕ)
    → (n < 10) × (show_digits (suc fuel) n ≡ (48 + n) ∷ [])
      ⊎ (10 ≤ n) × (show_digits (suc fuel) n ≡ show_digits fuel (n / 10) ++ (48 + n % 10) ∷ [])
unfolding show_digits
show_digits-cases fuel n = ground arith

show_digits-IsDigit : (fuel n : ℕ) → All IsDigit (show_digits fuel n)
unfolding show_digits
show_digits-IsDigit zero n = tt
show_digits-IsDigit (suc fuel) n = elim (show_digits-cases fuel n) [
  | inl (small, e) ↦ subst (All IsDigit) (sym e) ((omega (arith, small), omega (arith, small)), tt)
  | inr (large, e) ↦ subst (All IsDigit) (sym e) (
      All-append IsDigit (show_digits fuel (n / 10)) ((48 + n % 10) ∷ [])
        (show_digits-IsDigit fuel (n / 10)) ((omega arith, omega arith), tt))
]

read_digits-show_digits :
    (fuel n : ℕ) (s : Bytes)
    → n < fuel
    → read_digits false 0 (show_digits fuel n ++ s) ≡ read_digits true n s
read_digits-show_digits zero n s h = absurd (omega (arith, h))
read_digits-show_digits (suc fuel) n s h = elim (show_digits-cases fuel n) [
  | inl (small, e) ↦
      ap (λ shown. read_digits false 0 (shown ++ s)) e
      ∙ read_digits-digit false 0 (48 + n) s (omega (arith, small), omega (arith, small))
      ∙ ap (λ m. read_digits true m s) (omega arith)
  | inr (large, e) ↦
      let shown = show_digits fuel (n / 10) in
      ap (λ t. read_digits false 0 (t ++ s)) e
      ∙ ap (λ t. read_digits false 0 t) (append_assoc shown ((48 + n % 10) ∷ []) s)
      ∙ read_digits-show_digits fuel (n / 10) ((48 + n % 10) ∷ s) (omega (arith, h, large))
      ∙ read_digits-digit true (n / 10) (48 + n % 10) s (omega arith, omega arith)
      ∙ ap (λ m. read_digits true m s) (omega arith)
]

pub read_digits-str_nat : (n : ℕ) → read_digits false 0 (str_nat n) ≡ some n
unfolding str_nat read_digits
read_digits-str_nat n =
    ap (λ t. read_digits false 0 t) (sym (append-nil (show_digits (suc n) n)))
    ∙ read_digits-show_digits (suc n) n [] (omega arith)

-- A text that begins with a digit has no sign.
read_signed-digits :
    (s : Bytes) (n : ℕ)
    → All IsDigit s
    → read_digits false 0 s ≡ some n
    → read_signed s ≡ some (pos n)
unfolding read_signed read_digits
read_signed-digits [] n a e = cc
read_signed-digits (c ∷ s) n a e = ground (arith, a.0, e)

IsDigit-IsVisible : (s : Bytes) → All IsDigit s → All IsVisible s
IsDigit-IsVisible [] a = tt
IsDigit-IsVisible (c ∷ s) a =
    ((omega (arith, a.0.0), omega (arith, a.0.1)), IsDigit-IsVisible s a.1)

pub str_nat-IsDigit : (n : ℕ) → All IsDigit (str_nat n)
unfolding str_nat
str_nat-IsDigit n = show_digits-IsDigit (suc n) n

pub str_int-IsVisible : (n : ℤ) → All IsVisible (str_int n)
unfolding str_int
str_int-IsVisible (pos n) = IsDigit-IsVisible (str_nat n) (str_nat-IsDigit n)
str_int-IsVisible (negsuc n) =
    ((omega arith, omega arith), IsDigit-IsVisible (str_nat (suc n)) (str_nat-IsDigit (suc n)))

read_signed-minus :
    (s : Bytes) (n : ℕ) → read_digits false 0 s ≡ some n → read_signed (45 ∷ s) ≡ some (negate n)
unfolding read_signed
read_signed-minus s n e = ap (λ o. elim o [ none ↦ none | some m ↦ some (negate m) ]) e

read_signed-str_int : (n : ℤ) → read_signed (str_int n) ≡ some n
unfolding str_int negate
read_signed-str_int (pos n) =
    read_signed-digits (str_nat n) n (str_nat-IsDigit n) (read_digits-str_nat n)
read_signed-str_int (negsuc n) =
    read_signed-minus (str_nat (suc n)) (suc n) (read_digits-str_nat (suc n))

pub int_of-str_int : (n : ℤ) → int_of (str_int n) ≡ some n
unfolding int_of
int_of-str_int n =
    ap read_signed (strip-eq_self (str_int n) (str_int-IsVisible n)) ∙ read_signed-str_int n
