-- ===== src/Update/Version/Number.antt =====
-- strconv.Atoi and the decimal print of a number that is not negative.
use connective.Prelude.{
  ℕ, zero, suc, ◌+◌, ◌-◌, ◌*◌, ◌/◌, ◌%◌, ◌^◌, ◌≤◌, ◌<◌, Bool, true, false, ◌&&◌, leb, ltb, ◌==◌,
  if◌then◌else◌, [], ◌∷◌, ◌++◌, Option, none, some, Text, is_empty, ◌≡◌, refl, ap, ◌∙◌, arith, inl,
  inr, Bool-cases, All, All-append,
}
use connective.Prelude.Int.{ℤ, pos, negsuc}

abbrev pub max_int : ℕ
max_int = 2 ^ 63 - 1

abbrev pub is_digit : ℕ → Bool
is_digit c = leb b'0' c && leb c b'9'

-- The number that digits spell behind `n`.
unfoldable pub digits_value : ℕ → Text → Option ℕ
digits_value n [] = some n
digits_value n (c ∷ s) =
    let rest = digits_value (n * 10 + (c - b'0')) s in if is_digit c then rest else none

-- Out of range is an error.
abbrev pub in_range : Bool → Option ℕ → Option ℤ
in_range negative none = none
in_range true (some zero) = some (pos 0)
in_range true (some (suc n)) = if leb n max_int then some (negsuc n) else none
in_range false (some n) = if leb n max_int then some (pos n) else none

unfoldable pub unsigned : Bool → Text → Option ℤ
unfolding digits_value
unsigned negative [] = none
unsigned negative (c ∷ s) = in_range negative (digits_value 0 (c ∷ s))

-- A sign, then at least one digit.
unfoldable pub atoi : Text → Option ℤ
unfolding unsigned
atoi [] = none
atoi (c ∷ s) =
    if c == b'-'
    then unsigned true s
    else if c == b'+'
    then unsigned false s
    else unsigned false (c ∷ s)

-- The digits of `n`; the fuel is above their number.
digits : ℕ → ℕ → Text
digits zero n = []
digits (suc f) n =
    let more = digits f (n / 10) in
    if ltb n 10 then (b'0' + n) ∷ [] else more ++ (b'0' + n % 10) ∷ []

unfoldable pub format : ℕ → Text
unfolding digits
format n = digits (suc n) n

abbrev pub IsDigit : ℕ → Type 0
IsDigit c = (b'0' ≤ c) × (c ≤ b'9')

digits-IsDigit : (f n : ℕ) → All IsDigit (digits f n)
unfolding digits
digits-IsDigit zero n = tt
digits-IsDigit (suc f) n = ground (
  arith,
  digits-IsDigit f (n / 10),
  All-append IsDigit (digits f (n / 10)) ((b'0' + n % 10) ∷ []),
)

pub format-IsDigit : (n : ℕ) → All IsDigit (format n)
unfolding format
format-IsDigit n = digits-IsDigit (suc n) n

digits-ne-nil : (f n : ℕ) → is_empty (digits (suc f) n) ≡ false
unfolding digits
digits-ne-nil f n = elim (Bool-cases (ltb n 10)) [
  | inl e ↦ rw e
  | inr e ↦ rw e (append_last-ne-nil (digits f (n / 10)))
]
  where
    append_last-ne-nil : (s : Text) → is_empty (s ++ (b'0' + n % 10) ∷ []) ≡ false
    append_last-ne-nil [] = refl
    append_last-ne-nil (c ∷ s) = refl

pub format-ne-nil : (n : ℕ) → is_empty (format n) ≡ false
unfolding format
format-ne-nil n = digits-ne-nil n n

digits_value-append :
    (n : ℕ) (s t : Text) (m : ℕ)
    → digits_value n s ≡ some m
    → digits_value n (s ++ t) ≡ digits_value m t
unfolding digits_value
digits_value-append n [] t m h = ground arith
digits_value-append n (c ∷ s) t m h =
    ground (arith, digits_value-append (n * 10 + (c - b'0')) s t m)

digits_value-digits : (f n : ℕ) → n < f → digits_value 0 (digits f n) ≡ some n
unfolding digits
digits_value-digits zero n h = absurd (omega arith)
digits_value-digits (suc f) n h = elim (Bool-cases (ltb n 10)) [
  | inl e ↦ rw e (unfold digits_value in (ground arith))
  | inr e ↦ rw e (
      digits_value-append 0 (digits f (n / 10)) ((b'0' + n % 10) ∷ []) (n / 10)
        (digits_value-digits f (n / 10) (ground arith))
      ∙ unfold digits_value in (ground arith))
]

atoi_digits :
    (s : Text) → is_empty s ≡ false → All IsDigit s → atoi s ≡ in_range false (digits_value 0 s)
unfolding atoi
atoi_digits [] e h = cc
atoi_digits (c ∷ s) e h = ground arith

-- Every number that an `int` holds is read back from its decimal print.
pub atoi-format : (n : ℕ) → n ≤ max_int → atoi (format n) ≡ some (pos n)
unfolding format
atoi-format n h =
    atoi_digits (digits (suc n) n) (digits-ne-nil n n) (digits-IsDigit (suc n) n)
    ∙ (ap (in_range false) (digits_value-digits (suc n) n (omega arith)) ∙ ground arith)

in_range-bound : (b : Bool) (o : Option ℕ) (n : ℕ) → in_range b o ≡ some (pos n) → n ≤ max_int
in_range-bound b none n h = ground arith
in_range-bound true (some zero) n h = ground arith
in_range-bound true (some (suc m)) n h = ground arith
in_range-bound false (some m) n h = ground arith

unsigned-bound : (b : Bool) (s : Text) (n : ℕ) → unsigned b s ≡ some (pos n) → n ≤ max_int
unfolding unsigned
unsigned-bound b [] n h = cc
unsigned-bound b (c ∷ s) n h = in_range-bound b (digits_value 0 (c ∷ s)) n h

-- A number that is read fits an `int`.
pub atoi-bound : (s : Text) (n : ℕ) → atoi s ≡ some (pos n) → n ≤ max_int
atoi-bound [] n h = unfold atoi in cc
atoi-bound (c ∷ s) n h =
    unfold atoi in
    (ground
      (arith, unsigned-bound true s n, unsigned-bound false s n, unsigned-bound false (c ∷ s) n))
