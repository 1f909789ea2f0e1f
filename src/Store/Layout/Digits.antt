-- ===== src/Store/Layout/Digits.antt =====
-- Decimal digits of a fixed width: the generation in a key (internal/store/layout.go).
use Prim.Native.Nat.{max}
use cnpg_i_chronicle.Common.{
  ℕ, zero, suc, ◌+◌, ◌*◌, ◌-◌, ◌/◌, ◌%◌, ◌≤◌, ◌<◌, ◌≡◌, refl, ◌∙◌, ap, Bool, true, [], ◌∷◌, ◌++◌,
  arith, Text, all, length, length-append,
}
use cnpg_i_chronicle.Store.Layout.{digits, width_of, padded, number_from, is_digit}

pub all-append :
    (p : ℕ → Bool) (s t : Text) → all p s ≡ true → all p t ≡ true → all p (s ++ t) ≡ true
all-append p [] t h k = k
all-append p (c ∷ s) t h k = ground (arith, all-append p s t)

abbrev pub power_of_ten : ℕ → ℕ
power_of_ten zero = 1
power_of_ten (suc width) = 10 * power_of_ten width

number_from-append :
    (a : ℕ) (s : Text) (c : ℕ) → number_from a (s ++ (c ∷ [])) ≡ number_from a s * 10 + (c - 48)
unfolding number_from
number_from-append a [] c = refl
number_from-append a (d ∷ s) c = number_from-append (a * 10 + (d - 48)) s c

pub number_from-digits : (width n : ℕ) → n < power_of_ten width → number_from 0 (digits width n) ≡ n
number_from-digits zero n h = unfold digits number_from in omega (arith, h)
number_from-digits (suc width) n h = from (number_from-digits width (n / 10) (omega (arith, h)))
  where
    from : number_from 0 (digits width (n / 10)) ≡ n / 10 → number_from 0 (digits (suc width) n) ≡ n
    from k =
        unfold digits in
        number_from-append 0 (digits width (n / 10)) (48 + n % 10) ∙ omega (arith, k)

pub length-digits : (width n : ℕ) → length (digits width n) ≡ width
unfolding digits
length-digits zero n = refl
length-digits (suc width) n =
    length-append (digits width (n / 10)) ((48 + n % 10) ∷ [])
    ∙ omega (arith, length-digits width (n / 10))

last_digit : (n : ℕ) → is_digit (48 + n % 10) ≡ true
last_digit n = ground arith

pub digits-is_digit : (width n : ℕ) → all is_digit (digits width n) ≡ true
unfolding digits
digits-is_digit zero n = refl
digits-is_digit (suc width) n =
    all-append is_digit (digits width (n / 10)) ((48 + n % 10) ∷ [])
      (digits-is_digit width (n / 10)) (ground (arith, last_digit n))

width_of-bound : (fuel width n : ℕ) → n < power_of_ten (suc width) → width_of fuel n ≤ suc width
width_of-bound zero width n h = unfold width_of in omega arith
width_of-bound (suc fuel) zero n h = unfold width_of in ground arith
width_of-bound (suc fuel) (suc width) n h =
    from (width_of-bound fuel width (n / 10) (omega (arith, h)))
  where
    from : width_of fuel (n / 10) ≤ suc width → width_of (suc fuel) n ≤ suc (suc width)
    from k = unfold width_of in ground arith

-- A generation of at most ten digits is printed in ten.
pub padded_ten : (n : ℕ) → n < 10000000000 → padded n ≡ digits 10 n
unfolding padded
padded_ten n h = ap (λ w. digits w n) (at_most (width_of 19 n) (width_of-bound 19 9 n h))
  where
    at_most : (w : ℕ) → w ≤ 10 → max 10 w ≡ 10
    at_most w k = omega arith
