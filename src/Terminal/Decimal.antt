-- ===== src/Terminal/Decimal.antt =====
-- The digits that print_decimal writes, and the array that holds them.
use kernel_nesemulator.Prelude.{
  ℕ, zero, suc, ◌+◌, ◌-◌, ◌*◌, ◌/◌, ◌^◌, ◌<◌, ◌≤◌, ◌≡◌, refl, ap, ◌∙◌, true, false, none, some,
  List, [], ◌∷◌, length, ltb, ◌==◌, if◌then◌else◌, arith, Bool-cases, inl, inr, ltb-false→le,
  ltb→lt,
}
use kernel_nesemulator.Terminal.{low_digits, backwards, decimal}

-- The number that a reader sees, behind the digits of `seen`.
unfoldable pub number : ℕ → List ℕ → ℕ
number seen [] = seen
number seen (c ∷ text) = number (seen * 10 + (c - 0x30)) text

unfoldable low_value : List ℕ → ℕ
low_value [] = 0
low_value (c ∷ rest) = c - 0x30 + 10 * low_value rest

unfoldable pub power_of_ten : ℕ → ℕ
power_of_ten zero = 1
power_of_ten (suc k) = 10 * power_of_ten k

low_value-low_digits : (fuel value : ℕ) → value ≤ fuel → low_value (low_digits fuel value) ≡ value
unfolding low_digits low_value
low_value-low_digits zero value h = omega arith
low_value-low_digits (suc fuel) value h = elim (Bool-cases (ltb 0 value)) [
  | inl more ↦
      let rest = low_value-low_digits fuel (value / 10) (ground (arith, more)) in
      rw more (omega (arith, rest))
  | inr done ↦ rw done (ground (arith, done))
]

number-backwards :
    (found written : List ℕ) → number 0 (backwards found written) ≡ number (low_value found) written
unfolding number low_value
number-backwards [] written = refl
number-backwards (c ∷ rest) written =
    number-backwards rest (c ∷ written)
    ∙ ap (λ n. number n written) (swap (low_value rest) (c - 0x30))
  where
    swap : (a b : ℕ) → a * 10 + b ≡ b + 10 * a
    swap a b = omega arith

length-low_digits :
    (fuel value k : ℕ) → value ≤ fuel → value < power_of_ten k → length (low_digits fuel value) ≤ k
unfolding low_digits power_of_ten
length-low_digits zero value k h small = omega arith
length-low_digits (suc fuel) value zero h small =
    let done : ltb 0 value ≡ false = ground arith in rw done (omega arith)
length-low_digits (suc fuel) value (suc k) h small = elim (Bool-cases (ltb 0 value)) [
  | inl more ↦
      let rest =
        length-low_digits fuel (value / 10) k (ground (arith, more)) (omega (arith, small)) in
      rw more (omega (arith, rest))
  | inr done ↦ rw done (omega arith)
]

power-pos : (k : ℕ) → 0 < power_of_ten k
unfolding power_of_ten
power-pos zero = omega arith
power-pos (suc k) = omega (arith, power-pos k)

low_digits-length :
    (fuel value k : ℕ) → value ≤ fuel → power_of_ten k ≤ value → k < length (low_digits fuel value)
unfolding low_digits power_of_ten
low_digits-length zero value zero h large = absurd (omega arith)
low_digits-length zero value (suc k) h large = absurd (omega (arith, power-pos k))
low_digits-length (suc fuel) value zero h large =
    let more : ltb 0 value ≡ true = ground arith in rw more (omega arith)
low_digits-length (suc fuel) value (suc k) h large =
    let nonzero : 0 < value = omega (arith, large, power-pos k) in
    let more : ltb 0 value ≡ true = ground (arith, nonzero) in
    let rest =
      low_digits-length fuel (value / 10) k (omega (arith, h, nonzero)) (omega (arith, large)) in
    rw more (omega (arith, rest))

eight : (value : ℕ) → value < 10 ^ 8 → value < power_of_ten 8
unfolding power_of_ten
eight value h = h

eight_more : (value : ℕ) → 10 ^ 8 ≤ value → power_of_ten 8 ≤ value
unfolding power_of_ten
eight_more value h = h

fits_array : (n : ℕ) → n ≤ 8 → ltb 8 n ≡ false
fits_array n h = ground arith

overruns_array : (n : ℕ) → 8 < n → ltb 8 n ≡ true
overruns_array n h = ground arith

-- The text of a value, whether or not it fits into the array.
text_of : ℕ → List ℕ
text_of value = if value == 0 then 0x30 ∷ [] else backwards (low_digits value value) []

number-text_of : (value : ℕ) → number 0 (text_of value) ≡ value
unfolding text_of number
number-text_of value = elim (Bool-cases (value == 0)) [
  | inl none_left ↦ let same : 0 ≡ value = ground arith in rw none_left same
  | inr some_left ↦ rw some_left (
      number-backwards (low_digits value value) [] ∙ low_value-low_digits value value (omega arith))
]

decimal-text_of :
    (value : ℕ) → decimal value ≡ (if ltb value (10 ^ 8) then some (text_of value) else none)
unfolding decimal text_of
decimal-text_of zero = refl
decimal-text_of (suc n) =
    let nonzero : (suc n == 0) ≡ false = ground arith in
    let found = low_digits (suc n) (suc n) in
    elim (Bool-cases (ltb (suc n) (10 ^ 8))) [
      | inl below ↦
          let short =
            length-low_digits (suc n) (suc n) 8 (omega arith)
              (eight (suc n) (ltb→lt (suc n) (10 ^ 8) below)) in
          rw (nonzero, below, fits_array (length found) short) refl
      | inr above ↦
          let long =
            low_digits-length (suc n) (suc n) 8 (omega arith)
              (eight_more (suc n) (ltb-false→le (suc n) (10 ^ 8) above)) in
          rw (nonzero, above, overruns_array (length found) long) refl
    ]

-- For a value below 10^8, print_decimal writes characters that read as this number; from 10^8 on,
-- it stores more digits than its array of eight holds.
pub number-decimal :
    (value : ℕ)
    → (text : List ℕ) × ((decimal value ≡ (if ltb value (10 ^ 8) then some text else none))
        × (number 0 text ≡ value))
number-decimal value = (text_of value, (decimal-text_of value, number-text_of value))
