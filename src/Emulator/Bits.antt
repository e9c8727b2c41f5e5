-- ===== src/Emulator/Bits.antt =====
-- Bits of bytes and flags.
use kernel_nesemulator.Prelude.{
  ℕ, ◌+◌, ◌-◌, ◌*◌, ◌^◌, ◌<◌, ◌≡◌, refl, sym, Bool, true, false, not, ◌&&◌, ◌||◌, leb, ◌==◌,
  if◌then◌else◌, bit_and, bit_or, bit_xor, u8, arith,
}
use kernel_nesemulator.Prelude.Bytes.{all_below, all_below_sound}
use kernel_nesemulator.Emulator.Bus.{nonzero, word}
use kernel_nesemulator.Emulator.Alu.{sign_without}

-- A property of two bytes, checked value by value.
abbrev pub all_pairs : (ℕ → ℕ → Bool) → Bool
all_pairs p = all_below 256 (λ x. all_below 256 (p x))

pub all_pairs_sound :
    (p : ℕ → ℕ → Bool) (x y : ℕ) → all_pairs p ≡ true → x < 256 → y < 256 → p x y ≡ true
all_pairs_sound p x y h hx hy =
    all_below_sound 256 (p x) y (all_below_sound 256 (λ z. all_below 256 (p z)) x h hx) hy

words : all_pairs (λ high low. word high low == high * 256 + low) ≡ true
unfolding all_below word
words = refl

-- Two bytes make the word that has them as its halves.
pub word-bytes : (high low : ℕ) → high < 256 → low < 256 → word high low ≡ high * 256 + low
word-bytes high low h l =
    let e = all_pairs_sound (λ a b. word a b == a * 256 + b) high low words h l in ground arith

abbrev pub eq_bool : Bool → Bool → Bool
eq_bool true b = b
eq_bool false b = not b

pub eq_bool_sound : (a b : Bool) → eq_bool a b ≡ true → a ≡ b
eq_bool_sound true b h = sym h
eq_bool_sound false true h = h
eq_bool_sound false false h = refl

-- `flags` with bit `i` set or cleared, as set_status_flag stores it.
abbrev pub put : ℕ → Bool → ℕ → ℕ
put flag condition flags =
    if condition then u8 (bit_or flags flag) else u8 (bit_and flags (255 - flag))

abbrev pub has : ℕ → ℕ → Bool
has flag flags = nonzero (bit_and flags flag)

puts :
    all_below 8 (λ i. all_below 8 (λ j. all_below 256 (λ flags.
      eq_bool (has (2 ^ j) (put (2 ^ i) true flags)) (i == j || has (2 ^ j) flags)
      && eq_bool (has (2 ^ j) (put (2 ^ i) false flags)) (not (i == j) && has (2 ^ j) flags))))
    ≡ true
unfolding all_below
puts = refl

stored :
    (p q e old : Bool)
    → (eq_bool p (e || old) && eq_bool q (not e && old)) ≡ true
    → (p ≡ (if e then true else old)) × (q ≡ (if e then false else old))
stored p q true old h = ground arith
stored p q false old h = ground arith

has-put_both :
    (i j flags : ℕ)
    → i < 8
    → j < 8
    → flags < 256
    → (has (2 ^ j) (put (2 ^ i) true flags) ≡ (if i == j then true else has (2 ^ j) flags))
      × (has (2 ^ j) (put (2 ^ i) false flags) ≡ (if i == j then false else has (2 ^ j) flags))
has-put_both i j flags hi hj hf =
    let row = all_below_sound 8 _ i puts hi in
    let cell = all_below_sound 8 _ j row hj in
    stored _ _ (i == j) (has (2 ^ j) flags) (all_below_sound 256 _ flags cell hf)

-- Reading bit `j` behind a store into bit `i`.
pub has-put :
    (i j flags : ℕ) (condition : Bool)
    → i < 8
    → j < 8
    → flags < 256
    → has (2 ^ j) (put (2 ^ i) condition flags) ≡ (if i == j then condition else has (2 ^ j) flags)
has-put i j flags true hi hj hf = (has-put_both i j flags hi hj hf).0
has-put i j flags false hi hj hf = (has-put_both i j flags hi hj hf).1

pub put-lt : (i flags : ℕ) (condition : Bool) → put i condition flags < 256
put-lt i flags true = omega arith
put-lt i flags false = omega arith

signs :
    all_pairs (λ x y.
      eq_bool (leb 0x80 (u8 (bit_xor x y))) (not (eq_bool (leb 0x80 x) (leb 0x80 y)))
      && eq_bool (nonzero (bit_and (bit_and (255 - x) y) 0x80)) (not (leb 0x80 x) && leb 0x80 y)
      && eq_bool (nonzero (bit_and (bit_and x y) 0x80)) (leb 0x80 x && leb 0x80 y))
    ≡ true
unfolding all_below
signs = refl

conjuncts : (p q r : Bool) → (p && q && r) ≡ true → (p ≡ true) × ((q ≡ true) × (r ≡ true))
conjuncts p q r h = ground arith

abbrev pub negative : ℕ → Bool
negative n = leb 0x80 n

-- The sign bits of the exclusive or, and of the terms that ADC_op and SBC_op test.
pub sign_bits :
    (x y : ℕ)
    → x < 256
    → y < 256
    → (negative (u8 (bit_xor x y)) ≡ not (eq_bool (negative x) (negative y)))
      × ((sign_without x y ≡ (not (negative x) && negative y))
          × (nonzero (bit_and (bit_and x y) 0x80) ≡ (negative x && negative y)))
sign_bits x y hx hy =
    let (p, (q, r)) = conjuncts _ _ _ (all_pairs_sound _ x y signs hx hy) in
    (eq_bool_sound _ _ p, (eq_bool_sound _ _ q, eq_bool_sound _ _ r))
