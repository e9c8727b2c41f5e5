-- ===== src/String/Copy.antt =====
-- The writing functions and the digits of string/string.c. `dest` is the list of the bytes to the
-- end of its object, which is another one than `src`.
use kernel_nesemulator.Prelude.{
  ℕ, zero, suc, ◌-◌, ◌<◌, ◌≡◌, Bool, ◌&&◌, Option, none, some, List, [], ◌∷◌, ◌++◌, leb, ◌==◌,
  if◌then◌else◌, length, take, drop, ℤ, arith, Option-cases, inl, inr,
}
use kernel_nesemulator.String.{strlen, count, difference}

abbrev pub put : ℕ → Option (List ℕ) → Option (List ℕ)
put c none = none
put c (some rest) = some (c ∷ rest)

unfoldable pub strcpy : List ℕ → List ℕ → Option (List ℕ)
strcpy (x ∷ dest) (c ∷ src) =
    let rest = strcpy dest src in if c == 0 then some (0x00 ∷ dest) else put c rest
strcpy _ _ = none

-- The `for` with `left` rounds left, and the terminator.
unfoldable pub strncpy_loop : ℕ → List ℕ → List ℕ → Option (List ℕ)
strncpy_loop zero (x ∷ dest) src = some (0x00 ∷ dest)
strncpy_loop (suc left) (x ∷ dest) (c ∷ src) =
    let rest = strncpy_loop left dest src in if c == 0x00 then some (0x00 ∷ dest) else put c rest
strncpy_loop _ _ _ = none

-- `count` is not negative.
unfoldable pub strncpy : List ℕ → List ℕ → ℕ → Option (List ℕ)
unfolding strncpy_loop
strncpy dest src count = strncpy_loop (count - 1) dest src

unfoldable pub isdigit : ℕ → Bool
isdigit c = leb 48 c && leb c 57

-- For a byte below 128, which is a `char` without sign.
unfoldable pub tonumericdigit : ℕ → ℤ
tonumericdigit c = difference c 48

-- If the text of `src` with its terminator fits into `dest`, strcpy copies just these bytes.
pub strcpy-take :
    (dest src : List ℕ) (k : ℕ)
    → strlen src ≡ some k
    → k < length dest
    → strcpy dest src ≡ some (take (suc k) src ++ drop (suc k) dest)
unfolding strlen strcpy
strcpy-take [] src k e h = absurd (omega arith)
strcpy-take (x ∷ dest) [] k e h = cc
strcpy-take (x ∷ dest) (c ∷ src) zero e h = elim (Option-cases (strlen src)) [
  | inl endless ↦ ground (arith, endless)
  | inr (j, found) ↦ ground (arith, found)
]
strcpy-take (x ∷ dest) (c ∷ src) (suc k) e h = elim (Option-cases (strlen src)) [
  | inl endless ↦ ground (arith, endless)
  | inr (j, found) ↦ ground (arith, found, strcpy-take dest src k)
]

strncpy_loop-take :
    (left : ℕ) (dest src : List ℕ) (k : ℕ)
    → strlen src ≡ some k
    → (if leb left k then left else k) < length dest
    → strncpy_loop left dest src
      ≡ some (
          take (if leb left k then left else k) src
          ++ (0 ∷ drop (suc (if leb left k then left else k)) dest))
unfolding strlen strncpy_loop
strncpy_loop-take left [] src k e h = absurd (omega arith)
strncpy_loop-take zero (x ∷ dest) src k e h = ground arith
strncpy_loop-take (suc left) (x ∷ dest) [] k e h = cc
strncpy_loop-take (suc left) (x ∷ dest) (c ∷ src) zero e h = elim (Option-cases (strlen src)) [
  | inl endless ↦ ground (arith, endless)
  | inr (j, found) ↦ ground (arith, found)
]
strncpy_loop-take (suc left) (x ∷ dest) (c ∷ src) (suc k) e h = elim (Option-cases (strlen src)) [
  | inl endless ↦ ground (arith, endless)
  | inr (j, found) ↦ ground (arith, found, strncpy_loop-take left dest src k)
]

-- The smaller one of the text's length and `count - 1`.
abbrev pub copied : ℕ → ℕ → ℕ
copied count k = if leb (count - 1) k then count - 1 else k

-- If so many bytes and one more fit into `dest`, strncpy copies the first `count - 1` bytes of the
-- text, or all if there are fewer, writes a terminator behind them and leaves the rest of `dest`.
pub strncpy-take :
    (dest src : List ℕ) (count k : ℕ)
    → strlen src ≡ some k
    → copied count k < length dest
    → strncpy dest src count
      ≡ some (take (copied count k) src ++ (0 ∷ drop (suc (copied count k)) dest))
unfolding strncpy
strncpy-take dest src count k e h = strncpy_loop-take (count - 1) dest src k e h
