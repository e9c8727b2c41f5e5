-- ===== src/Prelude/Lists.antt =====
-- Lists as C arrays: lengths and indices are native numbers.
use Prim.Native.Nat.{ℕ, zero, suc, ◌+◌, ◌<◌, min}
use mathlib.Core.Path.{◌≡◌, refl, ap, ◌∙◌}
use mathlib.Core.Logic.{◌≢◌}
use mathlib.Core.List.{List, [], ◌∷◌, ◌++◌}
use mathlib.Core.Option.{Option, none, some}
use native.Mathlib.Omega.{arith}

module _ {ℓ} {A : Type ℓ} where
  abbrev pub length : List A → ℕ
  length [] = 0
  length (x ∷ xs) = suc (length xs)

  abbrev pub get_elem? : List A → ℕ → Option A
  get_elem? [] i = none
  get_elem? (x ∷ xs) zero = some x
  get_elem? (x ∷ xs) (suc i) = get_elem? xs i

  abbrev pub get_or : List A → ℕ → A → A
  get_or [] i d = d
  get_or (x ∷ xs) zero d = x
  get_or (x ∷ xs) (suc i) d = get_or xs i d

  -- A write out of bounds changes nothing.
  abbrev pub set : List A → ℕ → A → List A
  set [] i v = []
  set (x ∷ xs) zero v = v ∷ xs
  set (x ∷ xs) (suc i) v = x ∷ set xs i v

  abbrev pub take : ℕ → List A → List A
  take zero xs = []
  take (suc n) [] = []
  take (suc n) (x ∷ xs) = x ∷ take n xs

  abbrev pub drop : ℕ → List A → List A
  drop zero xs = xs
  drop (suc n) [] = []
  drop (suc n) (x ∷ xs) = drop n xs

  abbrev pub replicate : ℕ → A → List A
  replicate zero a = []
  replicate (suc n) a = a ∷ replicate n a

module _ {ℓ} {A : Type ℓ} where
  pub length-append : (xs ys : List A) → length (xs ++ ys) ≡ length xs + length ys
  length-append [] ys = omega arith
  length-append (x ∷ xs) ys = omega (arith, length-append xs ys)

  pub length-set : (xs : List A) (i : ℕ) (v : A) → length (set xs i v) ≡ length xs
  length-set [] i v = refl
  length-set (x ∷ xs) zero v = refl
  length-set (x ∷ xs) (suc i) v = ap suc (length-set xs i v)

  pub length-replicate : (n : ℕ) (a : A) → length (replicate n a) ≡ n
  length-replicate zero a = refl
  length-replicate (suc n) a = ap suc (length-replicate n a)

  pub length-take : (n : ℕ) (xs : List A) → length (take n xs) ≡ min n (length xs)
  length-take zero xs = omega arith
  length-take (suc n) [] = omega arith
  length-take (suc n) (x ∷ xs) = omega (arith, length-take n xs)

  pub get_or-set_self :
      (xs : List A) (i : ℕ) (v d : A) → i < length xs → get_or (set xs i v) i d ≡ v
  get_or-set_self [] i v d h = absurd (omega arith)
  get_or-set_self (x ∷ xs) zero v d h = refl
  get_or-set_self (x ∷ xs) (suc i) v d h = get_or-set_self xs i v d (omega arith)

  pub get_or-set_ne :
      (xs : List A) (i j : ℕ) (v d : A) → i ≢ j → get_or (set xs i v) j d ≡ get_or xs j d
  get_or-set_ne [] i j v d h = refl
  get_or-set_ne (x ∷ xs) zero zero v d h = absurd (h refl)
  get_or-set_ne (x ∷ xs) zero (suc j) v d h = refl
  get_or-set_ne (x ∷ xs) (suc i) zero v d h = refl
  get_or-set_ne (x ∷ xs) (suc i) (suc j) v d h = get_or-set_ne xs i j v d (λ e. h (ap suc e))

  -- An array seen in two parts.
  pub get_or-append :
      (xs ys : List A) (i : ℕ) (d : A) → get_or (xs ++ ys) (length xs + i) d ≡ get_or ys i d
  get_or-append [] ys i d = ap (λ k. get_or ys k d) (omega arith)
  get_or-append (x ∷ xs) ys i d =
      let e : length (x ∷ xs) + i ≡ suc (length xs + i) = omega arith in
      ap (λ k. get_or (x ∷ xs ++ ys) k d) e ∙ get_or-append xs ys i d

  pub set-append :
      (xs ys : List A) (i : ℕ) (v : A) → set (xs ++ ys) (length xs + i) v ≡ xs ++ set ys i v
  set-append [] ys i v = ap (λ k. set ys k v) (omega arith)
  set-append (x ∷ xs) ys i v =
      let e : length (x ∷ xs) + i ≡ suc (length xs + i) = omega arith in
      ap (λ k. set (x ∷ xs ++ ys) k v) e ∙ ap (◌∷◌ x) (set-append xs ys i v)

  pub take-append-drop : (n : ℕ) (xs : List A) → take n xs ++ drop n xs ≡ xs
  take-append-drop zero xs = refl
  take-append-drop (suc n) [] = refl
  take-append-drop (suc n) (x ∷ xs) = ap (◌∷◌ x) (take-append-drop n xs)

-- The `n` values of `f` from index `i` on.
module _ {ℓ} {A : Type ℓ} where
  abbrev pub slice : (ℕ → A) → ℕ → ℕ → List A
  slice f i zero = []
  slice f i (suc n) = f i ∷ slice f (i + 1) n

  pub length-slice : (f : ℕ → A) (i n : ℕ) → length (slice f i n) ≡ n
  length-slice f i zero = refl
  length-slice f i (suc n) = ap suc (length-slice f (i + 1) n)

  pub slice-append : (f : ℕ → A) (i m n : ℕ) → slice f i (m + n) ≡ slice f i m ++ slice f (i + m) n
  slice-append f i zero n = λ j. slice f (i_zero i j) (zero_n n j)
    where
      i_zero : (i : ℕ) → i ≡ i + 0
      i_zero i = omega arith

      zero_n : (n : ℕ) → 0 + n ≡ n
      zero_n n = omega arith
  slice-append f i (suc m) n =
      let count : suc m + n ≡ suc (m + n) = omega arith in
      let start : (i + 1) + m ≡ i + suc m = omega arith in
      ap (slice f i) count
      ∙ ap (◌∷◌ (f i))
          (slice-append f (i + 1) m n ∙ ap (λ k. slice f (i + 1) m ++ slice f k n) start)

  pub slice_ext :
      (f g : ℕ → A) (i j n : ℕ)
      → ((k : ℕ) → k < n → f (i + k) ≡ g (j + k))
      → slice f i n ≡ slice g j n
  slice_ext f g i j zero h = refl
  slice_ext f g i j (suc n) h =
      let first : f i ≡ g j = ap f (omega arith) ∙ (h 0 (omega arith) ∙ ap g (omega arith)) in
      let later : (k : ℕ) → k < n → f (i + 1 + k) ≡ g (j + 1 + k) =
        λ k lt. ap f (omega arith) ∙ (h (k + 1) (omega arith) ∙ ap g (omega arith)) in
      λ t. first t ∷ slice_ext f g (i + 1) (j + 1) n later t

  pub get_or-slice : (f : ℕ → A) (i n k : ℕ) (d : A) → k < n → get_or (slice f i n) k d ≡ f (i + k)
  get_or-slice f i zero k d h = absurd (omega arith)
  get_or-slice f i (suc n) zero d h = ap f (omega arith)
  get_or-slice f i (suc n) (suc k) d h =
      get_or-slice f (i + 1) n k d (omega arith) ∙ ap f (omega arith)
