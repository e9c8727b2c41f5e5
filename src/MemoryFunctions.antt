-- ===== src/MemoryFunctions.antt =====
-- memset, memcmp and memcpy: memory/memory.c. A pointer is the list of the bytes from there to the
-- end of its object, and `none` an access behind that end. The two objects of a call are different
-- ones.
mod Tests
use kernel_nesemulator.Prelude.{
  ℕ, zero, suc, ◌+◌, ◌%◌, ◌≤◌, ◌<◌, ◌≡◌, ◌≢◌, ◌↔◌, refl, ap, Bool, true, false, Option, none, some,
  List, [], ◌∷◌, ◌++◌, ltb, ◌!=◌, if◌then◌else◌, length, take, drop, replicate, u8, ℤ, pos, negsuc,
  arith, Bool-cases, inl, inr,
}

abbrev pub put : ℕ → Option (List ℕ) → Option (List ℕ)
put c none = none
put c (some rest) = some (c ∷ rest)

unfoldable pub memset : List ℕ → ℕ → ℕ → Option (List ℕ)
memset ptr c zero = some ptr
memset [] c (suc size) = none
memset (x ∷ ptr) c (suc size) = put (u8 c) (memset ptr c size)

-- `<` on `char`, which has a sign.
abbrev pub char_lt : ℕ → ℕ → Bool
char_lt a b = ltb ((a + 128) % 256) ((b + 128) % 256)

-- `count` is not negative.
unfoldable pub memcmp : List ℕ → List ℕ → ℕ → Option ℤ
memcmp s1 s2 zero = some (pos 0)
memcmp (a ∷ s1) (b ∷ s2) (suc count) =
    let rest = memcmp s1 s2 count in
    if a != b then some (if char_lt a b then negsuc 0 else pos 1) else rest
memcmp _ _ (suc count) = none

-- `len` is not negative.
unfoldable pub memcpy : List ℕ → List ℕ → ℕ → Option (List ℕ)
memcpy dest src zero = some dest
memcpy (x ∷ dest) (c ∷ src) (suc len) = put c (memcpy dest src len)
memcpy _ _ (suc len) = none

-- Within the object, memset sets the first bytes and leaves the others.
pub memset-replicate :
    (ptr : List ℕ) (c size : ℕ)
    → size ≤ length ptr
    → memset ptr c size ≡ some (replicate size (u8 c) ++ drop size ptr)
unfolding memset
memset-replicate ptr c zero h = refl
memset-replicate [] c (suc size) h = absurd (omega arith)
memset-replicate (x ∷ ptr) c (suc size) h =
    ap (put (u8 c)) (memset-replicate ptr c size (omega arith))

-- Within both objects, memcpy makes the first bytes of the destination those of the source, and
-- leaves the others.
pub memcpy-take :
    (dest src : List ℕ) (len : ℕ)
    → len ≤ length dest
    → len ≤ length src
    → memcpy dest src len ≡ some (take len src ++ drop len dest)
unfolding memcpy
memcpy-take dest src zero h1 h2 = refl
memcpy-take [] src (suc len) h1 h2 = absurd (omega arith)
memcpy-take (x ∷ dest) [] (suc len) h1 h2 = absurd (omega arith)
memcpy-take (x ∷ dest) (c ∷ src) (suc len) h1 h2 =
    ap (put c) (memcpy-take dest src len (omega arith) (omega arith))

memcmp-same :
    (s1 s2 : List ℕ) (count : ℕ)
    → count ≤ length s1
    → count ≤ length s2
    → take count s1 ≡ take count s2
    → memcmp s1 s2 count ≡ some (pos 0)
unfolding memcmp
memcmp-same s1 s2 zero h1 h2 e = refl
memcmp-same [] s2 (suc count) h1 h2 e = absurd (omega arith)
memcmp-same (a ∷ s1) [] (suc count) h1 h2 e = absurd (omega arith)
memcmp-same (a ∷ s1) (b ∷ s2) (suc count) h1 h2 e = ground (arith, memcmp-same s1 s2 count)

memcmp-zero :
    (s1 s2 : List ℕ) (count : ℕ) → memcmp s1 s2 count ≡ some (pos 0) → take count s1 ≡ take count s2
unfolding memcmp
memcmp-zero s1 s2 zero e = refl
memcmp-zero [] s2 (suc count) e = cc
memcmp-zero (a ∷ s1) [] (suc count) e = cc
memcmp-zero (a ∷ s1) (b ∷ s2) (suc count) e = ground (arith, memcmp-zero s1 s2 count)

-- Within both objects, memcmp gives 0 exactly if the first bytes are the same.
pub memcmp-take :
    (s1 s2 : List ℕ) (count : ℕ)
    → count ≤ length s1
    → count ≤ length s2
    → (memcmp s1 s2 count ≡ some (pos 0)) ↔ (take count s1 ≡ take count s2)
memcmp-take s1 s2 count h1 h2 = (memcmp-zero s1 s2 count, memcmp-same s1 s2 count h1 h2)
