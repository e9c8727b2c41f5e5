-- ===== src/String/Compare.antt =====
-- The string functions against the text in front of the terminator.
use kernel_nesemulator.Prelude.{
  ℕ, zero, suc, ◌≡◌, ◌≢◌, ◌↔◌, refl, Bool, true, ◌&&◌, some, List, [], ◌∷◌, ◌++◌, leb, ◌!=◌,
  if◌then◌else◌, take, pos, arith, Option-cases, inl, inr,
}
use kernel_nesemulator.String.{strlen, strnlen, tolower, difference, strncmp, istrncmp}

-- strnlen of a string that strlen measures is the smaller one of its length and the limit.
pub strnlen-strlen :
    (s : List ℕ) (max k : ℕ)
    → strlen s ≡ some k
    → strnlen s max ≡ some (if leb max k then max else k)
unfolding strlen strnlen
strnlen-strlen s zero k h = ground arith
strnlen-strlen [] (suc max) k h = cc
strnlen-strlen (c ∷ s) (suc max) k h = elim (Option-cases (strlen s)) [
  | inl endless ↦ ground (arith, endless)
  | inr (j, found) ↦ ground (arith, found, strnlen-strlen s max j found)
]

-- No byte is the terminator.
unfoldable pub no_nul : List ℕ → Bool
no_nul [] = true
no_nul (c ∷ t) = (c != 0) && no_nul t

difference-zero : (u v : ℕ) → u ≢ v → difference u v ≢ pos 0
difference-zero u v h e = ground arith

strncmp-same :
    (n : ℕ) (t1 t2 r1 r2 : List ℕ)
    → no_nul t1 ≡ true
    → no_nul t2 ≡ true
    → take n t1 ≡ take n t2
    → strncmp (t1 ++ (0 ∷ r1)) (t2 ++ (0 ∷ r2)) n ≡ some (pos 0)
unfolding strncmp no_nul
strncmp-same zero t1 t2 r1 r2 h1 h2 e = refl
strncmp-same (suc n) [] [] r1 r2 h1 h2 e = refl
strncmp-same (suc n) [] (c ∷ t2) r1 r2 h1 h2 e = cc
strncmp-same (suc n) (c ∷ t1) [] r1 r2 h1 h2 e = cc
strncmp-same (suc n) (c ∷ t1) (d ∷ t2) r1 r2 h1 h2 e = ground (arith, strncmp-same n t1 t2 r1 r2)

strncmp-zero :
    (n : ℕ) (t1 t2 r1 r2 : List ℕ)
    → no_nul t1 ≡ true
    → no_nul t2 ≡ true
    → strncmp (t1 ++ (0 ∷ r1)) (t2 ++ (0 ∷ r2)) n ≡ some (pos 0)
    → take n t1 ≡ take n t2
unfolding strncmp no_nul
strncmp-zero zero t1 t2 r1 r2 h1 h2 e = refl
strncmp-zero (suc n) [] [] r1 r2 h1 h2 e = refl
strncmp-zero (suc n) [] (c ∷ t2) r1 r2 h1 h2 e = absurd (ground (arith, difference-zero 0 c))
strncmp-zero (suc n) (c ∷ t1) [] r1 r2 h1 h2 e = absurd (ground (arith, difference-zero c 0))
strncmp-zero (suc n) (c ∷ t1) (d ∷ t2) r1 r2 h1 h2 e =
    ground (arith, strncmp-zero n t1 t2 r1 r2, difference-zero c d)

-- On two terminated strings, strncmp gives 0 exactly if the texts in front of the terminators agree
-- in their first n bytes.
pub strncmp-take :
    (n : ℕ) (t1 t2 r1 r2 : List ℕ)
    → no_nul t1 ≡ true
    → no_nul t2 ≡ true
    → (strncmp (t1 ++ (0 ∷ r1)) (t2 ++ (0 ∷ r2)) n ≡ some (pos 0)) ↔ (take n t1 ≡ take n t2)
strncmp-take n t1 t2 r1 r2 h1 h2 =
    (strncmp-zero n t1 t2 r1 r2 h1 h2, strncmp-same n t1 t2 r1 r2 h1 h2)

-- The text in lower case.
unfoldable pub lower : List ℕ → List ℕ
lower [] = []
lower (c ∷ t) = tolower c ∷ lower t

pub tolower-zero : (c : ℕ) → c ≢ 0 → tolower c ≢ tolower 0
unfolding tolower
tolower-zero c h e = ground arith

istrncmp-same :
    (n : ℕ) (t1 t2 r1 r2 : List ℕ)
    → no_nul t1 ≡ true
    → no_nul t2 ≡ true
    → take n (lower t1) ≡ take n (lower t2)
    → istrncmp (t1 ++ (0 ∷ r1)) (t2 ++ (0 ∷ r2)) n ≡ some (pos 0)
unfolding istrncmp no_nul lower
istrncmp-same zero t1 t2 r1 r2 h1 h2 e = refl
istrncmp-same (suc n) [] [] r1 r2 h1 h2 e = refl
istrncmp-same (suc n) [] (c ∷ t2) r1 r2 h1 h2 e = cc
istrncmp-same (suc n) (c ∷ t1) [] r1 r2 h1 h2 e = cc
istrncmp-same (suc n) (c ∷ t1) (d ∷ t2) r1 r2 h1 h2 e = ground (arith, istrncmp-same n t1 t2 r1 r2)

istrncmp-zero :
    (n : ℕ) (t1 t2 r1 r2 : List ℕ)
    → no_nul t1 ≡ true
    → no_nul t2 ≡ true
    → istrncmp (t1 ++ (0 ∷ r1)) (t2 ++ (0 ∷ r2)) n ≡ some (pos 0)
    → take n (lower t1) ≡ take n (lower t2)
unfolding istrncmp no_nul lower
istrncmp-zero zero t1 t2 r1 r2 h1 h2 e = refl
istrncmp-zero (suc n) [] [] r1 r2 h1 h2 e = refl
istrncmp-zero (suc n) [] (c ∷ t2) r1 r2 h1 h2 e =
    absurd (ground (arith, difference-zero 0 c, tolower-zero c))
istrncmp-zero (suc n) (c ∷ t1) [] r1 r2 h1 h2 e =
    absurd (ground (arith, difference-zero c 0, tolower-zero c))
istrncmp-zero (suc n) (c ∷ t1) (d ∷ t2) r1 r2 h1 h2 e =
    ground (arith, istrncmp-zero n t1 t2 r1 r2, difference-zero c d)

pub istrncmp-lower :
    (n : ℕ) (t1 t2 r1 r2 : List ℕ)
    → no_nul t1 ≡ true
    → no_nul t2 ≡ true
    → (istrncmp (t1 ++ (0 ∷ r1)) (t2 ++ (0 ∷ r2)) n ≡ some (pos 0))
      ↔ (take n (lower t1) ≡ take n (lower t2))
istrncmp-lower n t1 t2 r1 r2 h1 h2 =
    (istrncmp-zero n t1 t2 r1 r2 h1 h2, istrncmp-same n t1 t2 r1 r2 h1 h2)
