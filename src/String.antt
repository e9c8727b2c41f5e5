-- ===== src/String.antt =====
-- C strings: the reading functions of string/string.c. A `const char*` is the list of the bytes
-- from there to the end of the object; a read behind that end is `none`.
pub mod Compare
pub mod Copy
mod Tests
use kernel_nesemulator.Prelude.{
  ℕ, zero, suc, ◌+◌, ◌-◌, Bool, true, false, ◌&&◌, Option, none, some, List, [], ◌∷◌, leb, ◌==◌,
  ◌!=◌, if◌then◌else◌, u8, ℤ, pos, neg,
}

-- `i++` of a loop whose rest gives a count.
abbrev pub count : Option ℕ → Option ℕ
count none = none
count (some i) = some (i + 1)

unfoldable pub strlen : List ℕ → Option ℕ
strlen [] = none
strlen (c ∷ s) = let rest = strlen s in if c == 0 then some 0 else count rest

-- `max` is not negative.
unfoldable pub strnlen : List ℕ → ℕ → Option ℕ
strnlen s zero = some 0
strnlen [] (suc max) = none
strnlen (c ∷ s) (suc max) = let rest = strnlen s max in if c == 0 then some 0 else count rest

-- A byte of 128 or more is a negative `char`, which is no letter.
unfoldable pub tolower : ℕ → ℕ
tolower s1 = if leb 65 s1 && leb s1 90 then s1 + 32 else s1

-- `u1 - u2` over `int`
abbrev pub difference : ℕ → ℕ → ℤ
difference u1 u2 = if leb u2 u1 then pos (u1 - u2) else neg (u2 - u1)

unfoldable pub strncmp : List ℕ → List ℕ → ℕ → Option ℤ
strncmp str1 str2 zero = some (pos 0)
strncmp (u1 ∷ str1) (u2 ∷ str2) (suc n) =
    let rest = strncmp str1 str2 n in
    if u1 != u2 then some (difference u1 u2) else if u1 == 0 then some (pos 0) else rest
strncmp _ _ (suc n) = none

unfoldable pub istrncmp : List ℕ → List ℕ → ℕ → Option ℤ
unfolding tolower
istrncmp s1 s2 zero = some (pos 0)
istrncmp (u1 ∷ s1) (u2 ∷ s2) (suc n) =
    let rest = istrncmp s1 s2 n in
    if (u1 != u2) && (tolower u1 != tolower u2)
    then some (difference u1 u2)
    else if u1 == 0
    then some (pos 0)
    else rest
istrncmp _ _ (suc n) = none
