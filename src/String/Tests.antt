-- ===== src/String/Tests.antt =====
-- "Ab" and "aB", each in front of bytes that are not part of it.
use kernel_nesemulator.Prelude.{ℕ, ◌≡◌, refl, some, List, [], ◌∷◌, ◌++◌}
use kernel_nesemulator.String.{strlen}

abbrev upper_first : List ℕ
upper_first = 0x41 ∷ 0x62 ∷ []

abbrev upper_last : List ℕ
upper_last = 0x61 ∷ 0x42 ∷ []

upper_first-strlen : strlen (upper_first ++ (0 ∷ 7 ∷ [])) ≡ some 2
unfolding strlen
upper_first-strlen = refl
