-- ===== src/MemoryFunctions/Tests.antt =====
-- Memory functions on short objects.
use kernel_nesemulator.Prelude.{ℕ, List, [], ◌∷◌}

abbrev five : List ℕ
five = 1 ∷ 2 ∷ 3 ∷ 4 ∷ 5 ∷ []

abbrev three : List ℕ
three = 1 ∷ 2 ∷ 200 ∷ []
