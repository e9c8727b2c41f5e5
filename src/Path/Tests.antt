-- ===== src/Path/Tests.antt =====
-- The path 0:/a/bc.
use kernel_nesemulator.Prelude.{
  ℕ, ◌≤◌, ◌≡◌, refl, true, Option, some, List, [], ◌∷◌, ◌++◌, length, pos, arith,
}
use kernel_nesemulator.String.{strlen}
use kernel_nesemulator.Path.{PathRoot, parse, parse_parts, get_path_part}
use kernel_nesemulator.Path.Parts.{is_part, are_parts}
use kernel_nesemulator.Path.Drive.{IsRoot, parse-IsRoot}
use kernel_nesemulator.Path.Print.{print, joined, parse-print}

abbrev two_parts : List (List ℕ)
two_parts = (0x61 ∷ []) ∷ (0x62 ∷ 0x63 ∷ []) ∷ []

two_parts-good : are_parts two_parts ≡ true
unfolding are_parts is_part
two_parts-good = refl

two_parts-short : length (print 0 two_parts) ≤ 108
unfolding print joined
two_parts-short = omega arith

parse-print_example :
    parse (print 0 two_parts ++ (0x00 ∷ 0x2F ∷ []))
    ≡ some (some (record { drive_no = pos 0; parts = two_parts }))
parse-print_example =
    parse-print 0 two_parts (0x2F ∷ []) (omega arith) two_parts-good two_parts-short

-- 0:/a//b
abbrev doubled : List ℕ
doubled = 0x30 ∷ 0x3A ∷ 0x2F ∷ 0x61 ∷ 0x2F ∷ 0x2F ∷ 0x62 ∷ 0x00 ∷ []

-- What stands behind the empty part is left out.
doubled-parts : parse_parts 6 (0x61 ∷ 0x2F ∷ 0x2F ∷ 0x62 ∷ 0x00 ∷ []) ≡ some ((0x61 ∷ []) ∷ [])
unfolding parse_parts get_path_part
doubled-parts = refl

doubled-length : strlen doubled ≡ some 7
unfolding strlen
doubled-length = refl

parse-IsRoot_example : (result : Option PathRoot) × ((parse doubled ≡ some result) × IsRoot result)
parse-IsRoot_example = parse-IsRoot doubled 7 doubled-length
