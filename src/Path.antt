-- ===== src/Path.antt =====
-- Paths such as 0:/dir/file: fs/pparser.c. A path is the list of the bytes from its start to the
-- end of its object, and `none` a read behind that end. The parts are a list in place of the chain
-- of `struct path_part`; what the parser takes of the kernel heap for them, and which kzalloc it
-- depends on, is `allocate_path`.
pub mod Parts
pub mod Drive
pub mod Print
pub mod Memory
mod Tests
use kernel_nesemulator.Prelude.{
  ℕ, zero, suc, ◌+◌, Bool, true, false, ◌&&◌, ◌||◌, not, Option, none, some, List, [], ◌∷◌, leb,
  ltb, ◌==◌, if◌then◌else◌, length, get_or, drop, ℤ, pos, negsuc, neg,
}
use kernel_nesemulator.Heap.{Heap, malloc, free}
use kernel_nesemulator.String.{strlen, strnlen}
use kernel_nesemulator.String.Copy.{isdigit, tonumericdigit}
use kernel_nesemulator.MemoryFunctions.{memcmp}

abbrev pub max_path : ℕ
max_path = 108

abbrev pub ebadpath : ℕ
ebadpath = 4

pub record PathRoot : Type 0 where
  pub drive_no : ℤ
  pub parts : List (List ℕ)

abbrev pub is_zero : Option ℤ → Option Bool
is_zero none = none
is_zero (some (pos zero)) = some true
is_zero (some (pos (suc n))) = some false
is_zero (some (negsuc n)) = some false

-- Behind strnlen; the two tests on the left come first.
abbrev pub has_format : List ℕ → Option ℕ → Option Bool
has_format filename none = none
has_format filename (some len) =
    if leb 3 len && isdigit (get_or filename 0 0)
    then is_zero (memcmp (drop 1 filename) (0x3A ∷ 0x2F ∷ []) 2)
    else some false

unfoldable pub path_valid_format : List ℕ → Option Bool
unfolding strnlen isdigit memcmp
path_valid_format filename = has_format filename (strnlen filename max_path)

-- Behind the test of the format: the drive or -EBADPATH, and where the path goes on.
abbrev pub drive_of : List ℕ → Option Bool → Option (ℤ × List ℕ)
drive_of path none = none
drive_of path (some false) = some (neg ebadpath, path)
drive_of path (some true) = some (tonumericdigit (get_or path 0 0), drop 3 path)

unfoldable pub get_drive_by_path : List ℕ → Option (ℤ × List ℕ)
unfolding path_valid_format tonumericdigit
get_drive_by_path path = drive_of path (path_valid_format path)

abbrev pub in_part : ℕ → Option (List ℕ × List ℕ) → Option (List ℕ × List ℕ)
in_part c none = none
in_part c (some (part, rest)) = some (c ∷ part, rest)

-- The bytes of a part, without the terminator that kzalloc leaves behind them, and where the path
-- goes on.
unfoldable pub get_path_part : List ℕ → Option (List ℕ × List ℕ)
get_path_part [] = none
get_path_part (c ∷ path) =
    let rest = get_path_part path in
    if c == 0x2F then some ([], path) else if c == 0x00 then some ([], c ∷ path) else in_part c rest

abbrev pub link : List ℕ → Option (List (List ℕ)) → Option (List (List ℕ))
link part none = none
link part (some parts) = some (part ∷ parts)

-- An empty part is NULL and ends the loop.
abbrev pub link_part :
    Option (List ℕ × List ℕ) → (List ℕ → Option (List (List ℕ))) → Option (List (List ℕ))
link_part none next = none
link_part (some ([], rest)) next = some []
link_part (some (c ∷ part, rest)) next = link (c ∷ part) (next rest)

-- pathparser_parse_path_part until it returns NULL, for as many rounds as there is fuel.
unfoldable pub parse_parts : ℕ → List ℕ → Option (List (List ℕ))
unfolding get_path_part
parse_parts zero path = none
parse_parts (suc fuel) path = link_part (get_path_part path) (λ rest. parse_parts fuel rest)

-- What the root holds behind the `while`.
abbrev pub make_root : ℤ → Option (List (List ℕ)) → Option (Option PathRoot)
make_root drive none = none
make_root drive (some parts) = some (some (record { drive_no = drive; parts = parts }))

-- Behind pathparser_get_drive_by_path. Each part takes a byte at least.
abbrev pub parse_drive : Option (ℤ × List ℕ) → Option (Option PathRoot)
parse_drive none = none
parse_drive (some (negsuc error, path)) = some none
parse_drive (some (pos drive, path)) = make_root (pos drive) (parse_parts (length path + 1) path)

abbrev pub parse_checked : List ℕ → Option ℕ → Option (Option PathRoot)
parse_checked path none = none
parse_checked path (some len) =
    if ltb max_path len then some none else parse_drive (get_drive_by_path path)

-- `some none` is NULL.
unfoldable pub parse : List ℕ → Option (Option PathRoot)
unfolding strlen get_drive_by_path parse_parts
parse path = parse_checked path (strlen path)

-- pathparser_parse_path_part on the heap, for each part and for the empty one behind them, whose
-- buffer is freed again: `none` stands for a store through NULL.
unfoldable pub allocate_parts : List (List ℕ) → Heap → Option Heap
allocate_parts [] heap =
    let result_path_part = malloc heap max_path in free result_path_part.1 result_path_part.0
allocate_parts (path_part ∷ parts) heap =
    let result_path_part = malloc heap max_path in
    let part = malloc result_path_part.1 8 in
    let rest = allocate_parts parts part.1 in
    if (result_path_part.0 == 0) || (part.0 == 0) then none else rest

-- The root first. Without a drive nothing is allocated.
unfoldable pub allocate_path : Option PathRoot → Heap → Option Heap
unfolding allocate_parts
allocate_path none heap = some heap
allocate_path (some root) heap =
    let path_r = malloc heap 8 in
    let rest = allocate_parts root.parts path_r.1 in if path_r.0 == 0 then none else rest
