-- ===== src/Fat16/Name.antt =====
-- Names of directory items: fat16_to_proper_string and fat16_get_full_relative_filename.
use kernel_nesemulator.Prelude.{
  ℕ, zero, suc, ◌+◌, ◌-◌, ◌≤◌, ◌<◌, ◌≡◌, ◌∙◌, refl, ap, Bool, true, false, ◌&&◌, List, [], ◌∷◌,
  ◌++◌, leb, ◌!=◌, if◌then◌else◌, length, replicate, get_or, arith,
}
use mathlib.Core.List.{append_assoc}
use kernel_nesemulator.Fat16.{DirectoryItem}

-- The `while` with `i` bytes copied. The bytes at `in` go on behind the field.
unfoldable pub to_proper_string : List ℕ → ℕ → ℕ → List ℕ
to_proper_string [] i size = []
to_proper_string (c ∷ rest) i size =
    let later = to_proper_string rest (i + 1) size in
    if (c != 0x00) && (c != 0x20) then c ∷ (if leb (size - 1) i then [] else later) else []

-- The bytes of an item in memory, from its name on and from its extension on, up to the attribute;
-- neither field is read beyond that.
abbrev pub from_filename : DirectoryItem → List ℕ
from_filename item = item.filename ++ (item.ext ++ (item.attribute ∷ []))

abbrev pub from_ext : DirectoryItem → List ℕ
from_ext item = item.ext ++ (item.attribute ∷ [])

-- The text that `out` begins with, behind memset; the terminators that fat16_to_proper_string
-- writes are overwritten by the dot or remain as the end.
unfoldable pub relative_filename : DirectoryItem → List ℕ
unfolding to_proper_string
relative_filename item =
    let name = to_proper_string (from_filename item) 0 8 in
    let first = get_or item.ext 0 0 in
    if (first != 0x00) && (first != 0x20)
    then name ++ (0x2E ∷ to_proper_string (from_ext item) 0 3)
    else name

-- `out` as a whole.
unfoldable pub get_full_relative_filename : DirectoryItem → ℕ → List ℕ
unfolding relative_filename
get_full_relative_filename item max_len =
    relative_filename item ++ replicate (max_len - length (relative_filename item)) 0

-- Bytes that a short name consists of.
unfoldable pub is_name : List ℕ → Bool
is_name [] = true
is_name (c ∷ s) = ((c != 0x00) && (c != 0x20)) && is_name s

-- A name as it stands in a directory item: filled up with spaces.
abbrev pub padded : ℕ → List ℕ → List ℕ
padded size s = s ++ replicate (size - length s) 0x20

-- Name and extension as they are written for a reader.
unfoldable pub dotted : List ℕ → List ℕ → List ℕ
dotted name [] = name
dotted name (c ∷ ext) = name ++ (0x2E ∷ (c ∷ ext))

-- Whatever stands behind the field is not copied.
to_proper_string-padding :
    (s : List ℕ) (n i size : ℕ) (rest : List ℕ)
    → is_name s ≡ true
    → i < size
    → i + (length s + n) ≡ size
    → to_proper_string (s ++ (replicate n 0x20 ++ rest)) i size ≡ s
unfolding is_name to_proper_string
to_proper_string-padding [] zero i size rest name inside fits = absurd (omega arith)
to_proper_string-padding [] (suc n) i size rest name inside fits = refl
to_proper_string-padding (c ∷ []) zero i size rest name inside fits =
    let last : leb (size - 1) i ≡ true = ground arith in ground (arith, last)
to_proper_string-padding (c ∷ []) (suc n) i size rest name inside fits =
    let inner : leb (size - 1) i ≡ false = ground arith in ground (arith, inner)
to_proper_string-padding (c ∷ d ∷ s) n i size rest name inside fits =
    ground (arith, to_proper_string-padding (d ∷ s) n (i + 1) size rest)

-- A padded field, with the bytes behind it.
to_proper_string-field :
    (s rest : List ℕ) (size : ℕ)
    → is_name s ≡ true
    → 0 < size
    → length s ≤ size
    → to_proper_string (padded size s ++ rest) 0 size ≡ s
to_proper_string-field s rest size name nonzero fits =
    ap (λ bytes. to_proper_string bytes 0 size)
      (append_assoc s (replicate (size - length s) 0x20) rest)
    ∙ to_proper_string-padding s (size - length s) 0 size rest name nonzero (omega arith)

relative_filename-dotted :
    (item : DirectoryItem) (name ext : List ℕ)
    → item.filename ≡ padded 8 name
    → item.ext ≡ padded 3 ext
    → is_name name ≡ true
    → is_name ext ≡ true
    → length name ≤ 8
    → length ext ≤ 3
    → relative_filename item ≡ dotted name ext
unfolding relative_filename dotted is_name
relative_filename-dotted item name [] e_name e_ext h_name h_ext short_name short_ext =
    rw (e_name, e_ext)
      (to_proper_string-field name (padded 3 [] ++ (item.attribute ∷ [])) 8 h_name (omega arith)
        short_name)
relative_filename-dotted item name (c ∷ ext) e_name e_ext h_name h_ext short_name short_ext =
    let first : ((c != 0x00) && (c != 0x20)) ≡ true = ground arith in
    let stem =
      to_proper_string-field name (padded 3 (c ∷ ext) ++ (item.attribute ∷ [])) 8 h_name
        (omega arith) short_name in
    let tail =
      to_proper_string-field (c ∷ ext) (item.attribute ∷ []) 3 h_ext (omega arith) short_ext in
    rw (e_name, e_ext, first, stem) (ap (λ s. name ++ (0x2E ∷ s)) (rw first at tail))

-- On an item that holds a name of at most 8 bytes and an extension of at most 3, filled up with
-- spaces and without a space or zero byte of their own, fat16_get_full_relative_filename writes the
-- name, a dot and the extension, or the name alone if there is no extension, and zeros up to the
-- buffer's length.
pub get_full_relative_filename-dotted :
    (item : DirectoryItem) (name ext : List ℕ) (max_len : ℕ)
    → item.filename ≡ padded 8 name
    → item.ext ≡ padded 3 ext
    → is_name name ≡ true
    → is_name ext ≡ true
    → length name ≤ 8
    → length ext ≤ 3
    → get_full_relative_filename item max_len
      ≡ dotted name ext ++ replicate (max_len - length (dotted name ext)) 0
unfolding get_full_relative_filename
get_full_relative_filename-dotted item name ext max_len e_name e_ext h_name h_ext short_name
      short_ext =
    ap (λ s. s ++ replicate (max_len - length s) 0)
      (relative_filename-dotted item name ext e_name e_ext h_name h_ext short_name short_ext)
