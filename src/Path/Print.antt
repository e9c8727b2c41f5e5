-- ===== src/Path/Print.antt =====
-- Paths as they are written, and the parser behind the writer.
use mathlib.Core.List.{append_assoc}
use kernel_nesemulator.Prelude.{
  ℕ, zero, suc, ◌+◌, ◌≤◌, ◌<◌, ◌≡◌, refl, ap, ◌∙◌, true, false, Option, some, List, [], ◌∷◌, ◌++◌,
  leb, ltb, ◌==◌, if◌then◌else◌, length, length-append, pos, arith, leb→le,
}
use kernel_nesemulator.String.{strlen, count}
use kernel_nesemulator.String.Compare.{strnlen-strlen, no_nul}
use kernel_nesemulator.String.Copy.{isdigit, tonumericdigit}
use kernel_nesemulator.Path.{
  max_path, has_format, path_valid_format, drive_of, get_drive_by_path, in_part, get_path_part,
  link, link_part, parse_parts, make_root, parse_drive, parse_checked, parse,
}
use kernel_nesemulator.Path.Parts.{is_part, are_parts, are_parts-cons}
use kernel_nesemulator.Path.Drive.{is_format, has_format-is_format}

-- The parts with slashes between them.
unfoldable pub joined : List (List ℕ) → List ℕ
joined [] = []
joined (part ∷ []) = part
joined (part ∷ next ∷ parts) = part ++ (0x2F ∷ joined (next ∷ parts))

-- The text of a path.
unfoldable pub print : ℕ → List (List ℕ) → List ℕ
unfolding joined
print drive parts = (48 + drive) ∷ 0x3A ∷ 0x2F ∷ joined parts

get_path_part-slash :
    (part rest : List ℕ)
    → is_part part ≡ true
    → get_path_part (part ++ (0x2F ∷ rest)) ≡ some (part, rest)
unfolding get_path_part is_part
get_path_part-slash [] rest h = refl
get_path_part-slash (c ∷ part) rest h =
    let slash : (c == 0x2F) ≡ false = ground arith in
    let end : (c == 0x00) ≡ false = ground arith in
    rw (slash, end) (ap (in_part c) (get_path_part-slash part rest (ground arith)))

get_path_part-end :
    (part junk : List ℕ)
    → is_part part ≡ true
    → get_path_part (part ++ (0x00 ∷ junk)) ≡ some (part, 0x00 ∷ junk)
unfolding get_path_part is_part
get_path_part-end [] junk h = refl
get_path_part-end (c ∷ part) junk h =
    let slash : (c == 0x2F) ≡ false = ground arith in
    let end : (c == 0x00) ≡ false = ground arith in
    rw (slash, end) (ap (in_part c) (get_path_part-end part junk (ground arith)))

parse_parts-end : (fuel : ℕ) (junk : List ℕ) → parse_parts (suc fuel) (0x00 ∷ junk) ≡ some []
unfolding parse_parts get_path_part
parse_parts-end fuel junk = refl

link_part-some :
    (part rest : List ℕ) (next : List ℕ → Option (List (List ℕ)))
    → leb 1 (length part) ≡ true
    → link_part (some (part, rest)) next ≡ link part (next rest)
link_part-some [] rest next h = absurd (ground arith)
link_part-some (c ∷ part) rest next h = refl

parse_parts-joined :
    (fuel : ℕ) (parts : List (List ℕ)) (junk : List ℕ)
    → are_parts parts ≡ true
    → length parts < fuel
    → parse_parts fuel (joined parts ++ (0x00 ∷ junk)) ≡ some parts
unfolding parse_parts are_parts joined
parse_parts-joined zero parts junk good enough = absurd (omega arith)
parse_parts-joined (suc fuel) [] junk good enough = parse_parts-end fuel junk
parse_parts-joined (suc zero) (part ∷ parts) junk good enough = absurd (omega arith)
parse_parts-joined (suc (suc fuel)) (part ∷ []) junk good enough =
    let next = λ (rest : List ℕ). parse_parts (suc fuel) rest in
    let some_bytes : leb 1 (length part) ≡ true = ground arith in
    ap (λ o. link_part o next) (get_path_part-end part junk (ground arith))
    ∙ (link_part-some part (0x00 ∷ junk) next some_bytes
        ∙ ap (link part) (parse_parts-end fuel junk))
parse_parts-joined (suc (suc fuel)) (part ∷ second ∷ parts) junk good enough =
    let next = λ (rest : List ℕ). parse_parts (suc fuel) rest in
    let later = joined (second ∷ parts) in
    let (clean, (some_bytes, tail)) = are_parts-cons part (second ∷ parts) good in
    ap (λ s. link_part (get_path_part s) next) (append_assoc part (0x2F ∷ later) (0x00 ∷ junk))
    ∙ (ap (λ o. link_part o next) (get_path_part-slash part (later ++ (0x00 ∷ junk)) clean)
        ∙ (link_part-some part (later ++ (0x00 ∷ junk)) next some_bytes
            ∙ ap (link part)
                (parse_parts-joined (suc fuel) (second ∷ parts) junk tail (omega arith))))

is_part-no_nul : (part : List ℕ) → is_part part ≡ true → no_nul part ≡ true
unfolding is_part no_nul
is_part-no_nul [] h = refl
is_part-no_nul (c ∷ part) h = ground (arith, is_part-no_nul part)

no_nul-append : (s t : List ℕ) → no_nul s ≡ true → no_nul t ≡ true → no_nul (s ++ t) ≡ true
unfolding no_nul
no_nul-append [] t hs ht = ht
no_nul-append (c ∷ s) t hs ht = ground (arith, no_nul-append s t)

no_nul-joined : (parts : List (List ℕ)) → are_parts parts ≡ true → no_nul (joined parts) ≡ true
unfolding joined no_nul
no_nul-joined [] good = refl
no_nul-joined (part ∷ []) good = is_part-no_nul part (are_parts-cons part [] good).0
no_nul-joined (part ∷ second ∷ parts) good =
    let (clean, (_, tail)) = are_parts-cons part (second ∷ parts) good in
    no_nul-append part (0x2F ∷ joined (second ∷ parts)) (is_part-no_nul part clean)
      (no_nul-joined (second ∷ parts) tail)

-- There are no more parts than bytes.
length-joined :
    (parts : List (List ℕ)) → are_parts parts ≡ true → length parts ≤ length (joined parts)
unfolding joined
length-joined [] good = omega arith
length-joined (part ∷ []) good = leb→le 1 (length part) (are_parts-cons part [] good).1.0
length-joined (part ∷ second ∷ parts) good =
    let (_, (some_bytes, tail)) = are_parts-cons part (second ∷ parts) good in
    omega (
      arith,
      leb→le 1 (length part) some_bytes,
      length-joined (second ∷ parts) tail,
      length-append part (0x2F ∷ joined (second ∷ parts)),
    )

strlen-text :
    (text junk : List ℕ) → no_nul text ≡ true → strlen (text ++ (0x00 ∷ junk)) ≡ some (length text)
unfolding strlen no_nul
strlen-text [] junk h = refl
strlen-text (c ∷ text) junk h =
    let within : (c == 0x00) ≡ false = ground arith in
    rw within (ap count (strlen-text text junk (ground arith)) ∙ ap some (omega arith))

print-format :
    (drive k : ℕ)
    → drive < 10
    → 3 ≤ k
    → is_format (48 + drive) 0x3A 0x2F (if leb max_path k then max_path else k) ≡ true
unfolding isdigit
print-format drive k small h = ground arith

digit_of : (drive : ℕ) → tonumericdigit (48 + drive) ≡ pos drive
unfolding tonumericdigit
digit_of drive =
    let digit : leb 48 (48 + drive) ≡ true = ground arith in rw digit (ap pos (omega arith))

print-drive :
    (drive : ℕ) (rest : List ℕ) (k : ℕ)
    → drive < 10
    → strlen ((48 + drive) ∷ 0x3A ∷ 0x2F ∷ rest) ≡ some k
    → 3 ≤ k
    → get_drive_by_path ((48 + drive) ∷ 0x3A ∷ 0x2F ∷ rest) ≡ some (pos drive, rest)
unfolding get_drive_by_path path_valid_format
print-drive drive rest k small e h =
    let path = (48 + drive) ∷ 0x3A ∷ 0x2F ∷ rest in
    let measured = strnlen-strlen path max_path k e in
    let read_len = if leb max_path k then max_path else k in
    let valid : is_format (48 + drive) 0x3A 0x2F read_len ≡ true = print-format drive k small h in
    ap (λ o. drive_of path (has_format path o)) measured
    ∙ (ap (drive_of path)
          (has_format-is_format (48 + drive) 0x3A 0x2F rest read_len ∙ ap some valid)
        ∙ ap (λ d. some (d, rest)) (digit_of drive))

print-no_nul :
    (drive : ℕ) (parts : List (List ℕ))
    → are_parts parts ≡ true
    → no_nul ((48 + drive) ∷ 0x3A ∷ 0x2F ∷ joined parts) ≡ true
unfolding no_nul
print-no_nul drive parts good = ground (arith, no_nul-joined parts good)

-- For a drive below 10 and parts that each are not empty, shorter than 108 bytes, and hold no slash
-- and no terminator, pathparser_parse of their path gives back the drive and the parts, if the path
-- is not longer than PEACHOS_MAX_PATH; whatever stands behind its terminator.
pub parse-print :
    (drive : ℕ) (parts : List (List ℕ)) (junk : List ℕ)
    → drive < 10
    → are_parts parts ≡ true
    → length (print drive parts) ≤ 108
    → parse (print drive parts ++ (0x00 ∷ junk))
      ≡ some (some (record { drive_no = pos drive; parts = parts }))
unfolding parse print
parse-print drive parts junk small good short =
    let rest = joined parts ++ (0x00 ∷ junk) in
    let text = (48 + drive) ∷ 0x3A ∷ 0x2F ∷ joined parts in
    let clean : no_nul text ≡ true = print-no_nul drive parts good in
    let measured = strlen-text text junk clean in
    let fits : ltb max_path (length text) ≡ false = ground arith in
    let enough : length parts < length rest + 1 =
      omega (arith, length-joined parts good, length-append (joined parts) (0x00 ∷ junk)) in
    ap (parse_checked (text ++ (0x00 ∷ junk))) measured
    ∙ rw fits (
        ap parse_drive (print-drive drive rest (length text) small measured (omega arith))
        ∙ ap (make_root (pos drive)) (parse_parts-joined (length rest + 1) parts junk good enough))
