-- ===== src/Path/Drive.antt =====
-- The drive of any path, and the parser's result as a whole.
use kernel_nesemulator.Prelude.{
  ℕ, zero, suc, ◌+◌, ◌-◌, ◌≤◌, ◌<◌, ◌≡◌, ◌⊎◌, refl, ap, ap₂, ◌∙◌, Bool, true, false, ◌&&◌, Option,
  none, some, List, [], ◌∷◌, leb, ltb, ◌==◌, if◌then◌else◌, length, drop, get_or, arith, pos, neg,
  Bool-cases, leb→le, ltb-false→le, leb-false→lt, Option-cases, inl, inr,
}
use kernel_nesemulator.String.{strlen, strnlen}
use kernel_nesemulator.String.Compare.{strnlen-strlen}
use kernel_nesemulator.String.Copy.{isdigit, tonumericdigit}
use kernel_nesemulator.MemoryFunctions.{memcmp}
use kernel_nesemulator.Path.{
  PathRoot, ebadpath, drive_of, is_zero, max_path, has_format, path_valid_format, get_drive_by_path,
  parse, parse_checked, parse_drive, make_root,
}
use kernel_nesemulator.Path.Parts.{are_parts, parse_parts-Splits}

pub strlen-length : (path : List ℕ) (k : ℕ) → strlen path ≡ some k → k < length path
unfolding strlen
strlen-length [] k e = cc
strlen-length (c ∷ path) k e = elim (Option-cases (strlen path)) [
  | inl endless ↦ ground (arith, endless)
  | inr (j, found) ↦ ground (arith, found, strlen-length path j found)
]

strlen-tail :
    (c : ℕ) (path : List ℕ) (k : ℕ) → strlen (c ∷ path) ≡ some (suc k) → strlen path ≡ some k
unfolding strlen
strlen-tail c path k e = elim (Option-cases (strlen path)) [
  | inl endless ↦ ground (arith, endless)
  | inr (j, found) ↦ ground (arith, found)
]

-- What the drive's part of a terminated path is like.
abbrev pub Drive : List ℕ → ℕ → Type 0
Drive path k =
    (get_drive_by_path path ≡ some (neg ebadpath, path))
    ⊎ ((d : ℕ) × ((rest : List ℕ) × ((left : ℕ) × ((get_drive_by_path path ≡ some (pos d, rest))
              × ((strlen rest ≡ some left) × (left < k))))))

refused_drive :
    (path : List ℕ)
    → path_valid_format path ≡ some false
    → get_drive_by_path path ≡ some (neg ebadpath, path)
unfolding get_drive_by_path
refused_drive path e = ap (drive_of path) e

drive_by_format :
    (path rest : List ℕ) (k left d : ℕ)
    → path_valid_format path ≡ some true
    → tonumericdigit (get_or path 0 0) ≡ pos d
    → drop 3 path ≡ rest
    → strlen rest ≡ some left
    → left < k
    → Drive path k
unfolding get_drive_by_path
drive_by_format path rest k left d e digit cut later shorter = inr (
  d,
  (rest, (left, (ap (drive_of path) e ∙ ap₂ (λ z r. some (z, r)) digit cut, (later, shorter)))),
)

-- The format test on its first three bytes.
abbrev pub is_format : ℕ → ℕ → ℕ → ℕ → Bool
is_format a b c len = (leb 3 len && isdigit a) && ((b == 0x3A) && (c == 0x2F))

memcmp-separator :
    (b c : ℕ) (rest : List ℕ)
    → is_zero (memcmp (b ∷ c ∷ rest) (0x3A ∷ 0x2F ∷ []) 2) ≡ some ((b == 0x3A) && (c == 0x2F))
unfolding memcmp
memcmp-separator b c rest = elim (Bool-cases (b == 0x3A)) [
  | inl colon ↦ elim (Bool-cases (c == 0x2F)) [
    | inl slash ↦ ground arith
    | inr other ↦ ground arith
  ]
  | inr other ↦ ground arith
]

pub has_format-is_format :
    (a b c : ℕ) (rest : List ℕ) (len : ℕ)
    → has_format (a ∷ b ∷ c ∷ rest) (some len) ≡ some (is_format a b c len)
has_format-is_format a b c rest len = elim (Bool-cases (leb 3 len && isdigit a)) [
  | inl starts ↦ rw starts (memcmp-separator b c rest)
  | inr refused ↦ rw refused refl
]

drive_by_digit :
    (a b c : ℕ) (rest : List ℕ) (k left : ℕ)
    → strnlen (a ∷ b ∷ c ∷ rest) max_path ≡ some (if leb max_path k then max_path else k)
    → strlen rest ≡ some left
    → left < k
    → Drive (a ∷ b ∷ c ∷ rest) k
unfolding path_valid_format tonumericdigit isdigit
drive_by_digit a b c rest k left measured later shorter =
    let path = a ∷ b ∷ c ∷ rest in
    let len = if leb max_path k then max_path else k in
    let valid = ap (has_format path) measured ∙ has_format-is_format a b c rest len in
    elim (Bool-cases (is_format a b c len)) [
      | inl format ↦
          let digit : leb 48 a ≡ true = ground (arith, format) in
          drive_by_format path rest k left (a - 48) (valid ∙ ap some format) (rw digit refl) refl
            later shorter
      | inr refused ↦ inl (refused_drive path (valid ∙ ap some refused))
    ]

-- Any terminated path has a drive or is refused.
get_drive_by_path-Drive : (path : List ℕ) (k : ℕ) → strlen path ≡ some k → Drive path k
unfolding path_valid_format
get_drive_by_path-Drive path k e =
    let measured = strnlen-strlen path max_path k e in
    elim (Bool-cases (leb 3 k)) [
      | inl long ↦ long_drive path k e (leb→le 3 k long) measured
      | inr short ↦
          let len = if leb max_path k then max_path else k in
          let brief : leb 3 len ≡ false = brief_of k (leb-false→lt 3 k short) in
          inl (refused_drive path (ap (has_format path) measured ∙ rw brief refl))
    ]
  where
    brief_of : (k : ℕ) → k < 3 → leb 3 (if leb max_path k then max_path else k) ≡ false
    brief_of k h = ground arith

    long_drive :
        (path : List ℕ) (k : ℕ)
        → strlen path ≡ some k
        → 3 ≤ k
        → strnlen path max_path ≡ some (if leb max_path k then max_path else k)
        → Drive path k
    long_drive path zero e h m = absurd (omega arith)
    long_drive path (suc zero) e h m = absurd (omega arith)
    long_drive path (suc (suc zero)) e h m = absurd (omega arith)
    long_drive [] k e h m = absurd (omega (arith, strlen-length [] k e))
    long_drive (a ∷ []) k e h m = absurd (omega (arith, strlen-length (a ∷ []) k e))
    long_drive (a ∷ b ∷ []) k e h m = absurd (omega (arith, strlen-length (a ∷ b ∷ []) k e))
    long_drive (a ∷ b ∷ c ∷ rest) (suc (suc (suc k))) e h m =
        drive_by_digit a b c rest (suc (suc (suc k))) k m
          (strlen-tail c rest k
            (strlen-tail b (c ∷ rest) (suc k) (strlen-tail a (b ∷ c ∷ rest) (suc (suc k)) e)))
          (omega arith)

-- The results that pathparser_parse may have.
abbrev pub IsRoot : Option PathRoot → Type 0
IsRoot none = Unit
IsRoot (some root) = are_parts root.parts ≡ true

-- For any terminated path, pathparser_parse returns, with NULL or with parts that each are not
-- empty, hold no slash and no terminator, and fit with a terminator into the PEACHOS_MAX_PATH bytes
-- of their buffer.
pub parse-IsRoot :
    (path : List ℕ) (k : ℕ)
    → strlen path ≡ some k
    → (result : Option PathRoot) × ((parse path ≡ some result) × IsRoot result)
unfolding parse
parse-IsRoot path k e = elim (Bool-cases (ltb max_path k)) [
  | inl long ↦ (none, (ap (parse_checked path) e ∙ rw long refl, record {}))
  | inr short ↦
      let start : parse_checked path (strlen path) ≡ parse_drive (get_drive_by_path path) =
        ap (parse_checked path) e ∙ rw short refl in
      elim (get_drive_by_path-Drive path k e) [
        | inl refused ↦ (none, (start ∙ ap parse_drive refused, record {}))
        | inr (d, (rest, (left, (found, (later, shorter))))) ↦
            let (parts, (parsed, good)) =
              parse_parts-Splits (length rest + 1) rest left later
                (omega (arith, strlen-length rest left later))
                (omega (arith, ltb-false→le max_path k short, shorter)) in
            (
              some (record { drive_no = pos d; parts = parts }),
              (start ∙ (ap parse_drive found ∙ ap (make_root (pos d)) parsed), good),
            )
      ]
]
