-- ===== src/Path/Parts.antt =====
-- The parts of any path: they are no longer than their buffers, and the parser reaches the end.
use kernel_nesemulator.Prelude.{
  ℕ, zero, suc, ◌+◌, ◌≤◌, ◌<◌, ◌≡◌, refl, ap, ◌∙◌, Bool, true, false, ◌&&◌, Option, none, some,
  List, [], ◌∷◌, leb, ltb, ◌==◌, ◌!=◌, length, arith, Bool-cases, inl, inr,
}
use kernel_nesemulator.String.{strlen, count}
use kernel_nesemulator.Path.{get_path_part, in_part, parse_parts, link_part, link}

-- Bytes that a part consists of.
unfoldable pub is_part : List ℕ → Bool
is_part [] = true
is_part (c ∷ s) = ((c != 0x2F) && (c != 0x00)) && is_part s

-- Not empty, without a slash or a terminator, and so short that it fits into PEACHOS_MAX_PATH bytes
-- with a terminator.
unfoldable pub are_parts : List (List ℕ) → Bool
are_parts [] = true
are_parts (part ∷ parts) =
    ((leb 1 (length part) && ltb (length part) 108) && is_part part) && are_parts parts

pub are_parts-cons :
    (part : List ℕ) (parts : List (List ℕ))
    → are_parts (part ∷ parts) ≡ true
    → (is_part part ≡ true) × ((leb 1 (length part) ≡ true) × (are_parts parts ≡ true))
unfolding are_parts
are_parts-cons part parts good = (ground arith, (ground arith, ground arith))

-- What a part of a terminated path is like.
record IsCut (path : List ℕ) (k : ℕ) : Type 0 where
  part : List ℕ
  rest : List ℕ
  left : ℕ
  cut : get_path_part path ≡ some (part, rest)
  terminated : strlen rest ≡ some left
  shorter : length part + left ≤ k
  clean : is_part part ≡ true

counted : (o : Option ℕ) (k : ℕ) → count o ≡ some k → (j : ℕ) × ((o ≡ some j) × (j + 1 ≡ k))
counted none k e = cc
counted (some j) k e = (j, (refl, ground arith))

get_path_part-IsCut : (path : List ℕ) (k : ℕ) → strlen path ≡ some k → IsCut path k
unfolding strlen get_path_part is_part
get_path_part-IsCut [] k e = cc
get_path_part-IsCut (c ∷ path) k e = elim (Bool-cases (c == 0x00)) [
  | inl end ↦
      let slash : (c == 0x2F) ≡ false = ground arith in
      record {
        part = [];
        rest = c ∷ path;
        left = k;
        cut = rw (slash, end) refl;
        terminated = e;
        shorter = omega arith;
        clean = refl;
      }
  | inr within ↦
      let (j, (later, next)) = counted (strlen path) k (rw within at e) in
      elim (Bool-cases (c == 0x2F)) [
        | inl slash ↦ record {
          part = [];
          rest = path;
          left = j;
          cut = rw slash refl;
          terminated = later;
          shorter = omega (arith, next);
          clean = refl;
        }
        | inr byte ↦
            let ih = get_path_part-IsCut path j later in
            let c_clean : ((c != 0x2F) && (c != 0x00)) ≡ true = ground arith in
            record {
              part = c ∷ ih.part;
              rest = ih.rest;
              left = ih.left;
              cut = rw (byte, within) (ap (in_part c) ih.cut);
              terminated = ih.terminated;
              shorter = omega (arith, next, ih.shorter);
              clean = rw c_clean ih.clean;
            }
      ]
]

-- The parts that the loop finds.
abbrev pub Splits : ℕ → List ℕ → Type 0
Splits fuel path =
    (parts : List (List ℕ)) × ((parse_parts fuel path ≡ some parts) × (are_parts parts ≡ true))

cut-Splits :
    (fuel : ℕ) (path part rest : List ℕ)
    → get_path_part path ≡ some (part, rest)
    → is_part part ≡ true
    → length part < 108
    → Splits fuel rest
    → Splits (suc fuel) path
unfolding parse_parts are_parts
cut-Splits fuel path [] rest e clean short (parts, (found, good)) =
    ([], (ap (λ o. link_part o (λ r. parse_parts fuel r)) e, refl))
cut-Splits fuel path (c ∷ part) rest e clean short (parts, (found, good)) = (
  (c ∷ part) ∷ parts,
  (
    ap (λ o. link_part o (λ r. parse_parts fuel r)) e ∙ ap (link (c ∷ part)) found,
    ground (arith, clean, short, good),
  ),
)

empty-Splits :
    (fuel : ℕ) (path rest : List ℕ) → get_path_part path ≡ some ([], rest) → Splits (suc fuel) path
unfolding parse_parts are_parts
empty-Splits fuel path rest e = ([], (ap (λ o. link_part o (λ r. parse_parts fuel r)) e, refl))

pub parse_parts-Splits :
    (fuel : ℕ) (path : List ℕ) (k : ℕ)
    → strlen path ≡ some k
    → k < fuel
    → k < 108
    → Splits fuel path
parse_parts-Splits zero path k e enough short = absurd (omega arith)
parse_parts-Splits (suc fuel) path k e enough short =
    let c = get_path_part-IsCut path k e in
    elim (Bool-cases (leb 1 (length c.part))) [
      | inl some_bytes ↦
          cut-Splits fuel path c.part c.rest c.cut c.clean (omega (arith, c.shorter)) (
            parse_parts-Splits fuel c.rest c.left c.terminated
              (ground (arith, c.shorter, some_bytes)) (omega (arith, c.shorter)))
      | inr none_left ↦
          empty-Splits fuel path c.rest
            (c.cut ∙ ap (λ p. some (p, c.rest)) (nothing c.part none_left))
    ]
  where
    nothing : (p : List ℕ) → leb 1 (length p) ≡ false → p ≡ []
    nothing [] h = refl
    nothing (x ∷ p) h = absurd (ground arith)
