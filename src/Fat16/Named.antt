-- ===== src/Fat16/Named.antt =====
-- When fat16_find_item_in_directory takes an item for the one that it looks for.
use kernel_nesemulator.Prelude.{
  ℕ, zero, suc, ◌+◌, ◌-◌, ◌≤◌, ◌≡◌, ◌≢◌, refl, sym, ap, ◌∙◌, Bool, true, false, ◌&&◌, if◌then◌else◌,
  Option, some, List, [], ◌∷◌, ◌++◌, ◌==◌, ◌!=◌, length, take, replicate, length-append, ℤ, pos,
  negsuc, arith,
}
use kernel_nesemulator.String.{istrncmp, tolower, difference}
use kernel_nesemulator.String.Compare.{no_nul, lower, tolower-zero, istrncmp-lower}
use kernel_nesemulator.Fat16.{DirectoryItem}
use kernel_nesemulator.Fat16.Name.{
  is_name, padded, dotted, get_full_relative_filename, get_full_relative_filename-dotted,
}
use kernel_nesemulator.Fat16.Search.{has_name, is_zero}

-- The item holds a short name whose text is `text`.
pub record IsNamed (item : DirectoryItem) (text : List ℕ) : Type 0 where
  pub name : List ℕ
  pub ext : List ℕ
  pub name_field : item.filename ≡ padded 8 name
  pub ext_field : item.ext ≡ padded 3 ext
  pub name_bytes : is_name name ≡ true
  pub ext_bytes : is_name ext ≡ true
  pub name_fits : length name ≤ 8
  pub ext_fits : length ext ≤ 3
  pub whole : text ≡ dotted name ext

no_nul-name : (s : List ℕ) → is_name s ≡ true → no_nul s ≡ true
unfolding is_name no_nul
no_nul-name [] h = refl
no_nul-name (c ∷ s) h = ground (arith, no_nul-name s)

no_nul-append : (s t : List ℕ) → no_nul s ≡ true → no_nul t ≡ true → no_nul (s ++ t) ≡ true
unfolding no_nul
no_nul-append [] t hs ht = ht
no_nul-append (c ∷ s) t hs ht = ground (arith, no_nul-append s t)

no_nul-dotted :
    (name ext : List ℕ) → is_name name ≡ true → is_name ext ≡ true → no_nul (dotted name ext) ≡ true
unfolding dotted no_nul
no_nul-dotted name [] h_name h_ext = no_nul-name name h_name
no_nul-dotted name (c ∷ ext) h_name h_ext =
    no_nul-append name (0x2E ∷ (c ∷ ext)) (no_nul-name name h_name) (no_nul-name (c ∷ ext) h_ext)

length-dotted : (name ext : List ℕ) → length (dotted name ext) ≤ length name + (length ext + 1)
unfolding dotted
length-dotted name [] = omega arith
length-dotted name (c ∷ ext) = omega (arith, length-append name (0x2E ∷ (c ∷ ext)))

length-lower : (s : List ℕ) → length (lower s) ≡ length s
unfolding lower
length-lower [] = refl
length-lower (c ∷ s) = ap suc (length-lower s)

take-all : (n : ℕ) (s : List ℕ) → length s ≤ n → take n s ≡ s
take-all zero [] h = refl
take-all zero (c ∷ s) h = absurd (omega arith)
take-all (suc n) [] h = refl
take-all (suc n) (c ∷ s) h = ap (λ t. c ∷ t) (take-all n s (omega arith))

if-some :
    (b : Bool) (x : ℤ) (o : Option ℤ)
    → (z : ℤ) × (o ≡ some z)
    → (z : ℤ) × ((if b then some x else o) ≡ some z)
if-some true x o found = (x, refl)
if-some false x o found = found

-- istrncmp reads no byte behind the terminators.
istrncmp-some :
    (n : ℕ) (t1 t2 r1 r2 : List ℕ)
    → no_nul t1 ≡ true
    → (z : ℤ) × (istrncmp (t1 ++ (0 ∷ r1)) (t2 ++ (0 ∷ r2)) n ≡ some z)
unfolding istrncmp no_nul
istrncmp-some zero t1 t2 r1 r2 h = (pos 0, refl)
istrncmp-some (suc n) [] [] r1 r2 h = (pos 0, refl)
istrncmp-some (suc n) [] (d ∷ t2) r1 r2 h = if-some _ _ _ (pos 0, refl)
istrncmp-some (suc n) (c ∷ t1) [] r1 r2 h =
    let test : ((c != 0) && (tolower c != tolower 0)) ≡ true = ground (arith, tolower-zero c) in
    rw test (difference c 0, refl)
istrncmp-some (suc n) (c ∷ t1) (d ∷ t2) r1 r2 h =
    if-some ((c != d) && (tolower c != tolower d)) (difference c d) _
      (if-some (c == 0) (pos 0) _ (istrncmp-some n t1 t2 r1 r2 (ground (arith, h))))

-- What is_zero makes of a comparison that is not 0.
is_zero-other : (z : ℤ) → z ≢ pos 0 → is_zero (some z) ≡ some false
is_zero-other (pos zero) h = absurd (h refl)
is_zero-other (pos (suc n)) h = refl
is_zero-other (negsuc n) h = refl

module _ (item : DirectoryItem) (text t r : List ℕ) (named : IsNamed item text)
    (t_bytes : no_nul t ≡ true) where
  -- The buffer that the item's name is written to.
  buffer : get_full_relative_filename item 108 ≡ text ++ (0 ∷ replicate (107 - length text) 0)
  buffer =
      let d = dotted named.name named.ext in
      let short : length text ≤ 12 = omega (
        arith,
        length-dotted named.name named.ext,
        named.name_fits,
        named.ext_fits,
        ap length named.whole,
      ) in
      get_full_relative_filename-dotted item named.name named.ext 108 named.name_field
        named.ext_field named.name_bytes named.ext_bytes named.name_fits named.ext_fits
      ∙ (ap (λ s. s ++ replicate (108 - length s) 0) (sym named.whole)
          ∙ ap (λ n. text ++ replicate n 0) (split short))
    where
      split : length text ≤ 12 → 108 - length text ≡ suc (107 - length text)
      split h = omega arith

  text_bytes : no_nul text ≡ true
  text_bytes =
      ap no_nul named.whole ∙ no_nul-dotted named.name named.ext named.name_bytes named.ext_bytes

  text_short : length text ≤ 108
  text_short = omega (
    arith,
    length-dotted named.name named.ext,
    named.name_fits,
    named.ext_fits,
    ap length named.whole,
  )

  pub has_name-same : lower text ≡ lower t → has_name (t ++ (0 ∷ r)) item ≡ some true
  unfolding has_name
  has_name-same same =
      ap (λ b. is_zero (istrncmp b (t ++ (0 ∷ r)) 108)) buffer
      ∙ ap is_zero (
          (istrncmp-lower 108 text t (replicate (107 - length text) 0) r text_bytes t_bytes).1
            (ap (take 108) same))

  pub has_name-other :
      length t ≤ 108 → lower text ≢ lower t → has_name (t ++ (0 ∷ r)) item ≡ some false
  unfolding has_name
  has_name-other t_short differs =
      let text_low : length (lower text) ≤ 108 = omega (arith, length-lower text, text_short) in
      let t_low : length (lower t) ≤ 108 = omega (arith, length-lower t, t_short) in
      let zeros = replicate (107 - length text) 0 in
      let (z, gives) = istrncmp-some 108 text t zeros r text_bytes in
      let nonzero : z ≢ pos 0 = λ e. differs (
        sym (take-all 108 (lower text) text_low)
        ∙ ((istrncmp-lower 108 text t zeros r text_bytes t_bytes).0 (gives ∙ ap some e)
            ∙ take-all 108 (lower t) t_low)) in
      ap (λ b. is_zero (istrncmp b (t ++ (0 ∷ r)) 108)) buffer
      ∙ (ap is_zero gives ∙ is_zero-other z nonzero)
