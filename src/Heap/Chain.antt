-- ===== src/Heap/Chain.antt =====
-- The shape of a block table: free blocks, and allocations linked by HEAP_BLOCK_HAS_NEXT.
use kernel_nesemulator.Prelude.{
  ap₂, ℕ, zero, suc, ◌≡◌, refl, ap, ◌∙◌, sym, Bool, true, false, Option, none, some, List, [], ◌∷◌,
  ◌++◌, arith, ◌==◌, if◌then◌else◌, drop, replicate, ◌⊎◌, inl, inr,
}
use mathlib.Core.Path.{fun_ext}
use kernel_nesemulator.Heap.{entry_free, get_entry_type}
use kernel_nesemulator.Heap.Mark.{link, cells, head_entry}
use kernel_nesemulator.Heap.Search.{is_free, free_prefix}

-- Whether an entry may follow: `true` inside an allocation, `false` outside. The new place, if so.
abbrev pub advance : Bool → ℕ → Option Bool
advance false entry =
    if entry == 0
    then some false
    else if entry == 0x41
    then some false
    else if entry == 0xc1
    then some true
    else none
advance true entry = if entry == 0x01 then some false else if entry == 0x81 then some true else none

abbrev pub and_then : Option Bool → (Bool → Option Bool) → Option Bool
and_then none f = none
and_then (some b) f = f b

unfoldable pub chain : Bool → List ℕ → Option Bool
chain b [] = some b
chain b (entry ∷ rest) = and_then (advance b entry) (λ c. chain c rest)

-- Every allocation in the table begins with its first block and is closed.
abbrev pub IsChained : List ℕ → Type 0
IsChained entries = chain false entries ≡ some false

and_then_assoc :
    (o : Option Bool) (f g : Bool → Option Bool)
    → and_then (and_then o f) g ≡ and_then o (λ c. and_then (f c) g)
and_then_assoc none f g = refl
and_then_assoc (some b) f g = refl

pub chain-append :
    (b : Bool) (xs ys : List ℕ) → chain b (xs ++ ys) ≡ and_then (chain b xs) (λ c. chain c ys)
unfolding chain
chain-append b [] ys = refl
chain-append b (x ∷ xs) ys =
    ap (and_then (advance b x)) (fun_ext λ c. chain-append c xs ys)
    ∙ sym (and_then_assoc (advance b x) (λ c. chain c xs) (λ c. chain c ys))

pub chain-replicate : (n : ℕ) → chain false (replicate n entry_free) ≡ some false
unfolding chain
chain-replicate zero = refl
chain-replicate (suc n) = chain-replicate n

pub chain-links : (n : ℕ) → chain true (cells (suc n) (link (suc n))) ≡ some false
unfolding chain
chain-links zero = refl
chain-links (suc n) =
    let more : link (suc (suc n)) ≡ 0x81 = ground arith in
    ap (λ e. and_then (advance true e) (λ c. chain c (cells (suc n) (link (suc n))))) more
    ∙ chain-links n

pub chain-cells : (n : ℕ) → chain false (cells (suc n) (head_entry (suc n))) ≡ some false
unfolding chain
chain-cells zero = refl
chain-cells (suc n) =
    let more : head_entry (suc (suc n)) ≡ 0xc1 = ground arith in
    ap (λ e. and_then (advance false e) (λ c. chain c (cells (suc n) (link (suc n))))) more
    ∙ chain-links n

entry_types :
    (get_entry_type 0x41 ≡ 1)
    × (get_entry_type 0xc1 ≡ 1)
    × (get_entry_type 0x01 ≡ 1)
    × (get_entry_type 0x81 ≡ 1)
unfolding get_entry_type
entry_types = (refl, refl, refl, refl)

-- A free entry in a table that is linked well stands outside allocations, and is 0.
advance-free :
    (b : Bool) (entry : ℕ) (f : Bool → Option Bool) (c : Bool)
    → and_then (advance b entry) f ≡ some c
    → is_free entry ≡ true
    → (b ≡ false) × (entry ≡ entry_free) × (f false ≡ some c)
advance-free b entry f c h e = ground (arith, entry_types)

pub chain-free :
    (n : ℕ) (b c : Bool) (entries : List ℕ)
    → chain b entries ≡ some c
    → free_prefix (suc n) entries ≡ true
    → (b ≡ false) × (entries ≡ replicate (suc n) entry_free ++ drop (suc n) entries)
unfolding chain free_prefix
chain-free n b c [] h e = cc
chain-free zero b c (x ∷ entries) h e =
    let (out, zeroed, rest) = advance-free b x (λ d. chain d entries) c h (ground arith) in
    (out, ap (λ y. y ∷ entries) zeroed)
chain-free (suc n) b c (x ∷ entries) h e =
    let (out, zeroed, rest) = advance-free b x (λ d. chain d entries) c h (ground arith) in
    (out, ap₂ ◌∷◌ zeroed (chain-free n false c entries rest (ground arith)).1)

-- A table in three parts, each of them complete.
pub chain-parts :
    (before middle after : List ℕ)
    → chain false before ≡ some false
    → chain false middle ≡ some false
    → chain false after ≡ some false
    → IsChained (before ++ (middle ++ after))
chain-parts before middle after p q r =
    chain-append false before (middle ++ after)
    ∙ (ap (λ o. and_then o (λ c. chain c (middle ++ after))) p
        ∙ (chain-append false middle after ∙ (ap (λ o. and_then o (λ c. chain c after)) q ∙ r)))

-- The rest of an allocation, read off from inside it.
pub record Tail (entries : List ℕ) : Type 0 where
  pub count : ℕ
  pub split : entries ≡ cells (suc count) (link (suc count)) ++ drop (suc count) entries
  pub after : chain false (drop (suc count) entries) ≡ some false

advance-inside :
    (entry : ℕ) (f : Bool → Option Bool)
    → and_then (advance true entry) f ≡ some false
    → ((entry ≡ 0x01) × (f false ≡ some false)) ⊎ ((entry ≡ 0x81) × (f true ≡ some false))
advance-inside entry f h = ground arith

pub chain-Tail : (entries : List ℕ) → chain true entries ≡ some false → Tail entries
unfolding chain
chain-Tail [] h = absurd (ground arith)
chain-Tail (x ∷ entries) h = elim (advance-inside x (λ c. chain c entries) h) [
  | inl (ends, rest) ↦ record { count = 0; split = ap (λ y. y ∷ entries) ends; after = rest }
  | inr (goes_on, rest) ↦
      let t = chain-Tail entries rest in
      let more : 0x81 ≡ link (suc (suc t.count)) = ground arith in
      record { count = suc t.count; split = ap₂ ◌∷◌ (goes_on ∙ more) t.split; after = t.after }
]
