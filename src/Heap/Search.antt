-- ===== src/Heap/Search.antt =====
-- heap_get_start_block against a description of the block that it picks.
use kernel_nesemulator.Prelude.{
  ◌⊎◌, ℕ, zero, suc, ◌+◌, ◌-◌, ◌≤◌, ◌<◌, ◌≡◌, refl, ap, ◌∙◌, Bool, true, false, ◌&&◌, ◌||◌, Option,
  none, some, List, [], ◌∷◌, inl, inr, arith, ◌==◌, if◌then◌else◌, length, take, drop, Bool-cases,
  Option-cases,
}
use kernel_nesemulator.Heap.{
  Heap, block_or_enomem, entry_free, get_entry_type, search_loop, get_start_block,
}

abbrev pub is_free : ℕ → Bool
is_free entry = get_entry_type entry == entry_free

-- The first `n` entries are there and are free.
unfoldable pub free_prefix : ℕ → List ℕ → Bool
free_prefix zero entries = true
free_prefix (suc n) [] = false
free_prefix (suc n) (entry ∷ rest) = is_free entry && free_prefix n rest

unfoldable pub all_free : List ℕ → Bool
all_free [] = true
all_free (entry ∷ rest) = is_free entry && all_free rest

abbrev pub shift : ℕ → Option ℕ → Option ℕ
shift i none = none
shift i (some b) = some (i + b)

-- The first place from which `n` entries are free, or all that are left.
unfoldable pub first_fit : ℕ → List ℕ → Option ℕ
unfolding free_prefix all_free
first_fit n [] = none
first_fit n (entry ∷ rest) =
    let later = shift 1 (first_fit n rest) in
    if free_prefix n (entry ∷ rest) || all_free (entry ∷ rest) then some 0 else later

shift-shift : (i : ℕ) (o : Option ℕ) → shift (i + 1) o ≡ shift i (shift 1 o)
shift-shift i none = refl
shift-shift i (some b) = ap some (omega arith)

pub free_prefix_mono :
    (m k : ℕ) (entries : List ℕ)
    → m ≤ k
    → free_prefix k entries ≡ true
    → free_prefix m entries ≡ true
unfolding free_prefix
free_prefix_mono zero k entries h e = refl
free_prefix_mono (suc m) zero entries h e = absurd (omega arith)
free_prefix_mono (suc m) (suc k) [] h e = e
free_prefix_mono (suc m) (suc k) (x ∷ entries) h e = ground (arith, free_prefix_mono m k entries)

free_prefix-cons :
    (n entry : ℕ) (rest : List ℕ)
    → 0 < n
    → free_prefix n (entry ∷ rest) ≡ (is_free entry && free_prefix (n - 1) rest)
unfolding free_prefix
free_prefix-cons zero entry rest h = absurd (omega arith)
free_prefix-cons (suc n) entry rest h = ap (λ m. is_free entry && free_prefix m rest) (omega arith)

free_prefix-zero : (n : ℕ) (entries : List ℕ) → n ≡ 0 → free_prefix n entries ≡ true
unfolding free_prefix
free_prefix-zero zero entries e = refl
free_prefix-zero (suc n) entries e = absurd (omega arith)

-- The loop from entry `i` on: outside a run, and inside one of `bc` free blocks from `b` on.
pub record Finds (n : ℕ) (entries : List ℕ) : Type 0 where
  pub outside : (i : ℕ) → search_loop n entries i 0 none ≡ shift i (first_fit n entries)
  pub inside :
      (i bc b : ℕ)
      → 0 < bc
      → bc < n
      → search_loop n entries i bc (some b) ≡ (
          if free_prefix (n - bc) entries || all_free entries
          then some b
          else shift i (first_fit n entries))

search_loop-Finds : (n : ℕ) (entries : List ℕ) → 0 < n → Finds n entries
unfolding search_loop first_fit
search_loop-Finds n [] h = record { outside = λ i. refl; inside = λ i bc b p q. ground arith }
search_loop-Finds n (entry ∷ rest) h =
    let later = search_loop-Finds n rest h in
    let here = free_prefix-cons n entry rest in
    let start = free_prefix-zero (n - 1) rest in
    record {
      outside = λ i. ground (
        arith,
        later.outside (i + 1),
        later.inside (i + 1) 1 i,
        here,
        start,
        shift-shift i (first_fit n rest),
      );
      inside = λ i bc b p q. ground (
        arith,
        later.outside (i + 1),
        later.inside (i + 1) (bc + 1) b,
        here,
        free_prefix-cons (n - bc) entry rest,
        free_prefix-zero (n - bc - 1) rest,
        free_prefix_mono (n - bc - 1) (n - 1) rest,
        shift-shift i (first_fit n rest),
      );
    }

shift-zero : (o : Option ℕ) → shift 0 o ≡ o
shift-zero none = refl
shift-zero (some b) = ap some (omega arith)

-- heap_get_start_block returns the first block from which total_blocks blocks are free, or else
-- all blocks up to the table's end; -ENOMEM if there is none.
pub get_start_block_lem :
    (heap : Heap) (n : ℕ)
    → 0 < n
    → get_start_block heap n ≡ block_or_enomem (first_fit n (take heap.total heap.entries))
unfolding get_start_block
get_start_block_lem heap n h =
    let found = (search_loop-Finds n (take heap.total heap.entries) h).outside 0 in
    ap block_or_enomem (found ∙ shift-zero _)

run_length : (n : ℕ) (entries : List ℕ) → free_prefix n entries ≡ true → n ≤ length entries
unfolding free_prefix
run_length zero entries e = omega arith
run_length (suc n) [] e = cc
run_length (suc n) (x ∷ entries) e = ground (arith, run_length n entries)

free_prefix_of_all :
    (n : ℕ) (entries : List ℕ)
    → all_free entries ≡ true
    → n ≤ length entries
    → free_prefix n entries ≡ true
unfolding free_prefix all_free
free_prefix_of_all zero entries e h = refl
free_prefix_of_all (suc n) [] e h = absurd (omega arith)
free_prefix_of_all (suc n) (x ∷ entries) e h = ground (arith, free_prefix_of_all n entries)

length-drop-le : (k : ℕ) (entries : List ℕ) → length (drop k entries) ≤ length entries
length-drop-le zero entries = omega arith
length-drop-le (suc k) [] = omega arith
length-drop-le (suc k) (x ∷ entries) = omega (arith, length-drop-le k entries)

-- Where a run of `n` free entries exists, the place that is picked begins one, at or before it.
pub first_fit_of_run :
    (n k : ℕ) (entries : List ℕ)
    → 0 < n
    → free_prefix n (drop k entries) ≡ true
    → (i : ℕ) × (first_fit n entries ≡ some i) × (i ≤ k) × (free_prefix n (drop i entries) ≡ true)
unfolding first_fit
first_fit_of_run n zero [] h e = absurd (omega (arith, run_length n [] e))
first_fit_of_run n (suc k) [] h e = absurd (omega (arith, run_length n [] e))
first_fit_of_run n zero (x ∷ entries) h e = (0, rw e, omega arith, e)
first_fit_of_run n (suc k) (x ∷ entries) h e = elim (Bool-cases (free_prefix n (x ∷ entries))) [
  | inl here ↦ (0, rw here, omega arith, here)
  | inr no_run ↦ elim (Bool-cases (all_free (x ∷ entries))) [
    | inl rest ↦
        let fits : n ≤ length (x ∷ entries) =
          omega (arith, run_length n _ e, length-drop-le k entries) in
        cc (free_prefix_of_all n (x ∷ entries) rest fits)
    | inr taken ↦
        let (i, found, before, run) = first_fit_of_run n k entries h e in
        (suc i, rw (no_run, taken, found) (ap some (omega arith)), omega arith, run)
  ]
]

-- What the picked place is: a run of `n` free entries, or free entries up to the end, fewer than
-- `n`; and no run begins before it.
pub record Picked (n : ℕ) (entries : List ℕ) (i : ℕ) : Type 0 where
  pub free :
      (free_prefix n (drop i entries) ≡ true)
      ⊎ ((all_free (drop i entries) ≡ true) × (length (drop i entries) < n))
  pub inside : i < length entries
  pub least : (k : ℕ) → k < i → free_prefix n (drop k entries) ≡ false

first_fit-zero :
    (n x : ℕ) (entries : List ℕ)
    → first_fit n (x ∷ entries) ≡ some 0
    → (free_prefix n (x ∷ entries) || all_free (x ∷ entries)) ≡ true
unfolding first_fit
first_fit-zero n x entries e =
    elim (Bool-cases (free_prefix n (x ∷ entries) || all_free (x ∷ entries))) [
      | inl here ↦ here
      | inr later ↦ elim (Option-cases (first_fit n entries)) [
        | inl never ↦ ground arith
        | inr (b, found) ↦ ground arith
      ]
    ]

first_fit-suc :
    (n x i : ℕ) (entries : List ℕ)
    → first_fit n (x ∷ entries) ≡ some (suc i)
    → ((free_prefix n (x ∷ entries) || all_free (x ∷ entries)) ≡ false)
      × (first_fit n entries ≡ some i)
unfolding first_fit
first_fit-suc n x i entries e =
    elim (Bool-cases (free_prefix n (x ∷ entries) || all_free (x ∷ entries))) [
      | inl here ↦ absurd (ground arith)
      | inr later ↦ elim (Option-cases (first_fit n entries)) [
        | inl never ↦ absurd (ground arith)
        | inr (b, found) ↦ (later, ground arith)
      ]
    ]

pub first_fit-Picked :
    (n i : ℕ) (entries : List ℕ) → first_fit n entries ≡ some i → Picked n entries i
unfolding first_fit
first_fit-Picked n i [] e = cc
first_fit-Picked n zero (x ∷ entries) e = elim (Bool-cases (free_prefix n (x ∷ entries))) [
  | inl run ↦ record { free = inl run; inside = omega arith; least = λ k h. elim h [ ] }
  | inr no_run ↦
      let rest : all_free (x ∷ entries) ≡ true = ground (arith, first_fit-zero n x entries e) in
      record {
        free = inr (rest, ground (arith, free_prefix_of_all n (x ∷ entries) rest));
        inside = omega arith;
        least = λ k h. elim h [ ];
      }
]
first_fit-Picked n (suc i) (x ∷ entries) e =
    let (no_fit, found) = first_fit-suc n x i entries e in
    let p = first_fit-Picked n i entries found in
    record {
      free = p.free;
      inside = omega (arith, p.inside);
      least = elim [ zero ↦ λ h. ground arith | suc k ↦ λ h. p.least k (omega arith) ];
    }
