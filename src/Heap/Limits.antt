-- ===== src/Heap/Limits.antt =====
-- The edges of the heap: no room, too little room at the end, sizes, and heap_create.
use kernel_nesemulator.Prelude.{
  ℕ, zero, suc, ◌+◌, ◌-◌, ◌*◌, ◌/◌, ◌%◌, ◌^◌, ◌≤◌, ◌<◌, ◌≡◌, ◌≢◌, refl, ap, ◌∙◌, true, false, some,
  List, [], ◌∷◌, ◌++◌, arith, ◌==◌, ◌!=◌, length, get_or, take, drop, replicate, ◌⊎◌, ℤ, pos,
  negsuc, u32, length-replicate, Bool-cases, Option-cases, inl, inr, not, ◌||◌,
}
use mathlib.Core.List.{append-nil}
use native.Mathlib.Decide.{ℕ_discrete}
use kernel_nesemulator.Heap.{
  Heap, block_size, entry_free, block_or_enomem, get_start_block, block_to_address, get_entry_type,
  malloc_blocks, hand_out, malloc, align_value_to_upper, create, clear_table,
}
use kernel_nesemulator.Heap.Search.{
  free_prefix, all_free, first_fit, first_fit-Picked, get_start_block_lem,
}
use kernel_nesemulator.Heap.Chain.{chain, chain-replicate}
use kernel_nesemulator.Heap.RoundTrip.{IsValid, length-drop}

-- Free entries at the end make the search succeed, whatever their number.
first_fit_of_tail :
    (n j : ℕ) (entries : List ℕ)
    → j < length entries
    → all_free (drop j entries) ≡ true
    → (i : ℕ) × (first_fit n entries ≡ some i)
unfolding first_fit
first_fit_of_tail n j [] h e = absurd (omega arith)
first_fit_of_tail n zero (x ∷ entries) h e = elim (Bool-cases (free_prefix n (x ∷ entries))) [
  | inl run ↦ (0, ground arith)
  | inr no_run ↦ (0, ground arith)
]
first_fit_of_tail n (suc j) (x ∷ entries) h e =
    elim (Bool-cases (free_prefix n (x ∷ entries) || all_free (x ∷ entries))) [
      | inl here ↦ (0, rw here refl)
      | inr later ↦
          let (i, found) = first_fit_of_tail n j entries (omega arith) e in
          (suc i, rw (later, found) (ap some (omega arith)))
    ]

-- An entry with only free entries behind it is free.
entry_of_all_free :
    (i : ℕ) (entries : List ℕ)
    → i < length entries
    → all_free (drop i entries) ≡ true
    → get_entry_type (get_or entries i 1) ≡ entry_free
unfolding all_free
entry_of_all_free i [] inside free = absurd (omega arith)
entry_of_all_free zero (x ∷ entries) inside free = ground arith
entry_of_all_free (suc i) (x ∷ entries) inside free = entry_of_all_free i entries (omega arith) free

-- If the table has no run of n free blocks, and its last block is free, heap_malloc_blocks still
-- returns the address of a block i of 4096 bytes that is free, although fewer than n blocks are left
-- from there on.
pub malloc_blocks-overruns :
    (heap : Heap) (n j : ℕ)
    → 0 < n
    → ((k : ℕ) → free_prefix n (drop k (take heap.total heap.entries)) ≡ false)
    → j < length (take heap.total heap.entries)
    → all_free (drop j (take heap.total heap.entries)) ≡ true
    → (i : ℕ) × ((malloc_blocks heap n).0 ≡ (heap.saddr + i * 4096) % 2 ^ 32)
      × (get_entry_type (get_or (take heap.total heap.entries) i 1) ≡ entry_free)
      × (i < length (take heap.total heap.entries))
      × (length (take heap.total heap.entries) < i + n)
unfolding malloc_blocks block_to_address
malloc_blocks-overruns heap n j pos_n no_run inside rest =
    let table = take heap.total heap.entries in
    let (i, found) = first_fit_of_tail n j table inside rest in
    let picked = first_fit-Picked n i table found in
    let start : get_start_block heap n ≡ pos i =
      get_start_block_lem heap n pos_n ∙ ap block_or_enomem found in
    (
      i,
      ap (λ b. (hand_out heap n b).0) start,
      elim picked.free [
        | inl run ↦ cc (no_run i)
        | inr (rest_free, _) ↦ entry_of_all_free i table picked.inside rest_free
      ],
      picked.inside,
      elim picked.free [
        | inl run ↦ cc (no_run i)
        | inr (_, short) ↦ omega (arith, short, length-drop i table)
      ],
    )

-- If the table has no run of n free blocks and its last block is taken, heap_malloc_blocks returns
-- NULL and leaves the heap alone.
pub malloc_blocks-exhausted :
    (heap : Heap) (n : ℕ)
    → 0 < n
    → ((k : ℕ) → free_prefix n (drop k (take heap.total heap.entries)) ≡ false)
    → ((j : ℕ)
        → j < length (take heap.total heap.entries)
        → all_free (drop j (take heap.total heap.entries)) ≡ false)
    → malloc_blocks heap n ≡ (0, heap)
unfolding malloc_blocks
malloc_blocks-exhausted heap n pos_n no_run full =
    let table = take heap.total heap.entries in
    elim (Option-cases (first_fit n table)) [
      | inl never ↦
          ap (hand_out heap n) (get_start_block_lem heap n pos_n ∙ ap block_or_enomem never)
      | inr (i, found) ↦
          let picked = first_fit-Picked n i table found in
          elim picked.free [ inl run ↦ cc (no_run i) | inr (rest, _) ↦ cc (full i picked.inside) ]
    ]

-- For a size of at most 2^32 - 4096 bytes, heap_malloc asks heap_malloc_blocks for the smallest
-- number of blocks that holds it.
pub malloc-blocks :
    (heap : Heap) (size : ℕ)
    → size + block_size ≤ 2 ^ 32
    → (n : ℕ) × (malloc heap size ≡ malloc_blocks heap n)
      × (size ≤ n * block_size)
      × (n * block_size < size + block_size)
unfolding malloc
malloc-blocks heap size h =
    (align_value_to_upper size / block_size, refl, ground arith, ground arith)

length-drop-all : (entries : List ℕ) → drop (length entries) entries ≡ []
length-drop-all [] = refl
length-drop-all (x ∷ entries) = length-drop-all entries

pub clear_table-all :
    (entries : List ℕ)
    → clear_table entries (length entries) ≡ replicate (length entries) entry_free
clear_table-all entries =
    ap (λ r. replicate (length entries) entry_free ++ r) (length-drop-all entries)
    ∙ append-nil (replicate (length entries) entry_free)

-- What a call of heap_create for the pool [start, finish) and a table of `count` entries gives.
abbrev pub Created : ℕ → ℕ → ℕ → ℤ × Heap → Type 0
Created start finish count (pos r, made) =
    (r ≡ 0)
    × IsValid made
    × (made.entries ≡ replicate count entry_free)
    × (made.saddr + made.total * block_size ≡ finish)
Created start finish count (negsuc r, made) =
    (r ≡ 1)
    × ((start % block_size ≢ 0) ⊎ (finish % block_size ≢ 0) ⊎ (start + count * block_size ≢ finish))

module _ (heap : Heap) (start finish : ℕ) (entries : List ℕ) where
  made : Heap
  made = record {
    entries = clear_table entries (length entries);
    total = length entries;
    saddr = start;
  }

  made-IsValid :
      0 < start
      → start + length entries * block_size ≡ finish
      → finish < 2 ^ 32
      → finish < start + 2 ^ 31
      → IsValid made × (made.entries ≡ replicate (length entries) entry_free)
  unfolding made
  made-IsValid nonnull exact top small =
      let e = clear_table-all entries in
      (
        record {
          sized = ap length e ∙ length-replicate (length entries) entry_free;
          chained = ap (chain false) e ∙ chain-replicate (length entries);
          nonnull = nonnull;
          small = omega arith;
          placed = omega arith;
        },
        e,
      )

  -- heap_create on a pool [start, finish) above 0 and below 2^32, shorter than 2^31 bytes, with a
  -- table of `length entries` entries, returns 0 with a valid heap that has every block free and
  -- ends at `finish`, or -EINVARG; the latter only if an end is off a block boundary or the table's
  -- length is not the number of blocks.
  pub create-Created :
      0 < start
      → start ≤ finish
      → finish < 2 ^ 32
      → finish < start + 2 ^ 31
      → Created start finish (length entries) (create heap start finish entries (length entries))
  unfolding create made
  create-Created nonnull ordered top small =
      elim (Bool-cases (not (start % block_size == 0) || not (finish % block_size == 0))) [
        | inl off ↦ rw off (refl, ground arith)
        | inr on ↦ elim (ℕ_discrete (length entries) (u32 (finish + 2 ^ 32 - start) / block_size)) [
          | yes e ↦
              let exact : start + length entries * block_size ≡ finish = ground arith in
              let (valid, zeros) = made-IsValid nonnull exact top small in
              let same : (length entries != u32 (finish + 2 ^ 32 - start) / block_size) ≡ false =
                ground arith in
              rw (on, same) (refl, valid, zeros, exact)
          | no e ↦
              let other : (length entries != u32 (finish + 2 ^ 32 - start) / block_size) ≡ true =
                ground arith in
              rw (on, other) (refl, inr (inr (ground arith)))
        ]
      ]
