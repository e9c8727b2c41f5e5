-- ===== src/Heap/Claims.antt =====
-- What heap_malloc_blocks and heap_free promise.
use native.Mathlib.Nat.{mod-eq_of_lt}
use mathlib.Core.Path.{subst}
use kernel_nesemulator.Prelude.{
  ap₂, ℕ, zero, suc, ◌+◌, ◌*◌, ◌≤◌, ◌≡◌, refl, ap, ◌∙◌, sym, true, some, List, ◌++◌, arith, length,
  take, drop, replicate, pos, length-append, length-replicate,
}
use kernel_nesemulator.Heap.{
  Heap, block_size, entry_free, block_or_enomem, get_start_block, block_to_address,
  mark_blocks_taken, malloc_blocks, free, hand_out, mark_blocks_free, address_to_block,
}
use kernel_nesemulator.Heap.Mark.{
  link, cells, head_entry, mark_blocks_taken-append, mark_blocks_free-append,
}
use kernel_nesemulator.Heap.Search.{free_prefix, first_fit, first_fit_of_run, get_start_block_lem}
use kernel_nesemulator.Heap.Chain.{chain-cells, chain-parts}
use kernel_nesemulator.Heap.RoundTrip.{IsValid, FreeRun, behind, allocated, free_run, take_all}

-- The table in three parts, as an equation of heaps.
abbrev pub with_entries : (heap : Heap) (entries : List ℕ) → Heap
with_entries heap entries = record heap { entries = entries }

mark-FreeRun :
    (heap : Heap) (n i : ℕ)
    → FreeRun heap (suc n) i
    → mark_blocks_taken heap i (suc n) ≡ allocated heap (suc n) i
mark-FreeRun heap n i r =
    let before = take i heap.entries in
    let after = behind (suc n) i heap.entries in
    let zeros = replicate (suc n) entry_free in
    let count : length zeros ≡ suc n = length-replicate (suc n) entry_free in
    let start : mark_blocks_taken heap i (suc n)
        ≡ mark_blocks_taken
            (record {
              entries = before ++ (zeros ++ after);
              total = heap.total;
              saddr = heap.saddr;
            })
            (length before) (length zeros) =
      λ j.
        mark_blocks_taken (record { entries = r.split j; total = heap.total; saddr = heap.saddr })
          (sym r.begins j) (sym count j) in
    let finish : record {
      entries = before ++ (cells (length zeros) (head_entry (length zeros)) ++ after);
      total = heap.total;
      saddr = heap.saddr;
    }
        ≡ allocated heap (suc n) i =
      ap
        (λ k. record {
          entries = before ++ (cells k (head_entry k) ++ after);
          total = heap.total;
          saddr = heap.saddr;
        })
        count in
    start
    ∙ (mark_blocks_taken-append before zeros after heap.total heap.saddr (omega (arith, count))
        ∙ finish)

-- On a valid heap with a run of n + 1 free blocks from block k on, heap_malloc_blocks for n + 1
-- blocks returns the address of a block i that is not above k, and marks exactly the n + 1 blocks
-- from i on as one allocation: they lie in the table and were free.
pub malloc_blocks-fits :
    (heap : Heap) (n k : ℕ)
    → IsValid heap
    → free_prefix (suc n) (drop k heap.entries) ≡ true
    → (i : ℕ) × (malloc_blocks heap (suc n)
        ≡ (heap.saddr + i * block_size, allocated heap (suc n) i))
      × FreeRun heap (suc n) i
      × (i ≤ k)
unfolding malloc_blocks
malloc_blocks-fits heap n k v run =
    let all : take heap.total heap.entries ≡ heap.entries =
      ap (λ t. take t heap.entries) (sym v.sized) ∙ take_all heap.entries in
    let (i, found, before, free_here) = first_fit_of_run (suc n) k heap.entries (omega arith) run in
    let r = free_run heap n i v free_here in
    let start : get_start_block heap (suc n) ≡ pos i =
      get_start_block_lem heap (suc n) (omega arith)
      ∙ (ap (λ es. block_or_enomem (first_fit (suc n) es)) all ∙ ap block_or_enomem found) in
    let inside : i * block_size ≤ heap.total * block_size = omega (arith, r.fits) in
    let address : block_to_address heap i ≡ heap.saddr + i * block_size =
      mod-eq_of_lt (omega (arith, v.placed)) in
    (
      i,
      ap (hand_out heap (suc n)) start ∙ ap₂ (λ a h. (a, h)) address (mark-FreeRun heap n i r),
      r,
      before,
    )

pub address_to_block-own :
    (heap : Heap) (i n : ℕ)
    → IsValid heap
    → i + suc n ≤ heap.total
    → address_to_block heap (heap.saddr + i * block_size) ≡ pos i
unfolding address_to_block
address_to_block-own heap i n v h = ground (arith, v.small, v.placed)

-- Freeing an allocation that stands between two parts of the table.
pub free-allocated :
    (heap : Heap) (n i : ℕ)
    → IsValid heap
    → FreeRun heap (suc n) i
    → free (allocated heap (suc n) i) (heap.saddr + i * block_size) ≡ some heap
unfolding free
free-allocated heap n i v r =
    let before = take i heap.entries in
    let after = behind (suc n) i heap.entries in
    let block : address_to_block heap (heap.saddr + i * block_size) ≡ pos (length before) =
      address_to_block-own heap i n v r.fits ∙ ap pos (sym r.begins) in
    let restored : before ++ (replicate (suc n) entry_free ++ after) ≡ heap.entries = sym r.split in
    ap (mark_blocks_free (allocated heap (suc n) i)) block
    ∙ (mark_blocks_free-append before after n heap.total heap.saddr
          (omega (arith, r.fits, r.begins))
        ∙ ap (λ entries. some (with_entries heap entries)) restored)

-- On a valid heap with a run of n + 1 free blocks, heap_free of what heap_malloc_blocks returned
-- for n + 1 blocks gives back the heap as it was.
pub free-malloc_blocks :
    (heap : Heap) (n k : ℕ)
    → IsValid heap
    → free_prefix (suc n) (drop k heap.entries) ≡ true
    → free (malloc_blocks heap (suc n)).1 (malloc_blocks heap (suc n)).0 ≡ some heap
free-malloc_blocks heap n k v run =
    let (i, found, r, _) = malloc_blocks-fits heap n k v run in
    ap (λ (p : ℕ × Heap). free p.1 p.0) found ∙ free-allocated heap n i v r

pub length-cells : (n entry : ℕ) → length (cells n entry) ≡ n
length-cells zero entry = refl
length-cells (suc n) entry = ap suc (length-cells n (link n))

-- Marking a run of free blocks keeps the heap valid.
pub allocated-IsValid :
    (heap : Heap) (n i : ℕ)
    → IsValid heap
    → FreeRun heap (suc n) i
    → IsValid (allocated heap (suc n) i)
allocated-IsValid heap n i v r =
    let before = take i heap.entries in
    let after = behind (suc n) i heap.entries in
    let used = cells (suc n) (head_entry (suc n)) in
    let zeros = replicate (suc n) entry_free in
    record {
      sized = omega (
        arith,
        length-append before (used ++ after),
        length-append used after,
        length-cells (suc n) (head_entry (suc n)),
        length-append before (zeros ++ after),
        length-append zeros after,
        length-replicate {0} (suc n) entry_free,
        ap length r.split,
        v.sized,
      );
      chained = chain-parts before used after r.before (chain-cells n) r.after;
      nonnull = v.nonnull;
      small = v.small;
      placed = v.placed;
    }

-- On a valid heap with a run of n + 1 free blocks, heap_malloc_blocks for n + 1 blocks leaves a
-- valid heap.
pub malloc_blocks-IsValid :
    (heap : Heap) (n k : ℕ)
    → IsValid heap
    → free_prefix (suc n) (drop k heap.entries) ≡ true
    → IsValid (malloc_blocks heap (suc n)).1
malloc_blocks-IsValid heap n k v run =
    let (i, found, r, _) = malloc_blocks-fits heap n k v run in
    subst IsValid (ap (λ (p : ℕ × Heap). p.1) (sym found)) (allocated-IsValid heap n i v r)
