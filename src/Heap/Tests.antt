-- ===== src/Heap/Tests.antt =====
-- A small heap of four blocks at 0x2000, the first of them taken.
use kernel_nesemulator.Prelude.{
  ℕ, zero, suc, ◌+◌, ◌*◌, ◌%◌, ◌^◌, get_or, ◌*◌, ◌<◌, ◌≤◌, ◌≡◌, inl, refl, ap, true, false, some,
  List, [], ◌∷◌, length, take, drop, arith,
}
use kernel_nesemulator.Heap.{
  Heap, block_size, block_or_enomem, get_start_block, malloc_blocks, free, create, get_entry_type,
}
use kernel_nesemulator.Heap.Search.{first_fit, free_prefix, all_free, get_start_block_lem}
use kernel_nesemulator.Heap.Chain.{chain}
use kernel_nesemulator.Heap.RoundTrip.{IsValid, FreeRun, allocated}
use kernel_nesemulator.Heap.Claims.{malloc_blocks-fits, free-malloc_blocks, malloc_blocks-IsValid}
use kernel_nesemulator.Heap.Limits.{malloc_blocks-overruns, Created, create-Created}
use kernel_nesemulator.Heap.Free.{Released, free-Released}

abbrev small_table : List ℕ
small_table = 0x41 ∷ 0 ∷ 0 ∷ 0 ∷ []

abbrev small : Heap
small = record { entries = small_table; total = 4; saddr = 0x2000 }

small-IsValid : IsValid small
unfolding chain
small-IsValid = record {
  sized = refl;
  chained = refl;
  nonnull = omega arith;
  small = omega arith;
  placed = omega arith;
}

small-run : free_prefix 2 (drop 1 small_table) ≡ true
unfolding free_prefix get_entry_type
small-run = refl

get_start_block_lem_example :
    get_start_block small 2 ≡ block_or_enomem (first_fit 2 (take 4 small_table))
get_start_block_lem_example = get_start_block_lem small 2 (omega arith)

malloc_blocks-fits_example :
    (i : ℕ) × (malloc_blocks small 2 ≡ (0x2000 + i * block_size, allocated small 2 i))
    × FreeRun small 2 i
    × (i ≤ 1)
malloc_blocks-fits_example = malloc_blocks-fits small 1 1 small-IsValid small-run

free-malloc_blocks_example : free (malloc_blocks small 2).1 (malloc_blocks small 2).0 ≡ some small
free-malloc_blocks_example = free-malloc_blocks small 1 1 small-IsValid small-run

malloc_blocks-IsValid_example : IsValid (malloc_blocks small 2).1
malloc_blocks-IsValid_example = malloc_blocks-IsValid small 1 1 small-IsValid small-run

free-Released_example : Released small 0
free-Released_example = free-Released small 0 0x41 small-IsValid refl (inl refl)

drop-nil : (k : ℕ) → drop {A = ℕ} k [] ≡ []
drop-nil zero = refl
drop-nil (suc k) = refl

no_run_of_four : (k : ℕ) → free_prefix 4 (drop k (take 4 small_table)) ≡ false
unfolding free_prefix get_entry_type
no_run_of_four zero = refl
no_run_of_four (suc zero) = refl
no_run_of_four (suc (suc zero)) = refl
no_run_of_four (suc (suc (suc zero))) = refl
no_run_of_four (suc (suc (suc (suc k)))) = ap (free_prefix 4) (drop-nil k)

last_free : all_free (drop 2 (take 4 small_table)) ≡ true
unfolding all_free get_entry_type
last_free = refl

malloc_blocks-overruns_example :
    (i : ℕ) × ((malloc_blocks small 4).0 ≡ (0x2000 + i * 4096) % 2 ^ 32)
    × (get_entry_type (get_or (take 4 small_table) i 1) ≡ 0)
    × (i < length (take 4 small_table))
    × (length (take 4 small_table) < i + 4)
malloc_blocks-overruns_example =
    malloc_blocks-overruns small 4 2 (omega arith) no_run_of_four (omega arith) last_free

abbrev full_table : List ℕ
full_table = 0 ∷ 0x41 ∷ []

abbrev full : Heap
full = record { entries = full_table; total = 2; saddr = 0x2000 }

no_run_of_two : (k : ℕ) → free_prefix 2 (drop k (take 2 full_table)) ≡ false
unfolding free_prefix get_entry_type
no_run_of_two zero = refl
no_run_of_two (suc zero) = refl
no_run_of_two (suc (suc k)) = ap (free_prefix 2) (drop-nil k)

last_taken :
    (j : ℕ) → j < length (take 2 full_table) → all_free (drop j (take 2 full_table)) ≡ false
unfolding all_free get_entry_type
last_taken zero h = refl
last_taken (suc zero) h = refl
last_taken (suc (suc j)) h = absurd (omega arith)

create-Created_example : Created 0x2000 0x4000 2 (create small 0x2000 0x4000 (7 ∷ 9 ∷ []) 2)
create-Created_example =
    create-Created small 0x2000 0x4000 (7 ∷ 9 ∷ []) (omega arith) (omega arith) (omega arith)
      (omega arith)
