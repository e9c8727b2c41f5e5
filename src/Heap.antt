-- ===== src/Heap.antt =====
-- The kernel heap: memory/heap/heap.c and memory/heap/kheap.c, with config.h and status.h.
-- `Heap` is `struct heap` together with the table that it points to.
pub mod Search
pub mod Chain
pub mod Mark
pub mod RoundTrip
pub mod Claims
pub mod Limits
pub mod Free
pub mod Sequence
mod Tests
use kernel_nesemulator.Prelude.{
  ℕ, zero, suc, ◌+◌, ◌-◌, ◌*◌, ◌/◌, ◌%◌, ◌^◌, bit_and, bit_or, Bool, true, false, not, ◌&&◌, ◌||◌,
  Option, none, some, List, [], ◌∷◌, ltb, leb, ◌==◌, ◌!=◌, if◌then◌else◌, length, get_or, set, take,
  drop, replicate, u8, u32, ℤ, pos, negsuc, neg, ◌++◌,
}

abbrev pub block_size : ℕ
block_size = 4096

abbrev pub heap_size_bytes : ℕ
heap_size_bytes = 104857600

abbrev pub heap_address : ℕ
heap_address = 0x01000000

abbrev pub einvarg : ℕ
einvarg = 2

abbrev pub enomem : ℕ
enomem = 3

abbrev pub entry_taken : ℕ
entry_taken = 0x01

abbrev pub entry_free : ℕ
entry_free = 0x00

abbrev pub has_next : ℕ
has_next = 0b10000000

abbrev pub is_first : ℕ
is_first = 0b01000000

-- `entries` is the memory from `table->entries` on; the table is its first `total` bytes.
pub record Heap : Type 0 where
  pub entries : List ℕ
  pub total : ℕ
  pub saddr : ℕ

unfoldable pub validate_table : ℕ → ℕ → ℕ → ℤ
validate_table start finish total =
    let total_blocks = u32 (finish + 2 ^ 32 - start) / block_size in
    if total != total_blocks then neg einvarg else pos 0

unfoldable pub validate_alignment : ℕ → Bool
validate_alignment ptr = ptr % block_size == 0

-- `memset(entries, HEAP_BLOCK_TABLE_ENTRY_FREE, total)`
abbrev pub clear_table : List ℕ → ℕ → List ℕ
clear_table entries total = replicate total entry_free ++ drop total entries

-- `heap` is what `*heap` holds before the call; the table is that of `entries` and `total`.
unfoldable pub create : Heap → ℕ → ℕ → List ℕ → ℕ → ℤ × Heap
unfolding validate_table validate_alignment
create heap start finish entries total =
    let attached : Heap = record { entries = entries; total = total; saddr = start } in
    let cleared : Heap = record attached { entries = clear_table entries total } in
    if not (validate_alignment start) || not (validate_alignment finish)
    then (neg einvarg, heap)
    else elim (validate_table start finish total) [
      | pos r ↦ (pos r, cleared)
      | negsuc r ↦ (negsuc r, attached)
    ]

unfoldable pub align_value_to_upper : ℕ → ℕ
align_value_to_upper val =
    if val % block_size == 0 then val else u32 (val - val % block_size + block_size)

unfoldable pub get_entry_type : ℕ → ℕ
get_entry_type entry = bit_and entry 0x0f

-- The `for` of `heap_get_start_block` over the entries that are left, from index `i` on.
-- `bs` is `none` for -1.
unfoldable pub search_loop : ℕ → List ℕ → ℕ → ℕ → Option ℕ → Option ℕ
search_loop total_blocks [] i bc bs = bs
search_loop total_blocks (entry ∷ rest) i bc bs =
    let first : ℕ = elim bs [ none ↦ i | some b ↦ b ] in
    let skip = search_loop total_blocks rest (i + 1) 0 none in
    let more = search_loop total_blocks rest (i + 1) (bc + 1) (some first) in
    if get_entry_type entry != entry_free
    then skip
    else if bc + 1 == total_blocks
    then some first
    else more

-- The test of `bs == -1` behind the loop.
abbrev pub block_or_enomem : Option ℕ → ℤ
block_or_enomem none = neg enomem
block_or_enomem (some bs) = pos bs

unfoldable pub get_start_block : Heap → ℕ → ℤ
unfolding search_loop get_entry_type
get_start_block heap total_blocks =
    block_or_enomem (search_loop total_blocks (take heap.total heap.entries) 0 0 none)

unfoldable pub block_to_address : Heap → ℕ → ℕ
block_to_address heap block = u32 (heap.saddr + block * block_size)

-- The `for` of `heap_mark_blocks_taken`, with the number of rounds that are left.
unfoldable pub mark_loop : ℕ → List ℕ → ℕ → ℕ → ℕ → List ℕ
mark_loop zero entries i end_block entry = entries
mark_loop (suc rounds) entries i end_block entry =
    mark_loop rounds (set entries i entry) (i + 1) end_block
      (if i + 1 != end_block then bit_or entry_taken has_next else entry_taken)

unfoldable pub mark_blocks_taken : Heap → ℕ → ℕ → Heap
unfolding mark_loop
mark_blocks_taken heap start_block total_blocks =
    let end_block = start_block + total_blocks - 1 in
    let entry = bit_or entry_taken is_first in
    let head = if ltb 1 total_blocks then bit_or entry has_next else entry in
    record heap { entries = mark_loop total_blocks heap.entries start_block end_block head }

-- Behind the test of `start_block < 0`. The address is 0 for `NULL`.
abbrev pub hand_out : Heap → ℕ → ℤ → ℕ × Heap
hand_out heap total_blocks (pos start_block) =
    (block_to_address heap start_block, mark_blocks_taken heap start_block total_blocks)
hand_out heap total_blocks (negsuc _) = (0, heap)

unfoldable pub malloc_blocks : Heap → ℕ → ℕ × Heap
unfolding get_start_block block_to_address mark_blocks_taken
malloc_blocks heap total_blocks = hand_out heap total_blocks (get_start_block heap total_blocks)

-- The `for` of `heap_mark_blocks_free`, with the number of rounds up to `total`.
unfoldable pub free_loop : ℕ → List ℕ → ℕ → List ℕ
free_loop zero entries i = entries
free_loop (suc rounds) entries i =
    let entry = get_or entries i 0 in
    let freed = set entries i entry_free in
    let rest = free_loop rounds freed (i + 1) in if bit_and entry has_next == 0 then freed else rest

-- `none` for a negative block, where the loop begins below the table.
unfoldable pub mark_blocks_free : Heap → ℤ → Option Heap
unfolding free_loop
mark_blocks_free heap (pos i) =
    some (record heap { entries = free_loop (heap.total - i) heap.entries i })
mark_blocks_free heap (negsuc i) = none

-- The difference is an `int`, and C's division cuts towards 0.
unfoldable pub address_to_block : Heap → ℕ → ℤ
address_to_block heap address =
    let distance = u32 (address + 2 ^ 32 - heap.saddr) in
    if ltb distance (2 ^ 31)
    then pos (distance / block_size)
    else neg ((2 ^ 32 - distance) / block_size)

unfoldable pub malloc : Heap → ℕ → ℕ × Heap
unfolding align_value_to_upper malloc_blocks
malloc heap size = malloc_blocks heap (align_value_to_upper size / block_size)

unfoldable pub free : Heap → ℕ → Option Heap
unfolding mark_blocks_free address_to_block
free heap ptr = mark_blocks_free heap (address_to_block heap ptr)

-- `kheap_init`, over the memory at `PEACHOS_HEAP_TABLE_ADDRESS`; `heap` is `kernel_heap` before it.
pub kheap_init : Heap → List ℕ → ℤ × Heap
unfolding create
kheap_init heap memory =
    create heap heap_address (heap_address + heap_size_bytes) memory (heap_size_bytes / block_size)
