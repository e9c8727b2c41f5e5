-- ===== src/Paging.antt =====
-- Page tables: memory/paging/paging.c and paging.h, without `paging_new_4gb` and `paging_free_4gb`.
-- Memory gives the 32-bit word at each byte address; directories and tables are arrays of words in
-- it.
pub mod Walk
pub mod Range
mod Tests
use kernel_nesemulator.Prelude.{
  ℕ, zero, suc, ◌+◌, ◌-◌, ◌*◌, ◌/◌, ◌%◌, ◌^◌, bit_and, bit_or, Bool, true, false, not, ◌||◌, Option,
  none, some, ltb, ◌==◌, ◌!=◌, if◌then◌else◌, u32, ℤ, pos, negsuc, neg,
}
use kernel_nesemulator.Heap.{einvarg}

abbrev pub entries_per_table : ℕ
entries_per_table = 1024

abbrev pub page_size : ℕ
page_size = 4096

abbrev pub Memory : Type 0
Memory = ℕ → ℕ

-- `array[index]` of 32-bit words, and the store into it.
abbrev pub word_at : Memory → ℕ → ℕ → ℕ
word_at memory array index = memory (array + 4 * index)

abbrev pub with_word : Memory → ℕ → ℕ → ℕ → Memory
with_word memory array index value = λ i. if i == array + 4 * index then value else memory i

unfoldable pub is_aligned : ℕ → Bool
is_aligned addr = addr % page_size == 0

-- `none` for -EINVARG, and else what the two pointers receive.
unfoldable pub get_indexes : ℕ → Option (ℕ × ℕ)
unfolding is_aligned
get_indexes virtual_address =
    if not (is_aligned virtual_address)
    then none
    else some (
      virtual_address / (entries_per_table * page_size),
      virtual_address % (entries_per_table * page_size) / page_size,
    )

-- Behind the call of `paging_get_indexes`.
abbrev pub store_entry : Memory → ℕ → ℕ → Option (ℕ × ℕ) → ℤ × Memory
store_entry memory directory val none = (neg einvarg, memory)
store_entry memory directory val (some (directory_index, table_index)) =
    let entry = word_at memory directory directory_index in
    let table = bit_and entry 0xfffff000 in (pos 0, with_word memory table table_index val)

unfoldable pub set : Memory → ℕ → ℕ → ℕ → ℤ × Memory
unfolding get_indexes is_aligned
set memory directory virt val =
    if not (is_aligned virt)
    then (neg einvarg, memory)
    else store_entry memory directory val (get_indexes virt)

unfoldable pub align_address : ℕ → ℕ
align_address ptr = if ptr % page_size != 0 then u32 (ptr + page_size - ptr % page_size) else ptr

-- `flags` is the `int` as the `uint32_t` that `|` makes of it.
unfoldable pub map : Memory → ℕ → ℕ → ℕ → ℕ → ℤ × Memory
unfolding set
map memory directory virt phys flags =
    if (virt % page_size != 0) || (phys % page_size != 0)
    then (neg einvarg, memory)
    else set memory directory virt (bit_or phys flags)

-- The rest of the loop behind one call of `paging_map`.
abbrev pub continue_range : ℤ × Memory → (Memory → ℤ × Memory) → ℤ × Memory
continue_range (pos zero, memory) rest = (pos 0, memory)
continue_range (pos (suc r), memory) rest = rest memory
continue_range (negsuc r, memory) rest = rest memory

-- The `for` of `paging_map_range` with `count` rounds left; `res` is what the round before gave.
unfoldable pub range_loop : ℕ → ℤ → Memory → ℕ → ℕ → ℕ → ℕ → ℤ × Memory
unfolding map
range_loop zero res memory directory virt phys flags = (res, memory)
range_loop (suc count) res memory directory virt phys flags =
    let mapped = map memory directory virt phys flags in
    continue_range mapped (λ after.
      range_loop count mapped.0 after directory (u32 (virt + page_size)) (u32 (phys + page_size))
        flags)

unfoldable pub map_range : Memory → ℕ → ℕ → ℕ → ℕ → ℕ → ℤ × Memory
unfolding range_loop
map_range memory directory virt phys count flags =
    range_loop count (pos 0) memory directory virt phys flags

unfoldable pub map_to : Memory → ℕ → ℕ → ℕ → ℕ → ℕ → ℤ × Memory
unfolding map_range
map_to memory directory virt phys phys_end flags =
    if virt % page_size != 0
    then (neg einvarg, memory)
    else if phys % page_size != 0
    then (neg einvarg, memory)
    else if phys_end % page_size != 0
    then (neg einvarg, memory)
    else if ltb phys_end phys
    then (neg einvarg, memory)
    else map_range memory directory virt phys ((phys_end - phys) / page_size) flags
