-- ===== src/Fat16/Open.antt =====
-- Opening files: fat16_fat_item_free, fat16_get_directory_entry and fat16_open. `none` stands for
-- what it stands for in Search.
use kernel_nesemulator.Prelude.{ℕ, Bool, Option, none, some, List, [], ◌∷◌, ◌==◌, if◌then◌else◌}
use kernel_nesemulator.Heap.{Heap, malloc, free, enomem}
use kernel_nesemulator.Disk.{Platform, eio}
use kernel_nesemulator.Fat16.{FatItem, Volume}
use kernel_nesemulator.Fat16.Search.{Held, Sought, find_item_in_directory}

abbrev pub erdonly : ℕ
erdonly = 6

abbrev pub then_free : Option Heap → ℕ → Option Heap
then_free none ptr = none
then_free (some heap) ptr = free heap ptr

unfoldable pub free_directory : Held → Heap → Option Heap
free_directory item heap =
    if item.content == 0
    then some heap
    else then_free (if item.items == 0 then some heap else free heap item.items) item.content

unfoldable pub fat_item_free : Held → Heap → Option Heap
unfolding free_directory
fat_item_free item heap =
    then_free (if item.is_directory then free_directory item heap else free heap item.content)
      item.address

abbrev pub with_heap : Option Held → Volume → Option Heap → Sought
with_heap item volume none = none
with_heap item volume (some heap) = some (item, (volume, heap))

-- Behind the search in a directory of the path, which is freed then.
abbrev pub release : Held → Sought → Sought
release current_item none = none
release current_item (some (tmp_item, (volume, heap))) =
    with_heap tmp_item volume (fat_item_free current_item heap)

abbrev pub enter : ℕ → Platform → Volume → Heap → List ℕ → Held → Option FatItem → Sought
enter fuel platform volume heap part current_item none = none
enter fuel platform volume heap part current_item (some (FatItem.file item)) = none
enter fuel platform volume heap part current_item (some (FatItem.directory directory)) =
    release current_item (find_item_in_directory fuel platform volume heap directory part)

-- The `while` over the parts that are left. A null item in front of a further part is used all the
-- same; a file there is lost.
unfoldable pub walk_parts : ℕ → Platform → List (List ℕ) → Sought → Sought
unfolding find_item_in_directory fat_item_free
walk_parts fuel platform parts none = none
walk_parts fuel platform [] (some (current_item, state)) = some (current_item, state)
walk_parts fuel platform (part ∷ parts) (some (none, state)) = none
walk_parts fuel platform (part ∷ parts) (some (some current_item, (volume, heap))) =
    let rest =
      walk_parts fuel platform parts
        (enter fuel platform volume heap part current_item current_item.item) in
    if current_item.is_directory then rest else some (none, (volume, heap))

-- Behind the search in the root directory.
abbrev pub behind_root : ℕ → Platform → List (List ℕ) → Sought → Sought
behind_root fuel platform parts none = none
behind_root fuel platform parts (some (none, state)) = some (none, state)
behind_root fuel platform parts (some (some item, state)) =
    walk_parts fuel platform parts (some (some item, state))

-- `path` is not empty.
unfoldable pub get_directory_entry : ℕ → Platform → Volume → Heap → List ℕ → List (List ℕ) → Sought
unfolding walk_parts find_item_in_directory
get_directory_entry fuel platform volume heap part parts =
    behind_root fuel platform parts
      (find_item_in_directory fuel platform volume heap volume.root_directory part)

-- `struct fat_file_descriptor` in the kernel heap.
pub record OpenDescriptor : Type 0 where
  pub address : ℕ
  pub item : Held
  pub pos : ℕ

-- A descriptor, or the error that fat16_open returns in place of its address.
pub data Opened : Type 0 where
  failed : ℕ → Opened
  opened : OpenDescriptor → Opened

-- `err_out` with a descriptor.
abbrev pub give_up : Volume → ℕ → Option Heap → Option (Opened × (Volume × Heap))
give_up volume err_code none = none
give_up volume err_code (some heap) = some (failed err_code, (volume, heap))

abbrev pub make_descriptor : ℕ → Sought → Option (Opened × (Volume × Heap))
make_descriptor descriptor none = none
make_descriptor descriptor (some (none, (volume, heap))) = give_up volume eio (free heap descriptor)
make_descriptor descriptor (some (some item, state)) =
    some (opened (record { address = descriptor; item = item; pos = 0 }), state)

-- Behind kzalloc of the descriptor.
abbrev pub open_item :
    ℕ → Platform → Volume → List ℕ → List (List ℕ) → ℕ × Heap → Option (Opened × (Volume × Heap))
open_item fuel platform volume part parts (descriptor, heap) =
    if descriptor == 0
    then some (failed enomem, (volume, heap))
    else make_descriptor descriptor (get_directory_entry fuel platform volume heap part parts)

-- `is_read` tells whether the mode is FILE_MODE_READ. A descriptor has 8 bytes.
unfoldable pub open_file :
    ℕ → Platform → Volume → Heap → List ℕ → List (List ℕ) → Bool → Option (Opened × (Volume × Heap))
unfolding get_directory_entry
open_file fuel platform volume heap part parts is_read =
    if is_read
    then open_item fuel platform volume part parts (malloc heap 8)
    else some (failed erdonly, (volume, heap))
