-- ===== src/Fat16/Search.antt =====
-- Finding an item in a directory: fat16_load_fat_directory to fat16_find_item_in_directory.
-- `none` stands for the return of a freed directory, the use of a null item or directory, a kfree
-- below the heap, a read out of bounds, an error of the count that is taken for a number, and too
-- little fuel to count the items of a directory.
use kernel_nesemulator.Prelude.{
  ℕ, zero, suc, ◌*◌, bit_and, Bool, true, false, Option, none, some, List, [], ◌∷◌, ◌==◌, ◌!=◌,
  if◌then◌else◌, ℤ, pos, negsuc,
}
use kernel_nesemulator.Heap.{Heap, malloc}
use kernel_nesemulator.Disk.{Platform}
use kernel_nesemulator.String.{istrncmp}
use kernel_nesemulator.Fat16.{
  DirectoryItem, FatDirectory, FatItem, Volume, get_first_cluster, cluster_to_sector,
}
use kernel_nesemulator.Fat16.Cluster.{Found, Reading, read_internal}
use kernel_nesemulator.Fat16.Name.{get_full_relative_filename}
use kernel_nesemulator.Fat16.Directory.{item_size, get_total_items_for_directory, decode_items}

abbrev pub file_subdirectory : ℕ
file_subdirectory = 0x10

-- A `struct fat_item`, its type, the addresses of it, of what it points to, and of the items if that
-- is a directory; `item` is what stands there, and `none` if the pointer is NULL.
pub record Held : Type 0 where
  pub address : ℕ
  pub is_directory : Bool
  pub content : ℕ
  pub items : ℕ
  pub item : Option FatItem

-- A pointer to an item, or NULL, with the volume and the kernel heap behind the search.
abbrev pub Sought : Type 0
Sought = Option (Option Held × (Volume × Heap))

-- Behind fat16_read_internal: a directory whose items could not be read is freed and returned.
abbrev pub loaded : ℕ → ℕ → ℕ → ℕ → Heap → Option Reading → Sought
loaded f_item directory items total heap none = none
loaded f_item directory items total heap (some (negsuc error, rest)) = none
loaded f_item directory items total heap (some (pos (suc res), rest)) = none
loaded f_item directory items total heap (some (pos zero, (bytes, volume))) = some (
  some (record {
    address = f_item;
    is_directory = true;
    content = directory;
    items = items;
    item = some (
        FatItem.directory (record {
          item = decode_items total bytes;
          total = pos total;
          sector_pos = 0;
          ending_sector_pos = 0;
        }));
  }),
  (volume, heap),
)

-- Behind kzalloc of the items: without memory, the directory is freed and returned.
abbrev pub read_items : Platform → Volume → ℕ → ℕ → ℕ → ℕ → ℕ × Heap → Sought
read_items platform volume cluster f_item directory total (items, heap) =
    if items == 0
    then none
    else loaded f_item directory items total heap
        (read_internal platform volume cluster 0 (total * item_size))

-- Behind fat16_get_total_items_for_directory, whose errors are taken for a number.
abbrev pub load_items : Platform → ℕ → ℕ → ℕ → Heap → Found → Sought
load_items platform cluster f_item directory heap none = none
load_items platform cluster f_item directory heap (some (negsuc error, volume)) = none
load_items platform cluster f_item directory heap (some (pos total, volume)) =
    read_items platform volume cluster f_item directory total (malloc heap (total * item_size))

abbrev pub load_from : ℕ → Platform → Volume → ℕ → ℕ → ℕ → Heap → ℤ → Sought
load_from fuel platform volume cluster f_item directory heap (negsuc sector) = none
load_from fuel platform volume cluster f_item directory heap (pos sector) =
    load_items platform cluster f_item directory heap
      (get_total_items_for_directory fuel platform volume sector)

-- Behind kzalloc of the directory, which has 16 bytes; without memory, NULL is returned.
abbrev pub load_into : ℕ → Platform → Volume → ℕ → ℕ → ℕ × Heap → Sought
load_into fuel platform volume cluster f_item (directory, heap) =
    if directory == 0
    then some (
      some (record { address = f_item; is_directory = true; content = 0; items = 0; item = none }),
      (volume, heap),
    )
    else load_from fuel platform volume cluster f_item directory heap
        (cluster_to_sector volume cluster)

-- Of an item that is a subdirectory, for the item at `f_item`.
unfoldable pub load_fat_directory : ℕ → Platform → Volume → DirectoryItem → ℕ → Heap → Sought
unfolding get_first_cluster cluster_to_sector
load_fat_directory fuel platform volume item f_item heap =
    load_into fuel platform volume (get_first_cluster item) f_item (malloc heap 16)

-- fat16_clone_directory_item behind kzalloc, whose result may be NULL.
abbrev pub clone_directory_item : Volume → DirectoryItem → ℕ → ℕ × Heap → Sought
clone_directory_item volume item f_item (item_copy, heap) = some (
  some (record {
    address = f_item;
    is_directory = false;
    content = item_copy;
    items = 0;
    item = if item_copy == 0 then none else some (FatItem.file item);
  }),
  (volume, heap),
)

-- Behind kzalloc of the item.
abbrev pub fill_item : ℕ → Platform → Volume → DirectoryItem → ℕ × Heap → Sought
fill_item fuel platform volume item (f_item, heap) =
    if f_item == 0
    then some (none, (volume, heap))
    else if bit_and item.attribute file_subdirectory != 0
    then load_fat_directory fuel platform volume item f_item heap
    else clone_directory_item volume item f_item (malloc heap item_size)

-- A `struct fat_item` has 8 bytes.
unfoldable pub new_fat_item : ℕ → Platform → Volume → Heap → DirectoryItem → Sought
unfolding load_fat_directory
new_fat_item fuel platform volume heap item = fill_item fuel platform volume item (malloc heap 8)

abbrev pub is_zero : Option ℤ → Option Bool
is_zero none = none
is_zero (some (pos zero)) = some true
is_zero (some (pos (suc n))) = some false
is_zero (some (negsuc n)) = some false

-- Whether an item has the name, letters of either case alike.
unfoldable pub has_name : List ℕ → DirectoryItem → Option Bool
unfolding get_full_relative_filename istrncmp
has_name name item = is_zero (istrncmp (get_full_relative_filename item 108) name 108)

-- One round of the `for`: `next` takes the item found so far. The one before is lost.
abbrev pub match_item :
    Option Held
    → Volume
    → Heap
    → Sought
    → (Option Held → Volume → Heap → Sought)
    → Option Bool
    → Sought
match_item f_item volume heap made next none = none
match_item f_item volume heap made next (some false) = next f_item volume heap
match_item f_item volume heap none next (some true) = none
match_item f_item volume heap (some (found, (after, left))) next (some true) = next found after left

-- The `for` over `count` of the items.
unfoldable pub find_items :
    ℕ → Platform → List ℕ → ℕ → List DirectoryItem → Option Held → Volume → Heap → Sought
unfolding has_name new_fat_item
find_items fuel platform name zero items f_item volume heap = some (f_item, (volume, heap))
find_items fuel platform name (suc count) [] f_item volume heap = none
find_items fuel platform name (suc count) (item ∷ items) f_item volume heap =
    match_item f_item volume heap (new_fat_item fuel platform volume heap item)
      (λ found after left. find_items fuel platform name count items found after left)
      (has_name name item)

abbrev pub rounds_of : ℤ → ℕ
rounds_of (pos total) = total
rounds_of (negsuc error) = 0

unfoldable pub find_item_in_directory :
    ℕ → Platform → Volume → Heap → FatDirectory → List ℕ → Sought
unfolding find_items
find_item_in_directory fuel platform volume heap directory name =
    find_items fuel platform name (rounds_of directory.total) directory.item none volume heap
