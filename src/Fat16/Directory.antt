-- ===== src/Fat16/Directory.antt =====
-- Directories: counting items, and loading the root directory into the kernel heap.
pub mod Count
use kernel_nesemulator.Prelude.{
  ℕ, zero, suc, ◌+◌, ◌*◌, ◌/◌, ◌%◌, Option, none, some, List, [], ◌∷◌, ◌==◌, ◌!=◌, if◌then◌else◌,
  get_or, slice, take, drop, ℤ, pos, negsuc, neg,
}
use kernel_nesemulator.Heap.{Heap, enomem, malloc, free}
use kernel_nesemulator.Disk.{Platform, eio}
use kernel_nesemulator.Disk.Stream.{DiskStream, Read, seek, read}
use kernel_nesemulator.Fat16.{DirectoryItem, FatDirectory, Volume, sector_to_absolute}
use kernel_nesemulator.Fat16.Cluster.{Found}

-- The size of a directory item in bytes.
abbrev pub item_size : ℕ
item_size = 32

abbrev pub with_directory_stream : Volume → DiskStream → Volume
with_directory_stream volume stream = record volume { directory_stream = stream }

-- Behind diskstreamer_read in the `while`: `i` items are counted, and `next` goes on.
abbrev pub count_item : Volume → ℕ → (Volume → ℕ → Found) → Option Read → Found
count_item volume i next none = none
count_item volume i next (some (negsuc error, (bytes, stream))) =
    some (neg eio, with_directory_stream volume stream)
count_item volume i next (some (pos (suc res), (bytes, stream))) =
    some (neg eio, with_directory_stream volume stream)
count_item volume i next (some (pos zero, (bytes, stream))) =
    let after = with_directory_stream volume stream in
    let first = get_or bytes 0 0 in
    if first == 0x00 then some (pos i, after) else next after (if first == 0xE5 then i else i + 1)

-- The `while` for as many rounds as there is fuel.
unfoldable pub count_items : ℕ → Platform → Volume → ℕ → Found
count_items zero platform volume i = none
count_items (suc fuel) platform volume i =
    count_item volume i (λ after counted. count_items fuel platform after counted)
      (read platform volume.directory_stream item_size)

-- Behind diskstreamer_seek.
abbrev pub count_from : ℕ → Platform → Volume → ℤ × DiskStream → Found
count_from fuel platform volume (negsuc error, stream) =
    some (neg eio, with_directory_stream volume stream)
count_from fuel platform volume (pos (suc res), stream) =
    some (neg eio, with_directory_stream volume stream)
count_from fuel platform volume (pos zero, stream) =
    count_items fuel platform (with_directory_stream volume stream) 0

unfoldable pub get_total_items_for_directory : ℕ → Platform → Volume → ℕ → Found
unfolding count_items seek
get_total_items_for_directory fuel platform volume directory_start_sector =
    count_from fuel platform volume
      (seek volume.directory_stream (directory_start_sector * volume.sector_size))

-- The fields of an item among its 32 bytes.
abbrev pub decode_item : List ℕ → DirectoryItem
decode_item bytes =
    let at = λ (i : ℕ). get_or bytes i 0 in
    record {
      filename = slice at 0 8;
      ext = slice at 8 3;
      attribute = at 11;
      high_16_bits_first_cluster = at 20 + 256 * at 21;
      low_16_bits_first_cluster = at 26 + 256 * at 27;
      filesize = at 28 + 256 * (at 29 + 256 * (at 30 + 256 * at 31));
    }

abbrev pub decode_items : ℕ → List ℕ → List DirectoryItem
decode_items zero bytes = []
decode_items (suc count) bytes = decode_item (take 32 bytes) ∷ decode_items count (drop 32 bytes)

-- The first sector of the root directory, and the number of its sectors.
unfoldable pub root_dir_sector_pos : Volume → ℕ
root_dir_sector_pos volume = volume.fat_copies * volume.sectors_per_fat + volume.reserved_sectors

unfoldable pub root_dir_sectors : Volume → ℕ
root_dir_sectors volume =
    let root_dir_size = volume.root_dir_entries * item_size in
    let total_sectors = root_dir_size / volume.sector_size in
    if root_dir_size % volume.sector_size != 0 then total_sectors + 1 else total_sectors

-- What loading the root directory gives: the result, the volume and the heap.
abbrev pub Loaded : Type 0
Loaded = Option (ℤ × (Volume × Heap))

-- `err_out` behind kzalloc: the memory is freed.
abbrev pub give_up : Volume → ℤ → Option Heap → Loaded
give_up volume res none = none
give_up volume res (some heap) = some (res, (volume, heap))

-- Behind the second diskstreamer_read: `directory` is filled in.
abbrev pub fill_directory : Volume → ℕ → Heap → ℤ → Option Read → Loaded
fill_directory volume dir heap total_items none = none
fill_directory volume dir heap total_items (some (negsuc error, (bytes, stream))) =
    give_up (with_directory_stream volume stream) (neg eio) (free heap dir)
fill_directory volume dir heap total_items (some (pos (suc res), (bytes, stream))) =
    give_up (with_directory_stream volume stream) (neg eio) (free heap dir)
fill_directory volume dir heap total_items (some (pos zero, (bytes, stream))) =
    let sector_pos = root_dir_sector_pos volume in
    some (
      pos 0,
      (
        record volume {
          directory_stream = stream;
          root_directory = record {
            item = decode_items volume.root_dir_entries bytes;
            total = total_items;
            sector_pos = sector_pos;
            ending_sector_pos = sector_pos + root_dir_sectors volume;
          };
        },
        heap,
      ),
    )

-- Behind the second diskstreamer_seek.
abbrev pub read_directory : Platform → Volume → ℕ → Heap → ℤ → ℤ × DiskStream → Loaded
read_directory platform volume dir heap total_items (negsuc error, stream) =
    give_up (with_directory_stream volume stream) (neg eio) (free heap dir)
read_directory platform volume dir heap total_items (pos (suc res), stream) =
    give_up (with_directory_stream volume stream) (neg eio) (free heap dir)
read_directory platform volume dir heap total_items (pos zero, stream) =
    fill_directory (with_directory_stream volume stream) dir heap total_items
      (read platform stream (volume.root_dir_entries * item_size))

-- Behind kzalloc.
abbrev pub load_directory : Platform → Volume → ℤ → ℕ × Heap → Loaded
load_directory platform volume total_items (dir, heap) =
    if dir == 0
    then some (neg enomem, (volume, heap))
    else read_directory platform volume dir heap total_items
        (seek volume.directory_stream (sector_to_absolute volume (root_dir_sector_pos volume)))

-- Behind fat16_get_total_items_for_directory, whose result is not tested.
abbrev pub allocate_directory : Platform → Heap → Found → Loaded
allocate_directory platform heap none = none
allocate_directory platform heap (some (total_items, volume)) =
    load_directory platform volume total_items (malloc heap (volume.root_dir_entries * item_size))

unfoldable pub get_root_directory : ℕ → Platform → Heap → Volume → Loaded
unfolding get_total_items_for_directory sector_to_absolute root_dir_sector_pos root_dir_sectors seek
get_root_directory fuel platform heap volume =
    allocate_directory platform heap
      (get_total_items_for_directory fuel platform volume (root_dir_sector_pos volume))
