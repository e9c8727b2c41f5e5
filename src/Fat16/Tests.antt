-- ===== src/Fat16/Tests.antt =====
-- A small volume: clusters of one sector, the table in sector 1, a file in the clusters 2 and 5.
mod Opening
use kernel_nesemulator.Prelude.{
  ℕ, zero, suc, ◌+◌, ◌*◌, ◌/◌, ◌%◌, ◌^◌, ◌<◌, ◌≤◌, ◌≡◌, ◌≢◌, refl, ap, get_or, true, some, List, [],
  ◌∷◌, ◌++◌, ◌-◌, ◌==◌, if◌then◌else◌, length, replicate, slice, pos, arith, inr,
}
use kernel_nesemulator.Disk.{Command, Platform, eio}
use kernel_nesemulator.Disk.Controller.{Serves, sector_of}
use kernel_nesemulator.Fat16.{
  DirectoryItem, FatItem, Volume, get_first_cluster, size_of_cluster_bytes,
}
use kernel_nesemulator.Fat16.Cluster.{get_cluster_for_offset, read_internal}
use kernel_nesemulator.Fat16.File.{read}
use kernel_nesemulator.Fat16.Name.{
  get_full_relative_filename, dotted, is_name, get_full_relative_filename-dotted,
}
use kernel_nesemulator.Fat16.Directory.{get_total_items_for_directory}
use kernel_nesemulator.Fat16.Directory.Count.{used_items, directory_at, get_total_items-used}
use kernel_nesemulator.Fat16.Chain.{
  chain_walk, streams_at, cluster_or_eio, Walked, get_cluster_for_offset-chain_walk,
}
use kernel_nesemulator.Fat16.Content.{
  cluster_start, file_byte, IsStored, IsMounted, Gives, read_internal-disk,
}
use kernel_nesemulator.Heap.{Heap, get_entry_type}
use kernel_nesemulator.Heap.Search.{free_prefix}
use kernel_nesemulator.Heap.Chain.{chain}
use kernel_nesemulator.Heap.Sequence.{Left, free_blocks}
use kernel_nesemulator.String.{tolower}
use kernel_nesemulator.String.Compare.{no_nul, lower}
use kernel_nesemulator.Fat16.Open.{opened, failed, open_file}
use kernel_nesemulator.Fat16.Named.{IsNamed}
use kernel_nesemulator.Fat16.Lookup.{
  AllOther, no_items, other, held_file, open_file-root, open_file-missing,
}
use kernel_nesemulator.Fat16.Reading.{FitClusters, read-file_byte}

-- Entry 2 is 5, entry 5 is 0xFFFF, and the directory in sector 8 ends with its third item.
abbrev byte : ℕ → ℕ
byte i =
    if i == 516
    then 5
    else if i == 517
    then 0
    else if (i == 522)
    then 255
    else if i == 523
    then 255
    else if i == 4128
    then 0xE5
    else if i == 4160
    then 0
    else i % 251

abbrev drive : Command → ℕ → ℕ
drive c i = byte (512 * sector_of c + 2 * i) + 256 * byte (512 * sector_of c + 2 * i + 1)

abbrev pub platform : Platform
platform = record { drive = drive; disk = 0x9000 }

served : Serves drive byte
served = record { bytes = λ i. ground arith; words = λ c i h. refl }

abbrev pub volume : Volume
volume = record {
  sector_size = 512;
  sectors_per_cluster = 1;
  reserved_sectors = 1;
  fat_copies = 1;
  root_dir_entries = 16;
  sectors_per_fat = 2;
  root_directory = record { item = []; total = pos 0; sector_pos = 3; ending_sector_pos = 4 };
  cluster_read_stream = record { pos = 0; disk = 0x9000 };
  fat_read_stream = some (record { pos = 0; disk = 0x9000 });
  directory_stream = record { pos = 0; disk = 0x9000 };
}

mounted : IsMounted platform byte volume
unfolding size_of_cluster_bytes
mounted = record { serves = served; table_small = omega arith; nonzero = omega arith }

two_clusters : IsStored byte volume 2 1024
unfolding size_of_cluster_bytes chain_walk
two_clusters zero h = (2, (refl, (omega arith, omega arith)))
two_clusters (suc zero) h = (5, (refl, (omega arith, omega arith)))
two_clusters (suc (suc k)) h = absurd (omega arith)

get_cluster_for_offset-chain_walk_example :
    Walked platform volume 0
      (get_cluster_for_offset platform (streams_at platform volume 0 0) 2 600)
      (cluster_or_eio (chain_walk byte volume (600 / size_of_cluster_bytes volume) 2))
get_cluster_for_offset-chain_walk_example =
    get_cluster_for_offset-chain_walk platform byte volume 0 0 2 600 served mounted.table_small
      mounted.nonzero (omega arith)

aligned : 0 % size_of_cluster_bytes volume ≡ 0
unfolding size_of_cluster_bytes
aligned = refl

first_cluster : chain_walk byte volume (500 / size_of_cluster_bytes volume) 2 ≡ some 2
unfolding size_of_cluster_bytes chain_walk
first_cluster = refl

short : 30 ≤ size_of_cluster_bytes volume
unfolding size_of_cluster_bytes
short = omega arith

placed : cluster_start volume 2 + 2 * size_of_cluster_bytes volume < 2 ^ 31
unfolding size_of_cluster_bytes
placed = omega arith

read_internal-disk_example :
    Gives platform volume
      (read_internal platform (streams_at platform volume 0 0) 2 500 30)
      byte
      (cluster_start volume 2 + 500 % size_of_cluster_bytes volume)
      30
read_internal-disk_example =
    read_internal-disk platform byte volume 2 500 30 0 0 2 mounted (omega arith) short first_cluster
      (omega arith) placed

abbrev pub readme : DirectoryItem
readme = record {
  filename = 0x52 ∷ 0x45 ∷ 0x41 ∷ 0x44 ∷ 0x20 ∷ 0x20 ∷ 0x20 ∷ 0x20 ∷ [];
  ext = 0x4D ∷ 0x45 ∷ 0x20 ∷ [];
  attribute = 0;
  high_16_bits_first_cluster = 0;
  low_16_bits_first_cluster = 2;
  filesize = 1024;
}

fits : FitClusters volume 256 256 3
unfolding size_of_cluster_bytes
fits i h = inr (omega arith)

readme-start : get_first_cluster readme < 65536
unfolding get_first_cluster
readme-start = omega arith

readme-IsStored : IsStored byte volume (get_first_cluster readme) 1024
unfolding get_first_cluster
readme-IsStored = two_clusters

read-file_byte_example :
    (f' : ℕ) × ((p' : ℕ) × (read platform
          (streams_at platform volume 0 0)
          (record { item = FatItem.file readme; pos = 256 })
          256
          3
        ≡ some (
          pos 3,
          (
            slice (file_byte byte volume (get_first_cluster readme)) 256 (3 * 256),
            (
              streams_at platform volume f' p',
              record { item = FatItem.file readme; pos = 256 + 3 * 256 },
            ),
          ),
        )))
read-file_byte_example =
    read-file_byte platform byte volume readme 1024 256 256 3 0 0 mounted readme-start (omega arith)
      (omega arith) readme-IsStored fits

abbrev pub stem : List ℕ
stem = 0x52 ∷ 0x45 ∷ 0x41 ∷ 0x44 ∷ []

abbrev pub extension : List ℕ
extension = 0x4D ∷ 0x45 ∷ []

stem-is_name : is_name stem ≡ true
unfolding is_name
stem-is_name = refl

extension-is_name : is_name extension ≡ true
unfolding is_name
extension-is_name = refl

get_full_relative_filename-dotted_example :
    get_full_relative_filename readme 108
    ≡ dotted stem extension ++ replicate (108 - length (dotted stem extension)) 0
get_full_relative_filename-dotted_example =
    get_full_relative_filename-dotted readme stem extension 108 refl refl stem-is_name
      extension-is_name (omega arith) (omega arith)

three_items : (k : ℕ) → k < 2 → byte (8 * 512 + 32 * k) ≢ 0
three_items zero h e = absurd (omega arith)
three_items (suc zero) h e = absurd (omega arith)
three_items (suc (suc k)) h e = absurd (omega arith)

get_total_items-used_example :
    get_total_items_for_directory 3 platform (directory_at platform volume 0) 8
    ≡ some (pos (used_items byte (8 * 512) 2), directory_at platform volume (8 * 512 + 32 * 3))
get_total_items-used_example =
    get_total_items-used platform byte volume 2 3 0 8 served (omega arith) (omega arith) three_items
      refl

-- One of the two items is unused.
one_used : used_items byte (8 * 512) 2 ≡ 1
unfolding used_items
one_used = refl
