-- ===== src/Fat16.antt =====
-- FAT16 volumes: fs/fat/fat16.c. Here: the volume's state, directory items, clusters and sectors.
-- Quantities that are C ints are natural numbers where they cannot be negative, and do not wrap.
pub mod Cluster
pub mod File
pub mod Name
pub mod Directory
pub mod Search
pub mod Named
pub mod Open
pub mod Lookup
pub mod Chain
pub mod Content
pub mod Reading
mod Tests
use kernel_nesemulator.Prelude.{
  ℕ, zero, suc, ◌+◌, ◌-◌, ◌*◌, ◌/◌, ◌%◌, bit_or, Option, none, some, List, leb, if◌then◌else◌, ℤ,
  pos, negsuc,
}
use kernel_nesemulator.Disk.Stream.{DiskStream}

-- A directory item as it stands on the disk, without the fields that the code never reads.
pub record DirectoryItem : Type 0 where
  pub filename : List ℕ
  pub ext : List ℕ
  pub attribute : ℕ
  pub high_16_bits_first_cluster : ℕ
  pub low_16_bits_first_cluster : ℕ
  pub filesize : ℕ

pub record FatDirectory : Type 0 where
  pub item : List DirectoryItem
  pub total : ℤ
  pub sector_pos : ℕ
  pub ending_sector_pos : ℕ

-- An item with its tag.
pub data FatItem : Type 0 where
  directory : FatDirectory → FatItem
  file : DirectoryItem → FatItem

pub record FileDescriptor : Type 0 where
  pub item : FatItem
  pub pos : ℕ

-- The disk with its private data. The streams belong to disk 0, which is there, but the code asks
-- whether fat_read_stream is.
pub record Volume : Type 0 where
  pub sector_size : ℕ
  pub sectors_per_cluster : ℕ
  pub reserved_sectors : ℕ
  pub fat_copies : ℕ
  pub root_dir_entries : ℕ
  pub sectors_per_fat : ℕ
  pub root_directory : FatDirectory
  pub cluster_read_stream : DiskStream
  pub fat_read_stream : Option DiskStream
  pub directory_stream : DiskStream

unfoldable pub sector_to_absolute : Volume → ℕ → ℕ
sector_to_absolute volume sector = sector * volume.sector_size

unfoldable pub get_first_cluster : DirectoryItem → ℕ
get_first_cluster item = bit_or item.high_16_bits_first_cluster item.low_16_bits_first_cluster

-- `a - b` over int
abbrev pub minus : ℕ → ℕ → ℤ
minus a b = if leb b a then ℤ.pos (a - b) else negsuc (b - a - 1)

-- `base + (cluster - 2) * count`, for an int `cluster`
unfoldable pub cluster_to_sector : Volume → ℕ → ℤ
cluster_to_sector volume cluster =
    minus (volume.root_directory.ending_sector_pos + cluster * volume.sectors_per_cluster)
      (2 * volume.sectors_per_cluster)

unfoldable pub get_first_fat_sector : Volume → ℕ
get_first_fat_sector volume = volume.reserved_sectors

unfoldable pub size_of_cluster_bytes : Volume → ℕ
size_of_cluster_bytes volume = volume.sectors_per_cluster * volume.sector_size
