-- ===== src/Fat16/Chain.antt =====
-- The clusters of a file as the table on the disk links them, and the code's walk along them.
use kernel_nesemulator.Prelude.{
  ℕ, zero, suc, ◌+◌, ◌*◌, ◌/◌, ◌^◌, ◌<◌, ◌≡◌, refl, ap, false, Bool, ◌||◌, List, [], ◌∷◌, Option,
  none, some, ◌==◌, if◌then◌else◌, ℤ, pos, neg, arith, Bool-cases, inl, inr,
}
use kernel_nesemulator.Disk.{Platform, eio}
use kernel_nesemulator.Disk.Controller.{Serves}
use kernel_nesemulator.Disk.Stream.{seek}
use kernel_nesemulator.Disk.Stream.Content.{read-content}
use kernel_nesemulator.Fat16.{Volume, size_of_cluster_bytes, get_first_fat_sector}
use kernel_nesemulator.Fat16.Cluster.{
  Found, ends_search, entry_of, get_fat_entry, follow, get_cluster_for_offset,
}

-- The table's entry of a cluster, on the disk.
abbrev pub entry : (ℕ → ℕ) → Volume → ℕ → ℕ
entry content volume cluster =
    let table = volume.reserved_sectors * volume.sector_size in
    content (table + cluster * 2) + 256 * content (table + cluster * 2 + 1)

-- The values of the table that end a walk: the two ends of a chain, a bad cluster, two reserved
-- values and a free cluster.
abbrev pub ending_entries : List ℕ
ending_entries = 0xFFF8 ∷ 0xFFFF ∷ 0xFF7 ∷ 0xFF0 ∷ 0xFF6 ∷ 0 ∷ []

abbrev pub is_listed : ℕ → List ℕ → Bool
is_listed x [] = false
is_listed x (y ∷ listed) = (x == y) || is_listed x listed

-- The cluster `count` places behind one, unless the table ends the chain before.
unfoldable pub chain_walk : (ℕ → ℕ) → Volume → ℕ → ℕ → Option ℕ
chain_walk content volume zero cluster = some cluster
chain_walk content volume (suc count) cluster =
    let next = entry content volume cluster in
    let rest = chain_walk content volume count next in
    if is_listed next ending_entries then none else rest

-- The volume with its two reading streams on the disk, at these positions.
abbrev pub streams_at : Platform → Volume → ℕ → ℕ → Volume
streams_at platform volume fat cluster = record volume {
  fat_read_stream = some (record { pos = fat; disk = platform.disk });
  cluster_read_stream = record { pos = cluster; disk = platform.disk };
}

-- The code's result for a walk.
abbrev pub cluster_or_eio : Option ℕ → ℤ
cluster_or_eio none = neg eio
cluster_or_eio (some cluster) = pos cluster

-- A result with both streams still on the disk.
abbrev pub Walked : Platform → Volume → ℕ → Found → ℤ → Type 0
Walked platform volume cluster_pos found res =
    (fat : ℕ) × (found ≡ some (res, streams_at platform volume fat cluster_pos))

ends_search-listed : (x : ℕ) → ends_search x ≡ is_listed x ending_entries
ends_search-listed x = ground arith

module _ (platform : Platform) (content : ℕ → ℕ) (volume : Volume)
    (serves : Serves platform.drive content)
    (table_small : volume.reserved_sectors * volume.sector_size < 2 ^ 30) where
  get_fat_entry-content :
      (f p cluster : ℕ)
      → cluster < 65536
      → get_fat_entry platform (streams_at platform volume f p) (pos cluster)
        ≡ some (
          pos (entry content volume cluster),
          streams_at platform volume
              (volume.reserved_sectors * volume.sector_size + cluster * 2 + 2)
              p,
        )
  unfolding get_fat_entry seek get_first_fat_sector
  get_fat_entry-content f p cluster small =
      let at = volume.reserved_sectors * volume.sector_size + cluster * 2 in
      ap (entry_of (streams_at platform volume f p))
        (read-content platform content at 2 serves (omega arith))

  entry-word : (cluster : ℕ) → entry content volume cluster < 65536
  entry-word cluster =
      let at = volume.reserved_sectors * volume.sector_size + cluster * 2 in
      omega (arith, serves.bytes at, serves.bytes (at + 1))

  follow-chain_walk :
      (count f p cluster : ℕ)
      → cluster < 65536
      → Walked platform volume p
          (follow count platform (streams_at platform volume f p) (pos cluster))
          (cluster_or_eio (chain_walk content volume count cluster))
  unfolding follow chain_walk
  follow-chain_walk zero f p cluster small = (f, refl)
  follow-chain_walk (suc count) f p cluster small =
      let next = entry content volume cluster in
      let behind = volume.reserved_sectors * volume.sector_size + cluster * 2 + 2 in
      let fetched = get_fat_entry-content f p cluster small in
      let same = ends_search-listed next in
      elim (Bool-cases (is_listed next ending_entries)) [
        | inl ends ↦ (behind, rw (fetched, same, ends) refl)
        | inr goes_on ↦
            let (fat, walked) = follow-chain_walk count behind p next (entry-word cluster) in
            (fat, rw (fetched, same, goes_on) walked)
      ]

-- Behind a controller that serves the content of the disk, on a volume with clusters of some bytes,
-- with streams on the disk and a table below 2^30, fat16_get_cluster_for_offset from a 16-bit
-- cluster returns the cluster that the table on the disk links so many places behind as whole
-- clusters fit into the offset, and -EIO if one of the entries on the way is among `ending_entries`; only the position of the table's
-- stream changes.
pub get_cluster_for_offset-chain_walk :
    (platform : Platform) (content : ℕ → ℕ) (volume : Volume) (f p cluster offset : ℕ)
    → Serves platform.drive content
    → volume.reserved_sectors * volume.sector_size < 2 ^ 30
    → 0 < size_of_cluster_bytes volume
    → cluster < 65536
    → Walked platform volume p
        (get_cluster_for_offset platform (streams_at platform volume f p) cluster offset)
        (cluster_or_eio (chain_walk content volume (offset / size_of_cluster_bytes volume) cluster))
unfolding get_cluster_for_offset size_of_cluster_bytes
get_cluster_for_offset-chain_walk platform content volume f p cluster offset serves table nonzero
      small =
    let size = volume.sectors_per_cluster * volume.sector_size in
    let sized : (size == 0) ≡ false = ground arith in
    let (fat, walked) =
      follow-chain_walk platform content volume serves table (offset / size) f p cluster small in
    (fat, rw sized walked)
