-- ===== src/Fat16/Cluster.antt =====
-- The file allocation table and the clusters of a file: fat16_get_fat_entry to fat16_read_internal.
-- `none` stands for a seek to a negative position, and for a division by a cluster size of 0.
use kernel_nesemulator.Prelude.{
  ℕ, zero, suc, ◌+◌, ◌-◌, ◌*◌, ◌/◌, ◌%◌, Bool, true, false, ◌||◌, Option, none, some, List, [],
  ◌++◌, leb, ltb, ◌==◌, if◌then◌else◌, get_or, ℤ, pos, negsuc, neg,
}
use kernel_nesemulator.Disk.{Platform, eio}
use kernel_nesemulator.Disk.Stream.{DiskStream, Read, seek, read}
use kernel_nesemulator.Fat16.{
  Volume, cluster_to_sector, get_first_fat_sector, size_of_cluster_bytes,
}

-- A result with the volume behind it.
abbrev pub Found : Type 0
Found = Option (ℤ × Volume)

abbrev pub with_fat_stream : Volume → DiskStream → Volume
with_fat_stream volume stream = record volume { fat_read_stream = some stream }

-- `result`, a uint16_t that two bytes are read into
abbrev pub word_of : List ℕ → ℕ
word_of bytes = get_or bytes 0 0 + 256 * get_or bytes 1 0

-- Behind diskstreamer_read.
abbrev pub entry_of : Volume → Option Read → Found
entry_of volume none = none
entry_of volume (some (negsuc error, (bytes, stream))) =
    some (negsuc error, with_fat_stream volume stream)
entry_of volume (some (pos res, (bytes, stream))) =
    some (pos (word_of bytes), with_fat_stream volume stream)

-- Behind diskstreamer_seek.
abbrev pub read_entry : Platform → Volume → ℤ × DiskStream → Found
read_entry platform volume (negsuc error, stream) =
    some (negsuc error, with_fat_stream volume stream)
read_entry platform volume (pos res, stream) = entry_of volume (read platform stream 2)

-- The position of an entry, which a negative cluster may bring below 0.
abbrev pub entry_position : ℕ → ℤ → Option ℕ
entry_position fat_table_position (pos cluster) = some (fat_table_position + cluster * 2)
entry_position fat_table_position (negsuc cluster) =
    if leb (2 * cluster + 2) fat_table_position
    then some (fat_table_position - (2 * cluster + 2))
    else none

abbrev pub seek_entry : Platform → Volume → DiskStream → Option ℕ → Found
seek_entry platform volume stream none = none
seek_entry platform volume stream (some position) =
    read_entry platform volume (seek stream position)

-- Behind the test of the stream.
abbrev pub stream_entry : Platform → Volume → ℤ → Option DiskStream → Found
stream_entry platform volume cluster none = some (negsuc 0, volume)
stream_entry platform volume cluster (some stream) =
    let fat_table_position = get_first_fat_sector volume * volume.sector_size in
    seek_entry platform volume stream (entry_position fat_table_position cluster)

unfoldable pub get_fat_entry : Platform → Volume → ℤ → Found
unfolding seek get_first_fat_sector
get_fat_entry platform volume cluster = stream_entry platform volume cluster volume.fat_read_stream

-- The entries that end the search: last, bad, reserved and free ones.
abbrev pub ends_search : ℕ → Bool
ends_search entry =
    ((entry == 0xFFF8) || (entry == 0xFFFF))
    || ((entry == 0xFF7) || (((entry == 0xFF0) || (entry == 0xFF6)) || (entry == 0)))

-- One round of the `for` behind fat16_get_fat_entry.
abbrev pub follow_entry : Found → (Volume → ℤ → Found) → Found
follow_entry none next = none
follow_entry (some (negsuc entry, volume)) next = next volume (negsuc entry)
follow_entry (some (pos entry, volume)) next =
    if ends_search entry then some (neg eio, volume) else next volume (pos entry)

-- The `for` with `count` rounds left.
unfoldable pub follow : ℕ → Platform → Volume → ℤ → Found
unfolding get_fat_entry
follow zero platform volume cluster_to_use = some (cluster_to_use, volume)
follow (suc count) platform volume cluster_to_use =
    follow_entry (get_fat_entry platform volume cluster_to_use)
      (λ after entry. follow count platform after entry)

unfoldable pub get_cluster_for_offset : Platform → Volume → ℕ → ℕ → Found
unfolding follow size_of_cluster_bytes
get_cluster_for_offset platform volume starting_cluster offset =
    let clusters_ahead = offset / size_of_cluster_bytes volume in
    if size_of_cluster_bytes volume == 0
    then none
    else follow clusters_ahead platform volume (pos starting_cluster)

-- What a reading function returns: the result, the bytes that `out` receives, and the volume.
abbrev pub Reading : Type 0
Reading = ℤ × (List ℕ × Volume)

abbrev pub behind : List ℕ → Option Reading → Option Reading
behind bytes none = none
behind bytes (some (res, (later, volume))) = some (res, (bytes ++ later, volume))

abbrev pub with_cluster_stream : Volume → DiskStream → Volume
with_cluster_stream volume stream = record volume { cluster_read_stream = stream }

-- Behind diskstreamer_read: `rest` reads what is left.
abbrev pub read_rest : Volume → ℕ → (Volume → Option Reading) → Option Read → Option Reading
read_rest volume left rest none = none
read_rest volume left rest (some (negsuc error, (bytes, stream))) =
    some (negsuc error, (bytes, with_cluster_stream volume stream))
read_rest volume left rest (some (pos (suc res), (bytes, stream))) =
    some (pos (suc res), (bytes, with_cluster_stream volume stream))
read_rest volume left rest (some (pos zero, (bytes, stream))) = elim (ltb 0 left) [
  | true ↦ behind bytes (rest (with_cluster_stream volume stream))
  | false ↦ some (pos 0, (bytes, with_cluster_stream volume stream))
]

-- Behind diskstreamer_seek.
abbrev pub read_cluster :
    Platform → Volume → ℕ → ℕ → (Volume → Option Reading) → ℤ × DiskStream → Option Reading
read_cluster platform volume total_to_read left rest (negsuc error, stream) =
    some (negsuc error, ([], with_cluster_stream volume stream))
read_cluster platform volume total_to_read left rest (pos (suc res), stream) =
    some (pos (suc res), ([], with_cluster_stream volume stream))
read_cluster platform volume total_to_read left rest (pos zero, stream) =
    read_rest volume left rest (read platform stream total_to_read)

-- With a negative sector, the position is below 0 unless the offset makes up for it.
abbrev pub starting_pos : ℤ → ℕ → ℕ → Option ℕ
starting_pos (pos sector) sector_size offset = some (sector * sector_size + offset)
starting_pos (negsuc sector) sector_size offset =
    if leb (suc sector * sector_size) offset then some (offset - suc sector * sector_size) else none

abbrev pub seek_cluster :
    Platform → Volume → ℕ → ℕ → (Volume → Option Reading) → Option ℕ → Option Reading
seek_cluster platform volume total_to_read left rest none = none
seek_cluster platform volume total_to_read left rest (some position) =
    read_cluster platform volume total_to_read left rest (seek volume.cluster_read_stream position)

-- Behind fat16_get_cluster_for_offset.
abbrev pub read_found : Platform → ℕ → ℕ → (Volume → ℕ → Option Reading) → Found → Option Reading
read_found platform offset total rest none = none
read_found platform offset total rest (some (negsuc error, volume)) =
    some (negsuc error, ([], volume))
read_found platform offset total rest (some (pos cluster_to_use, volume)) =
    let size = size_of_cluster_bytes volume in
    let total_to_read = if ltb size total then size else total in
    seek_cluster platform volume total_to_read (total - total_to_read)
      (λ after. rest after total_to_read)
      (starting_pos (cluster_to_sector volume cluster_to_use) volume.sector_size (offset % size))

-- `stream` is the volume's cluster_read_stream.
unfoldable pub read_internal_from_stream : ℕ → Platform → Volume → ℕ → ℕ → ℕ → Option Reading
unfolding get_cluster_for_offset cluster_to_sector size_of_cluster_bytes seek
read_internal_from_stream zero platform volume cluster offset total = none
read_internal_from_stream (suc fuel) platform volume cluster offset total =
    read_found platform offset total
      (λ after read_now.
        read_internal_from_stream fuel platform after cluster (offset + read_now)
          (total - read_now))
      (get_cluster_for_offset platform volume cluster offset)

-- Each call but the first one reads fewer bytes than the one before: `total + 1` calls are enough.
unfoldable pub read_internal : Platform → Volume → ℕ → ℕ → ℕ → Option Reading
unfolding read_internal_from_stream
read_internal platform volume starting_cluster offset total =
    read_internal_from_stream (total + 1) platform volume starting_cluster offset total
