-- ===== src/Disk/Stream.antt =====
-- Streams of bytes over the disk: disk/streamer.c. Positions are not negative and do not wrap.
pub mod Content
pub mod Handle
use kernel_nesemulator.Prelude.{
  ℕ, zero, suc, ◌+◌, ◌-◌, ◌/◌, ◌%◌, Bool, true, false, Option, none, some, List, [], ◌++◌, leb, ltb,
  ◌==◌, if◌then◌else◌, get_or, slice, ℤ, pos, negsuc,
}
use kernel_nesemulator.Heap.{Heap, malloc, free}
use kernel_nesemulator.Disk.{Platform, sector_size, get, read_block}

pub record DiskStream : Type 0 where
  pub pos : ℕ
  pub disk : ℕ

-- What `new` makes: nothing without a disk; a store through NULL if kzalloc fails; or a stream at
-- an address of the kernel heap.
pub data Opened : Type 0 where
  no_disk : Opened
  null_store : Opened
  opened : ℕ → DiskStream → Opened

-- Behind kzalloc.
abbrev pub initialise : ℕ → ℕ × Heap → Opened × Heap
initialise disk (address, heap) =
    (if address == 0 then null_store else opened address (record { pos = 0; disk = disk }), heap)

-- The size of a stream is 8 bytes.
unfoldable pub new : Platform → Heap → ℤ → Opened × Heap
new platform heap disk_id =
    let disk = get platform disk_id in
    if disk == 0 then (no_disk, heap) else initialise disk (malloc heap 8)

unfoldable pub seek : DiskStream → ℕ → ℤ × DiskStream
seek stream position = (ℤ.pos 0, record { pos = position; disk = stream.disk })

abbrev pub moved : DiskStream → ℕ → DiskStream
moved stream count = record { pos = stream.pos + count; disk = stream.disk }

-- What a read returns: the result, the bytes that `out` receives, and the stream behind it.
abbrev pub Read : Type 0
Read = ℤ × (List ℕ × DiskStream)

abbrev pub behind : List ℕ → Option Read → Option Read
behind bytes none = none
behind bytes (some (res, (later, stream))) = some (res, (bytes ++ later, stream))

-- Behind disk_read_block: the copying loop, and the call for the next sector.
abbrev pub copy_out : DiskStream → ℕ → ℕ → Bool → Option Read → ℤ × List ℕ → Option Read
copy_out stream offset total_to_read overflow rest (negsuc error, buf) =
    some (negsuc error, ([], stream))
copy_out stream offset total_to_read overflow rest (ℤ.pos res, buf) =
    let copied = slice (λ k. get_or buf k 0) offset total_to_read in
    elim overflow [
      | true ↦ behind copied rest
      | false ↦ some (ℤ.pos res, (copied, moved stream total_to_read))
    ]

unfoldable pub read_sectors : ℕ → Platform → DiskStream → ℕ → Option Read
unfolding read_block
read_sectors zero platform stream total = none
read_sectors (suc fuel) platform stream total =
    let sector = stream.pos / sector_size in
    let offset = stream.pos % sector_size in
    let overflow = leb sector_size (offset + total) in
    let total_to_read = if overflow then total - (offset + total - sector_size) else total in
    let rest = read_sectors fuel platform (moved stream total_to_read) (total - total_to_read) in
    copy_out stream offset total_to_read overflow rest (read_block platform stream.disk sector 1)

-- Each call but the first one reads fewer bytes than the one before: `total + 1` calls are enough.
unfoldable pub read : Platform → DiskStream → ℕ → Option Read
unfolding read_sectors
read platform stream total = read_sectors (total + 1) platform stream total

-- kfree of the stream's address.
unfoldable pub close : Heap → ℕ → Option Heap
close heap stream = free heap stream
