-- ===== src/Fat16/File.antt =====
-- Open files: fat16_read, fat16_seek and fat16_stat.
use kernel_nesemulator.Prelude.{
  ℕ, zero, suc, ◌+◌, ◌*◌, bit_and, Option, none, some, List, [], leb, ◌==◌, ◌!=◌, if◌then◌else◌,
  u32, ℤ, pos, negsuc, neg,
}
use kernel_nesemulator.Heap.{einvarg}
use kernel_nesemulator.Disk.{Platform, eio}
use kernel_nesemulator.Fat16.{DirectoryItem, FatItem, FileDescriptor, Volume, get_first_cluster}
use kernel_nesemulator.Fat16.Cluster.{Reading, behind, read_internal}

abbrev pub eunimp : ℕ
eunimp = 7

abbrev pub file_read_only : ℕ
file_read_only = 0x01

abbrev pub seek_set : ℕ
seek_set = 0

abbrev pub seek_cur : ℕ
seek_cur = 1

abbrev pub seek_end : ℕ
seek_end = 2

abbrev pub file_stat_read_only : ℕ
file_stat_read_only = 1

-- Behind fat16_read_internal in the `for`.
abbrev pub next_element : Option Reading → (Volume → Option Reading) → Option Reading
next_element none rest = none
next_element (some (negsuc error, (bytes, volume))) rest = some (negsuc error, (bytes, volume))
next_element (some (pos res, (bytes, volume))) rest = behind bytes (rest volume)

-- The `for` with `count` rounds left; at its end `res` is 0.
unfoldable pub read_elements : ℕ → Platform → Volume → ℕ → ℕ → ℕ → Option Reading
read_elements zero platform volume cluster offset size = some (pos 0, ([], volume))
read_elements (suc count) platform volume cluster offset size =
    next_element (read_internal platform volume cluster offset size)
      (λ after. read_elements count platform after cluster (offset + size) size)

-- What fat16_read returns: the result, the bytes that `out_ptr` receives, the volume and the
-- descriptor.
abbrev pub FileReading : Type 0
FileReading = ℤ × (List ℕ × (Volume × FileDescriptor))

-- Behind the `for`, where `offset` has grown by `size` in each round: the position is moved and the
-- number of elements returned, unless one failed.
abbrev pub finish_read : FileDescriptor → ℕ → ℕ → Option Reading → Option FileReading
finish_read descriptor offset nmemb none = none
finish_read descriptor offset nmemb (some (negsuc error, (bytes, volume))) =
    some (negsuc error, (bytes, (volume, descriptor)))
finish_read descriptor offset nmemb (some (pos res, (bytes, volume))) =
    some (pos nmemb, (bytes, (volume, record descriptor { pos = offset })))

-- `descriptor->item->item`, whatever the type: `none` for a directory, which the code takes for a
-- directory item all the same.
abbrev pub item_of : FatItem → Option DirectoryItem
item_of (FatItem.file item) = some item
item_of (FatItem.directory directory) = none

abbrev pub read_item :
    Platform → Volume → FileDescriptor → ℕ → ℕ → Option DirectoryItem → Option FileReading
read_item platform volume descriptor size nmemb none = none
read_item platform volume descriptor size nmemb (some item) =
    finish_read descriptor (descriptor.pos + nmemb * size) nmemb
      (read_elements nmemb platform volume (get_first_cluster item) descriptor.pos size)

unfoldable pub read : Platform → Volume → FileDescriptor → ℕ → ℕ → Option FileReading
unfolding read_elements get_first_cluster
read platform volume descriptor size nmemb =
    read_item platform volume descriptor size nmemb (item_of descriptor.item)

-- Behind the test of the type.
abbrev pub seek_file : FileDescriptor → DirectoryItem → ℕ → ℕ → ℤ × FileDescriptor
seek_file descriptor ritem offset seek_mode =
    if leb ritem.filesize offset
    then (neg eio, descriptor)
    else if seek_mode == seek_set
    then (pos 0, record descriptor { pos = offset })
    else if seek_mode == seek_end
    then (neg eunimp, descriptor)
    else if seek_mode == seek_cur
    then (pos 0, record descriptor { pos = u32 (descriptor.pos + offset) })
    else (neg einvarg, descriptor)

abbrev pub seek_item : FileDescriptor → FatItem → ℕ → ℕ → ℤ × FileDescriptor
seek_item descriptor (FatItem.directory directory) offset seek_mode = (neg einvarg, descriptor)
seek_item descriptor (FatItem.file ritem) offset seek_mode =
    seek_file descriptor ritem offset seek_mode

-- `offset` and the position are 32-bit numbers without sign.
unfoldable pub seek : FileDescriptor → ℕ → ℕ → ℤ × FileDescriptor
seek descriptor offset seek_mode = seek_item descriptor descriptor.item offset seek_mode

pub record FileStat : Type 0 where
  pub flags : ℕ
  pub filesize : ℕ

abbrev pub stat_item : FatItem → FileStat → ℤ × FileStat
stat_item (FatItem.directory directory) stat = (neg einvarg, stat)
stat_item (FatItem.file ritem) stat = (
  pos 0,
  record {
    flags = if bit_and ritem.attribute file_read_only != 0 then file_stat_read_only else 0;
    filesize = ritem.filesize;
  },
)

unfoldable pub stat : FileDescriptor → FileStat → ℤ × FileStat
stat descriptor stat_out = stat_item descriptor.item stat_out
