-- ===== src/Vfs/Tests.antt =====
-- A driver that counts its calls and serves zeros, and an empty table.
use kernel_nesemulator.Prelude.{
  ℕ, ◌+◌, ◌*◌, ◌≡◌, refl, true, none, some, List, [], ◌∷◌, ltb, if◌then◌else◌, set, replicate, pos,
  neg, arith,
}
use kernel_nesemulator.Heap.{
  Heap, free, address_to_block, mark_blocks_free, free_loop, get_entry_type, malloc, malloc_blocks,
  align_value_to_upper, get_start_block, search_loop, mark_blocks_taken, mark_loop,
  block_to_address,
}
use kernel_nesemulator.Heap.Search.{free_prefix}
use kernel_nesemulator.Heap.Chain.{chain}
use kernel_nesemulator.Heap.RoundTrip.{IsValid}
use kernel_nesemulator.Disk.{Platform, eio, get}
use kernel_nesemulator.String.{strlen, strnlen, strncmp}
use kernel_nesemulator.String.Copy.{isdigit, tonumericdigit}
use kernel_nesemulator.MemoryFunctions.{memcmp}
use kernel_nesemulator.Path.{
  PathRoot, parse, get_drive_by_path, path_valid_format, parse_parts, get_path_part, allocate_path,
  allocate_parts,
}
use kernel_nesemulator.Heap.Sequence.{free_blocks}
use kernel_nesemulator.Vfs.{
  read_mode, Driver, Slots, Vfs, free_slot, get_mode_by_string, fopen, fclose,
}
use kernel_nesemulator.Vfs.Calls.{call_fopen, execute}
use kernel_nesemulator.Vfs.RoundTrip.{Opens, fclose-fopen}

abbrev counting : ℕ → Driver ℕ
counting address = record {
  resolve = λ n. (pos 0, n + 1);
  open_file = λ n parts mode. (pos 0x5000, n + 1);
  read = λ n private size nmemb. (pos nmemb, (replicate nmemb 0, n + 1));
  seek = λ n private offset whence. (pos 0, n + 1);
  stat = λ n private stat. (pos 0, (stat, n + 1));
  close = λ n private. (pos 0, n + 1);
}

abbrev platform : Platform
platform = record { drive = λ c i. 0; disk = 0x9000 }

abbrev six_blocks : Heap
six_blocks = record { entries = 0 ∷ 0 ∷ 0 ∷ 0 ∷ 0 ∷ 0 ∷ []; total = 6; saddr = 0x2000 }

six_blocks-IsValid : IsValid six_blocks
unfolding chain
six_blocks-IsValid = record {
  sized = refl;
  chained = refl;
  nonnull = omega arith;
  small = omega arith;
  placed = omega arith;
}

six_blocks-run : free_prefix 4 six_blocks.entries ≡ true
unfolding free_prefix get_entry_type
six_blocks-run = refl

abbrev empty_table : Slots
empty_table = replicate 512 none

abbrev fresh : Vfs ℕ
fresh = record {
  filesystems = 0x7000 ∷ [];
  file_descriptors = empty_table;
  disk_filesystem = 0x7000;
  heap = six_blocks;
  world = 0;
}

-- 0:/a and r
abbrev filename : List ℕ
filename = 0x30 ∷ 0x3A ∷ 0x2F ∷ 0x61 ∷ 0 ∷ []

abbrev reading : List ℕ
reading = 0x72 ∷ 0 ∷ []

abbrev path : PathRoot
path = record { drive_no = pos 0; parts = (0x61 ∷ []) ∷ [] }

opens : Opens platform counting fresh filename reading path 0 0x5000 1
unfolding parse strlen get_drive_by_path path_valid_format strnlen isdigit memcmp tonumericdigit
    parse_parts get_path_part get_mode_by_string strncmp free_slot get
opens = record {
  parsed = refl;
  parts = refl;
  disk = refl;
  known = refl;
  mode = read_mode;
  valid = λ e. cc;
  moded = refl;
  opening = refl;
  slot = refl;
}

fclose-fopen_example :
    (parsed : Heap) × (behind : Vfs ℕ) × (free_blocks parsed.entries + (2 * 1 + 1)
      ≡ free_blocks six_blocks.entries)
    × (fopen platform counting fresh filename reading ≡ some (pos (0 + 1), behind))
    × (fclose counting behind (pos (0 + 1)) ≡ (
        if ltb 0 511
        then some (pos 0, record fresh { world = 2; heap = parsed })
        else some (neg eio, behind)))
fclose-fopen_example =
    fclose-fopen platform counting fresh filename reading path 0 0x5000 0 1 2 opens
      six_blocks-IsValid six_blocks-run refl

abbrev one_open : Vfs ℕ
one_open = record fresh {
  file_descriptors = set empty_table 0 (
      some (record {
        address = 0x5000;
        index = 1;
        filesystem = 0x7000;
        private = pos 0x5000;
        disk = 0x9000;
      }));
  heap = record { entries = 0x41 ∷ 0x41 ∷ 0x41 ∷ 0x41 ∷ 0 ∷ 0 ∷ []; total = 6; saddr = 0x2000 };
  world = 1;
}

opening : execute platform counting (call_fopen filename reading) fresh ≡ some (pos 1, one_open)
unfolding execute fopen parse strlen get_drive_by_path path_valid_format strnlen isdigit memcmp
    tonumericdigit parse_parts get_path_part get_mode_by_string strncmp free_slot get malloc
    align_value_to_upper malloc_blocks get_start_block search_loop mark_blocks_taken mark_loop
    block_to_address get_entry_type allocate_path allocate_parts free address_to_block
    mark_blocks_free free_loop
opening = refl
