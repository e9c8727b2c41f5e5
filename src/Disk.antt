-- ===== src/Disk.antt =====
-- The disk: disk/disk.c. The controller is a parameter: what its data port gives, word by word,
-- behind a read command, which is what the other ports were given. Polling for the ready bit gives
-- no data and is left out: the controller is taken to become ready.
pub mod Controller
pub mod Stream
mod Tests
use kernel_nesemulator.Prelude.{
  ℕ, zero, suc, ◌+◌, ◌*◌, ◌/◌, ◌%◌, ◌^◌, bit_or, List, [], ◌∷◌, ◌++◌, ◌!=◌, if◌then◌else◌, u8, ℤ,
  pos, negsuc, neg,
}

abbrev pub sector_size : ℕ
sector_size = 512

abbrev pub eio : ℕ
eio = 1

-- The bytes sent to the ports 0x1F6 and 0x1F2 to 0x1F5, in front of the command 0x20.
pub record Command : Type 0 where
  pub head : ℕ
  pub count : ℕ
  pub low : ℕ
  pub middle : ℕ
  pub high : ℕ

-- The words that the port 0x1F0 gives behind a command, in their order.
abbrev pub Drive : Type 0
Drive = Command → ℕ → ℕ

-- The controller and the address of the global `disk`.
pub record Platform : Type 0 where
  pub drive : Drive
  pub disk : ℕ

-- `lba` is not negative.
unfoldable pub command : ℕ → ℕ → Command
command lba total = record {
  head = u8 (bit_or (lba / 2 ^ 24) 0xE0);
  count = u8 total;
  low = u8 lba;
  middle = u8 (lba / 2 ^ 8);
  high = u8 (lba / 2 ^ 16);
}

-- The inner `for`: `count` words from word `i` on, as the bytes that they become in `buf`.
abbrev pub copy_words : (ℕ → ℕ) → ℕ → ℕ → List ℕ
copy_words words i zero = []
copy_words words i (suc count) =
    u8 (words i) ∷ (u8 (words i / 256) ∷ copy_words words (i + 1) count)

-- The outer `for` with `total` rounds left, at word `i`.
abbrev pub copy_sectors : (ℕ → ℕ) → ℕ → ℕ → List ℕ
copy_sectors words i zero = []
copy_sectors words i (suc total) = copy_words words i 256 ++ copy_sectors words (i + 256) total

-- The result and what `buf` receives.
unfoldable pub read_sector : Platform → ℕ → ℕ → ℤ × List ℕ
unfolding command
read_sector platform lba total = (pos 0, copy_sectors (platform.drive (command lba total)) 0 total)

-- The address of the disk, or NULL.
unfoldable pub get : Platform → ℤ → ℕ
get platform (pos zero) = platform.disk
get platform (pos (suc index)) = 0
get platform (negsuc index) = 0

unfoldable pub read_block : Platform → ℕ → ℕ → ℕ → ℤ × List ℕ
unfolding read_sector
read_block platform idisk lba total =
    if idisk != platform.disk then (neg eio, []) else read_sector platform lba total
