-- ===== src/Disk/Controller.antt =====
-- The addressing of sectors by the bytes of a read command, and the bytes of one sector.
use kernel_nesemulator.Prelude.{
  ℕ, zero, suc, ◌+◌, ◌*◌, ◌/◌, ◌%◌, ◌^◌, ◌<◌, ◌≡◌, refl, sym, ap, ◌∙◌, bit_or, true, ◌∷◌, ◌==◌,
  slice, u8, pos, arith, ==_iff, ◌!=◌, false,
}
use kernel_nesemulator.Prelude.Bytes.{all_below, all_below_sound}
use mathlib.Core.List.{append-nil}
use kernel_nesemulator.Disk.{Command, Drive, Platform, command, copy_words, read_sector, read_block}

-- The sector that a command of the 28-bit kind names.
abbrev pub sector_of : Command → ℕ
sector_of c = c.head % 16 * 2 ^ 24 + c.high * 2 ^ 16 + c.middle * 2 ^ 8 + c.low

-- The controller gives the words of the sectors that a command names, low byte first: `content` is
-- the byte at each position of the disk.
pub record Serves (drive : Drive) (content : ℕ → ℕ) : Type 0 where
  pub bytes : (i : ℕ) → content i < 256
  pub words :
      (c : Command) (i : ℕ)
      → i < 256 * c.count
      → drive c i
        ≡ content (512 * sector_of c + 2 * i) + 256 * content (512 * sector_of c + 2 * i + 1)

head_table : all_below 16 (λ n. u8 (bit_or n 0xE0) % 16 == n) ≡ true
unfolding all_below
head_table = refl

head-nibble : (n : ℕ) → n < 16 → u8 (bit_or n 0xE0) % 16 ≡ n
head-nibble n h =
    (==_iff (u8 (bit_or n 0xE0) % 16) n).0
      (all_below_sound 16 (λ n. u8 (bit_or n 0xE0) % 16 == n) n head_table h)

-- A command names the sector that it was made for.
pub sector_of-command : (lba total : ℕ) → lba < 2 ^ 28 → sector_of (command lba total) ≡ lba
unfolding command
sector_of-command lba total h = omega (arith, head-nibble (lba / 2 ^ 24) (omega arith))

copy_words-slice :
    (words content : ℕ → ℕ) (base i count : ℕ)
    → ((k : ℕ) → content k < 256)
    → ((k : ℕ)
        → k < i + count
        → words k ≡ content (base + 2 * k) + 256 * content (base + 2 * k + 1))
    → copy_words words i count ≡ slice content (base + 2 * i) (2 * count)
copy_words-slice words content base i zero bytes h = refl
copy_words-slice words content base i (suc count) bytes h =
    let at = base + 2 * i in
    let two : 2 * suc count ≡ suc (suc (2 * count)) = omega arith in
    let next : base + 2 * (i + 1) ≡ at + 1 + 1 = omega arith in
    let word = h i (omega arith) in
    let low : u8 (words i) ≡ content at = omega (arith, word, bytes at, bytes (at + 1)) in
    let high : u8 (words i / 256) ≡ content (at + 1) =
      omega (arith, word, bytes at, bytes (at + 1)) in
    let rest =
      copy_words-slice words content base (i + 1) count bytes (λ k lt. h k (omega arith)) in
    (λ t. low t ∷ (high t ∷ (rest ∙ ap (λ k. slice content k (2 * count)) next) t))
    ∙ ap (slice content at) (sym two)

one_sector : (lba k : ℕ) → k < 0 + 256 → k < 256 * (command lba 1).count
unfolding command
one_sector lba k h = omega arith

plus-zero : (n : ℕ) → n + 2 * 0 ≡ n
plus-zero n = omega arith

-- One sector of the disk itself.
pub read_block-slice :
    (platform : Platform) (content : ℕ → ℕ) (lba : ℕ)
    → Serves platform.drive content
    → lba < 2 ^ 28
    → read_block platform platform.disk lba 1 ≡ (pos 0, slice content (512 * lba) 512)
unfolding read_block read_sector
read_block-slice platform content lba serves h =
    let sector = sector_of-command lba 1 h in
    let words = platform.drive (command lba 1) in
    let served : (k : ℕ)
        → k < 0 + 256
        → words k ≡ content (512 * lba + 2 * k) + 256 * content (512 * lba + 2 * k + 1) =
      λ k lt.
        serves.words (command lba 1) k (one_sector lba k lt)
        ∙ ap (λ s. content (512 * s + 2 * k) + 256 * content (512 * s + 2 * k + 1)) sector in
    let differs : (platform.disk != platform.disk) ≡ false = ground arith in
    rw differs (λ t. (
      pos 0,
      (append-nil (copy_words words 0 256)
            ∙ (copy_words-slice words content (512 * lba) 0 256 serves.bytes served
                ∙ ap (λ k. slice content k 512) (plus-zero (512 * lba))))
          t,
    ))
