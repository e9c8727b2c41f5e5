-- ===== src/Fat16/Directory/Count.antt =====
-- The number of items in a directory, against the bytes on the disk.
use kernel_nesemulator.Prelude.{
  ℕ, zero, suc, ◌+◌, ◌*◌, ◌^◌, ◌<◌, ◌≡◌, ◌≢◌, ap, ap₂, ◌∙◌, true, false, some, ◌==◌, if◌then◌else◌,
  pos, arith,
}
use kernel_nesemulator.Disk.{Platform}
use kernel_nesemulator.Disk.Controller.{Serves}
use kernel_nesemulator.Disk.Stream.{seek}
use kernel_nesemulator.Disk.Stream.Content.{read-content}
use kernel_nesemulator.Fat16.{Volume}
use kernel_nesemulator.Fat16.Directory.{
  item_size, count_item, count_items, get_total_items_for_directory,
}

-- How many of the `n` items from a position on are in use.
unfoldable pub used_items : (ℕ → ℕ) → ℕ → ℕ → ℕ
used_items content start zero = 0
used_items content start (suc n) =
    (if content start == 0xE5 then 0 else 1) + used_items content (start + item_size) n

abbrev pub directory_at : Platform → Volume → ℕ → Volume
directory_at platform volume at = record volume {
  directory_stream = record { pos = at; disk = platform.disk };
}

module _ (platform : Platform) (content : ℕ → ℕ) (volume : Volume)
    (serves : Serves platform.drive content) where
  count_items-used :
      (n fuel start i : ℕ)
      → n < fuel
      → start + item_size * suc n < 2 ^ 31
      → ((k : ℕ) → k < n → content (start + item_size * k) ≢ 0)
      → content (start + item_size * n) ≡ 0
      → count_items fuel platform (directory_at platform volume start) i
        ≡ some (
          pos (i + used_items content start n),
          directory_at platform volume (start + item_size * suc n),
        )
  unfolding count_items used_items
  count_items-used n zero start i enough small items end = absurd (omega arith)
  count_items-used zero (suc fuel) start i enough small items end =
      let stop : content start ≡ 0 = ap content (omega arith) ∙ end in
      let test : (content start == 0) ≡ true = ground arith in
      let next = λ (after : Volume) (counted : ℕ). count_items fuel platform after counted in
      ap (count_item (directory_at platform volume start) i next)
        (read-content platform content start item_size serves (omega arith))
      ∙ rw test
          (ap₂ (λ c p. some (pos c, directory_at platform volume p)) (omega arith) (omega arith))
  count_items-used (suc n) (suc fuel) start i enough small items end =
      let first : content start ≢ 0 = λ e. items 0 (omega arith) (ap content (omega arith) ∙ e) in
      let test : (content start == 0) ≡ false = ground arith in
      let next = λ (after : Volume) (counted : ℕ). count_items fuel platform after counted in
      let counted = if content start == 0xE5 then i else i + 1 in
      let ih =
        count_items-used n fuel (start + item_size) counted (omega arith) (omega arith)
          (λ k lt e. items (suc k) (omega arith) (ap content (omega arith) ∙ e))
          (ap content (omega arith) ∙ end) in
      ap (count_item (directory_at platform volume start) i next)
        (read-content platform content start item_size serves (omega arith))
      ∙ rw test (
          ih
          ∙ ap₂ (λ c p. some (pos c, directory_at platform volume p)) (ground arith) (omega arith))

-- Behind a controller that serves the content of the disk, if the first item of a directory that
-- starts with a zero byte is item n, fat16_get_total_items_for_directory with fuel above n returns
-- how many of the n items before do not start with 0xE5, for a directory that ends below 2^31.
pub get_total_items-used :
    (platform : Platform) (content : ℕ → ℕ) (volume : Volume) (n fuel at sector : ℕ)
    → Serves platform.drive content
    → n < fuel
    → sector * volume.sector_size + item_size * suc n < 2 ^ 31
    → ((k : ℕ) → k < n → content (sector * volume.sector_size + item_size * k) ≢ 0)
    → content (sector * volume.sector_size + item_size * n) ≡ 0
    → get_total_items_for_directory fuel platform (directory_at platform volume at) sector
      ≡ some (
        pos (used_items content (sector * volume.sector_size) n),
        directory_at platform volume (sector * volume.sector_size + item_size * suc n),
      )
unfolding get_total_items_for_directory seek
get_total_items-used platform content volume n fuel at sector serves enough small items end =
    count_items-used platform content volume serves n fuel (sector * volume.sector_size) 0 enough
      small items end
    ∙ ap
        (λ c.
          some
            (pos c, directory_at platform volume (sector * volume.sector_size + item_size * suc n)))
        (omega arith)
