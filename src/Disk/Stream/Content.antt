-- ===== src/Disk/Stream/Content.antt =====
-- What reading a stream gives of the disk's content.
use kernel_nesemulator.Prelude.{
  ℕ, zero, suc, ◌+◌, ◌-◌, ◌*◌, ◌/◌, ◌%◌, ◌^◌, ◌<◌, ◌≡◌, refl, sym, ap, ◌∙◌, some, leb, get_or,
  slice, slice-append, slice_ext, get_or-slice, pos, arith, Bool-cases, inl, inr,
}
use kernel_nesemulator.Disk.{Platform}
use kernel_nesemulator.Disk.Controller.{Serves, read_block-slice}
use kernel_nesemulator.Disk.Stream.{DiskStream, Read, moved, behind, read_sectors, read}

-- What a stream promises: the bytes of the disk from its position on.
abbrev pub read_content : (ℕ → ℕ) → DiskStream → ℕ → Read
read_content content stream total = (pos 0, (slice content stream.pos total, moved stream total))

module _ (platform : Platform) (content : ℕ → ℕ) (serves : Serves platform.drive content) where
  -- The sector of the stream, as the copying loop sees it.
  copied-slice :
      (p count : ℕ)
      → p % 512 + count < 513
      → slice (λ k. get_or (slice content (512 * (p / 512)) 512) k 0) (p % 512) count
        ≡ slice content p count
  copied-slice p count h = slice_ext _ content (p % 512) p count (λ k lt.
      get_or-slice content (512 * (p / 512)) 512 (p % 512 + k) 0 (omega arith)
      ∙ ap content (omega arith))

  behind-content :
      (p m n : ℕ)
      → behind
          (slice content p m)
          (some (read_content content (record { pos = p + m; disk = platform.disk }) n))
        ≡ some (read_content content (record { pos = p; disk = platform.disk }) (m + n))
  behind-content p m n =
      let there : p + m + n ≡ p + (m + n) = omega arith in
      λ t. some (
        pos 0,
        (sym (slice-append content p m n) t, record { pos = there t; disk = platform.disk }),
      )

  -- With more fuel than bytes to read, the loop gives the bytes of the disk.
  pub read_sectors-content :
      (fuel p total : ℕ)
      → total < fuel
      → p + total < 2 ^ 31
      → read_sectors fuel platform (record { pos = p; disk = platform.disk }) total
        ≡ some (read_content content (record { pos = p; disk = platform.disk }) total)
  unfolding read_sectors
  read_sectors-content zero p total h small = absurd (omega arith)
  read_sectors-content (suc fuel) p total h small =
      let stream : DiskStream = record { pos = p; disk = platform.disk } in
      let sector = read_block-slice platform content (p / 512) serves (omega arith) in
      elim (Bool-cases (leb 512 (p % 512 + total))) [
        | inl over ↦
            let now = total - (p % 512 + total - 512) in
            let later = total - now in
            let sum : now + later ≡ total = ground arith in
            let less : later < fuel = ground arith in
            rw (over, sector)
              (rw
                (
                  copied-slice p now (ground arith),
                  read_sectors-content fuel (p + now) later less (ground arith),
                )
                (behind-content p now later ∙ ap (λ n. some (read_content content stream n)) sum))
        | inr within ↦ rw (within, sector) (rw (copied-slice p total (ground arith)) refl)
      ]

-- Behind a controller that serves the content of the disk, diskstreamer_read on a stream of the
-- disk returns 0 with the bytes of the disk from the stream's position on, across sectors, and
-- moves the stream behind them; for positions below 2^31.
pub read-content :
    (platform : Platform) (content : ℕ → ℕ) (p total : ℕ)
    → Serves platform.drive content
    → p + total < 2 ^ 31
    → read platform (record { pos = p; disk = platform.disk }) total
      ≡ some (read_content content (record { pos = p; disk = platform.disk }) total)
unfolding read
read-content platform content p total serves small =
    read_sectors-content platform content serves (total + 1) p total (omega arith) small
