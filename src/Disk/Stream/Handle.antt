-- ===== src/Disk/Stream/Handle.antt =====
-- The memory of a stream, between diskstreamer_new and diskstreamer_close.
use kernel_nesemulator.Prelude.{
  ℕ, ◌+◌, ◌*◌, ◌≡◌, ◌≢◌, refl, ap, ◌∙◌, true, false, some, ◌==◌, drop, pos, arith,
}
use kernel_nesemulator.Heap.{Heap, block_size, malloc, align_value_to_upper, malloc_blocks}
use kernel_nesemulator.Heap.Search.{free_prefix}
use kernel_nesemulator.Heap.RoundTrip.{IsValid, allocated}
use kernel_nesemulator.Heap.Claims.{malloc_blocks-fits, free-allocated}
use kernel_nesemulator.Disk.{Platform, get}
use kernel_nesemulator.Disk.Stream.{opened, initialise, new, close}

one_block : (heap : Heap) → malloc heap 8 ≡ malloc_blocks heap 1
unfolding malloc align_value_to_upper
one_block heap = refl

-- On a valid heap with a free block, diskstreamer_new of disk 0 makes a stream of that disk at
-- position 0, in memory that diskstreamer_close gives back: the heap is then as it was.
pub close-new :
    (platform : Platform) (heap : Heap) (k : ℕ)
    → platform.disk ≢ 0
    → IsValid heap
    → free_prefix 1 (drop k heap.entries) ≡ true
    → (address : ℕ) × ((taken : Heap) × ((new platform heap (pos 0)
            ≡ (opened address (record { pos = 0; disk = platform.disk }), taken))
          × (close taken address ≡ some heap)))
unfolding new get close
close-new platform heap k present v run =
    let (i, found, r, _) = malloc_blocks-fits heap 0 k v run in
    let address = heap.saddr + i * block_size in
    let disk : (platform.disk == 0) ≡ false = ground arith in
    let nonnull : (address == 0) ≡ false = ground (arith, v.nonnull) in
    (
      address,
      (
        allocated heap 1 i,
        (
          rw (disk) (ap (initialise platform.disk) (one_block heap ∙ found) ∙ rw nonnull refl),
          free-allocated heap 0 i v r,
        ),
      ),
    )
