-- ===== src/Fat16/Reading.antt =====
-- fat16_read of an open file, element by element.
use kernel_nesemulator.Prelude.{
  ℕ, zero, suc, ◌+◌, ◌*◌, ◌%◌, ◌<◌, ◌≤◌, ◌≡◌, ◌⊎◌, sym, ap, ◌∙◌, some, slice, slice-append, pos,
  arith,
}
use mathlib.Core.Path.{subst}
use kernel_nesemulator.Disk.{Platform}
use kernel_nesemulator.Fat16.{
  DirectoryItem, FatItem, Volume, get_first_cluster, size_of_cluster_bytes,
}
use kernel_nesemulator.Fat16.Cluster.{behind}
use kernel_nesemulator.Fat16.Chain.{streams_at}
use kernel_nesemulator.Fat16.Content.{
  file_byte, IsStored, IsMounted, Gives, read_internal-file_byte,
}
use kernel_nesemulator.Fat16.File.{next_element, read_elements, finish_read, read}

-- Each of `count` elements from `offset` on starts at a cluster or lies in one.
abbrev pub FitClusters : Volume → ℕ → ℕ → ℕ → Type 0
FitClusters volume offset size count =
    (i : ℕ)
    → i < count
    → ((offset + i * size) % size_of_cluster_bytes volume ≡ 0)
      ⊎ ((offset + i * size) % size_of_cluster_bytes volume + size ≤ size_of_cluster_bytes volume)

later_fit :
    (volume : Volume) (offset size count : ℕ)
    → FitClusters volume offset size (suc count)
    → FitClusters volume (offset + size) size count
later_fit volume offset size count fit i h =
    let place : offset + suc i * size ≡ offset + size + i * size = omega arith in
    subst
      (λ n.
        (n % size_of_cluster_bytes volume ≡ 0)
        ⊎ (n % size_of_cluster_bytes volume + size ≤ size_of_cluster_bytes volume))
      place (fit (suc i) (omega arith))

first_fit :
    (volume : Volume) (offset size count : ℕ)
    → FitClusters volume offset size (suc count)
    → (offset % size_of_cluster_bytes volume ≡ 0)
      ⊎ (offset % size_of_cluster_bytes volume + size ≤ size_of_cluster_bytes volume)
first_fit volume offset size count fit =
    let place : offset + 0 * size ≡ offset = omega arith in
    subst
      (λ n.
        (n % size_of_cluster_bytes volume ≡ 0)
        ⊎ (n % size_of_cluster_bytes volume + size ≤ size_of_cluster_bytes volume))
      place (fit 0 (omega arith))

module _ (platform : Platform) (content : ℕ → ℕ) (volume : Volume)
    (mounted : IsMounted platform content volume) (start length size : ℕ) (word : start < 65536)
    (some_bytes : 0 < size) (stored : IsStored content volume start length) where
  read_elements-file_byte :
      (count offset f p : ℕ)
      → offset + count * size ≤ length
      → FitClusters volume offset size count
      → Gives platform volume
          (read_elements count platform (streams_at platform volume f p) start offset size)
          (file_byte content volume start)
          offset
          (count * size)
  unfolding read_elements
  read_elements-file_byte zero offset f p inside fit = (
    f,
    (
      p,
      λ t. some (
        pos 0,
        (slice (file_byte content volume start) offset (nothing t), streams_at platform volume f p),
      ),
    ),
  )
    where
      nothing : 0 ≡ 0 * size
      nothing = omega arith
  read_elements-file_byte (suc count) offset f p inside fit =
      let byte = file_byte content volume start in
      let (f1, (p1, first)) =
        read_internal-file_byte platform content volume start length offset size f p mounted word
          some_bytes (omega arith) stored (first_fit volume offset size count fit) in
      let (f2, (p2, later)) =
        read_elements-file_byte count (offset + size) f1 p1 (omega arith)
          (later_fit volume offset size count fit) in
      let sum : size + count * size ≡ suc count * size = omega arith in
      (
        f2,
        (
          p2,
          ap
                (λ o.
                  next_element o
                    (λ after. read_elements count platform after start (offset + size) size))
                first
              ∙ (ap (behind (slice byte offset size)) later
                  ∙ ap (λ s. some (pos 0, (s, streams_at platform volume f2 p2)))
                      (sym (slice-append byte offset size (count * size))
                        ∙ ap (slice byte offset) sum)),
        ),
      )

-- On a mounted volume, with a descriptor of a file whose first cluster is a 16-bit number and whose
-- chain has a cluster of the disk for each of its first `length` bytes, fat16_read of elements of
-- at least one byte that end within that length, each of which starts at a cluster or lies in one,
-- returns the number of elements with the bytes of the file from the descriptor's position on, and
-- moves the position behind them.
pub read-file_byte :
    (platform : Platform) (content : ℕ → ℕ) (volume : Volume) (item : DirectoryItem)
    (length offset size nmemb f p : ℕ)
    → IsMounted platform content volume
    → get_first_cluster item < 65536
    → 0 < size
    → offset + nmemb * size ≤ length
    → IsStored content volume (get_first_cluster item) length
    → FitClusters volume offset size nmemb
    → (f' : ℕ) × ((p' : ℕ) × (read platform
            (streams_at platform volume f p)
            (record { item = FatItem.file item; pos = offset })
            size
            nmemb
          ≡ some (
            pos nmemb,
            (
              slice (file_byte content volume (get_first_cluster item)) offset (nmemb * size),
              (
                streams_at platform volume f' p',
                record { item = FatItem.file item; pos = offset + nmemb * size },
              ),
            ),
          )))
unfolding read
read-file_byte platform content volume item length offset size nmemb f p mounted word some_bytes
      inside stored fit =
    let (f', (p', bytes)) =
      read_elements-file_byte platform content volume mounted (get_first_cluster item) length size
        word some_bytes stored nmemb offset f p inside fit in
    (
      f',
      (
        p',
        ap
            (finish_read (record { item = FatItem.file item; pos = offset }) (offset + nmemb * size)
              nmemb)
            bytes,
      ),
    )
