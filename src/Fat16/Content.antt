-- ===== src/Fat16/Content.antt =====
-- The bytes of a file along its chain of clusters, and what fat16_read_internal gives of them.
use native.Mathlib.Nat.{add-mod_right, div-mul-le_self, mod-lt}
use kernel_nesemulator.Prelude.{
  ℕ, zero, suc, ◌+◌, ◌-◌, ◌*◌, ◌/◌, ◌%◌, ◌^◌, ◌<◌, ◌≤◌, ◌≡◌, ◌⊎◌, refl, sym, ap, ◌∙◌, ◌++◌, true,
  false, Option, none, some, List, ltb, leb, if◌then◌else◌, slice, slice_ext, slice-append, pos,
  arith, Bool-cases, inl, inr,
}
use kernel_nesemulator.Prelude.Division.{mod-within, div-within}
use kernel_nesemulator.Disk.{Platform}
use kernel_nesemulator.Disk.Controller.{Serves}
use kernel_nesemulator.Disk.Stream.{DiskStream, seek}
use kernel_nesemulator.Disk.Stream.Content.{read-content}
use kernel_nesemulator.Fat16.{Volume, cluster_to_sector, size_of_cluster_bytes}
use kernel_nesemulator.Fat16.Cluster.{
  Reading, behind, with_cluster_stream, read_found, read_rest, seek_cluster, starting_pos,
  read_internal_from_stream, read_internal,
}
use kernel_nesemulator.Fat16.Chain.{
  chain_walk, streams_at, get_cluster_for_offset-chain_walk, cluster_or_eio,
}

-- The position on the disk at which a cluster starts.
abbrev pub cluster_start : Volume → ℕ → ℕ
cluster_start volume cluster =
    (volume.root_directory.ending_sector_pos
      + cluster * volume.sectors_per_cluster
      - 2 * volume.sectors_per_cluster)
    * volume.sector_size

abbrev pub byte_in : (ℕ → ℕ) → Volume → ℕ → Option ℕ → ℕ
byte_in content volume within none = 0
byte_in content volume within (some cluster) = content (cluster_start volume cluster + within)

-- Byte `i` of the file that starts at a cluster.
abbrev pub file_byte : (ℕ → ℕ) → Volume → ℕ → ℕ → ℕ
file_byte content volume start i =
    let size = size_of_cluster_bytes volume in
    byte_in content volume (i % size) (chain_walk content volume (i / size) start)

-- The chain of the file has a cluster of the disk for each of its first `length` bytes.
abbrev pub IsStored : (ℕ → ℕ) → Volume → ℕ → ℕ → Type 0
IsStored content volume start length =
    (k : ℕ)
    → k * size_of_cluster_bytes volume < length
    → (cluster : ℕ) × ((chain_walk content volume k start ≡ some cluster)
        × ((2 ≤ cluster) × (cluster_start volume cluster + size_of_cluster_bytes volume < 2 ^ 31)))

-- What a volume and its disk have to be like.
pub record IsMounted (platform : Platform) (content : ℕ → ℕ) (volume : Volume) : Type 0 where
  pub serves : Serves platform.drive content
  pub table_small : volume.reserved_sectors * volume.sector_size < 2 ^ 30
  pub nonzero : 0 < size_of_cluster_bytes volume

aligned_of : {r total size : ℕ} → (r ≡ 0) ⊎ (r + total ≤ size) → size < total → r ≡ 0
aligned_of (inl e) h = e
aligned_of (inr e) h = omega arith

fits_of : {r total size : ℕ} → (r ≡ 0) ⊎ (r + total ≤ size) → total ≤ size → r + total ≤ size
fits_of (inl e) h = omega arith
fits_of (inr e) h = e

join_slices : (f : ℕ → ℕ) (i m n k : ℕ) → m + n ≡ k → slice f i m ++ slice f (i + m) n ≡ slice f i k
join_slices f i m n k e = sym (slice-append f i m n) ∙ ap (slice f i) e

read_rest-more :
    (volume : Volume) (left : ℕ) (rest : Volume → Option Reading) (bytes : List ℕ)
    (stream : DiskStream)
    → 0 < left
    → read_rest volume left rest (some (pos 0, (bytes, stream)))
      ≡ behind bytes (rest (with_cluster_stream volume stream))
read_rest-more volume left rest bytes stream h =
    let test : ltb 0 left ≡ true = ground arith in rw (test, read_rest) refl

read_rest-done :
    (volume : Volume) (left : ℕ) (rest : Volume → Option Reading) (bytes : List ℕ)
    (stream : DiskStream)
    → left ≡ 0
    → read_rest volume left rest (some (pos 0, (bytes, stream)))
      ≡ some (pos 0, (bytes, with_cluster_stream volume stream))
read_rest-done volume left rest bytes stream h =
    let test : ltb 0 left ≡ false = ground arith in rw (test, read_rest) refl

-- A successful reading that leaves both streams on the disk.
abbrev pub Gives : Platform → Volume → Option Reading → (ℕ → ℕ) → ℕ → ℕ → Type 0
Gives platform volume reading byte offset total =
    (f : ℕ) × ((p : ℕ) × (reading
        ≡ some (pos 0, (slice byte offset total, streams_at platform volume f p))))

mul_mono : (a b k : ℕ) → a ≤ b → a * k ≤ b * k
mul_mono a b zero h = omega arith
mul_mono a b (suc k) h = omega (arith, mul_mono a b k h)

sector-start :
    (volume : Volume) (cluster : ℕ)
    → 2 ≤ cluster
    → cluster_to_sector volume cluster
      ≡ pos (
          volume.root_directory.ending_sector_pos
          + cluster * volume.sectors_per_cluster
          - 2 * volume.sectors_per_cluster)
unfolding cluster_to_sector
sector-start volume cluster h =
    let spc = volume.sectors_per_cluster in
    let a = volume.root_directory.ending_sector_pos + cluster * spc in
    let enough : (leb (2 * spc) a) ≡ true = ground (arith, mul_mono 2 cluster spc h) in
    rw enough refl

module _ (platform : Platform) (content : ℕ → ℕ) (volume : Volume)
    (mounted : IsMounted platform content volume) where
  -- One piece of a cluster, on the disk and in the file.
  piece-file_byte :
      (start offset count cluster : ℕ)
      → offset % size_of_cluster_bytes volume + count ≤ size_of_cluster_bytes volume
      → chain_walk content volume (offset / size_of_cluster_bytes volume) start ≡ some cluster
      → slice content (cluster_start volume cluster + offset % size_of_cluster_bytes volume) count
        ≡ slice (file_byte content volume start) offset count
  piece-file_byte start offset count cluster fits found =
      let size = size_of_cluster_bytes volume in
      slice_ext content (file_byte content volume start) _ offset count (λ k lt.
        let inside : offset % size + k < size = omega (arith, fits, lt) in
        let place : cluster_start volume cluster + offset % size + k
            ≡ cluster_start volume cluster + (offset + k) % size =
          omega (arith, mod-within offset k size inside) in
        ap content place
        ∙ ap (byte_in content volume ((offset + k) % size)) (
            sym found
            ∙ ap (λ n. chain_walk content volume n start) (sym (div-within offset k size inside))))

  -- What one call reads, whether it stays in the cluster or not, and where it goes on.
  read_found-disk :
      (offset total f p cluster t : ℕ)
      → t
        ≡ (if ltb (size_of_cluster_bytes volume) total then size_of_cluster_bytes volume else total)
      → 2 ≤ cluster
      → cluster_start volume cluster + offset % size_of_cluster_bytes volume + t < 2 ^ 31
      → (rest : Volume → ℕ → Option Reading)
      → read_found platform offset total rest (some (pos cluster, streams_at platform volume f p))
        ≡ read_rest
            (streams_at platform volume f p)
            (total - t)
            (λ after. rest after t)
            (some (
              pos 0,
              (
                slice content
                    (cluster_start volume cluster + offset % size_of_cluster_bytes volume)
                    t,
                record {
                  pos = cluster_start volume cluster + offset % size_of_cluster_bytes volume + t;
                  disk = platform.disk;
                },
              ),
            ))
  unfolding seek size_of_cluster_bytes
  read_found-disk offset total f p cluster t chosen valid placed rest =
      let size = volume.sectors_per_cluster * volume.sector_size in
      let here = streams_at platform volume f p in
      let at = cluster_start volume cluster + offset % size in
      let then_rest : Volume → Option Reading = λ after. rest after t in
      ap
        (λ n.
          seek_cluster platform here n (total - n) (λ after. rest after n)
            (starting_pos (cluster_to_sector here cluster) volume.sector_size (offset % size)))
        (sym chosen)
      ∙ (ap
            (λ z.
              seek_cluster platform here t (total - t) then_rest
                (starting_pos z volume.sector_size (offset % size)))
            (sector-start here cluster valid)
          ∙ ap (read_rest here (total - t) then_rest)
              (read-content platform content at t mounted.serves placed))

  -- The same for a piece of one cluster, as bytes of the file.
  read_found-piece :
      (start offset total f p cluster t : ℕ)
      → t
        ≡ (if ltb (size_of_cluster_bytes volume) total then size_of_cluster_bytes volume else total)
      → offset % size_of_cluster_bytes volume + t ≤ size_of_cluster_bytes volume
      → chain_walk content volume (offset / size_of_cluster_bytes volume) start ≡ some cluster
      → 2 ≤ cluster
      → cluster_start volume cluster + size_of_cluster_bytes volume < 2 ^ 31
      → (rest : Volume → ℕ → Option Reading)
      → read_found platform offset total rest (some (pos cluster, streams_at platform volume f p))
        ≡ read_rest
            (streams_at platform volume f p)
            (total - t)
            (λ after. rest after t)
            (some (
              pos 0,
              (
                slice (file_byte content volume start) offset t,
                record {
                  pos = cluster_start volume cluster + offset % size_of_cluster_bytes volume + t;
                  disk = platform.disk;
                },
              ),
            ))
  read_found-piece start offset total f p cluster t chosen fits found valid placed rest =
      let at = cluster_start volume cluster + offset % size_of_cluster_bytes volume in
      read_found-disk offset total f p cluster t chosen valid (omega (arith, fits, placed)) rest
      ∙ ap
          (λ s.
            read_rest (streams_at platform volume f p) (total - t) (λ after. rest after t)
              (some (pos 0, (s, record { pos = at + t; disk = platform.disk }))))
          (piece-file_byte start offset t cluster fits found)

  -- With more fuel than bytes to read, a reading that starts at a cluster or stays in one gives the
  -- file's bytes.
  read_from_stream-file_byte :
      (fuel start length offset total f p : ℕ)
      → total < fuel
      → start < 65536
      → 0 < total
      → offset + total ≤ length
      → IsStored content volume start length
      → (offset % size_of_cluster_bytes volume ≡ 0)
        ⊎ (offset % size_of_cluster_bytes volume + total ≤ size_of_cluster_bytes volume)
      → Gives platform volume
          (read_internal_from_stream fuel platform
            (streams_at platform volume f p)
            start
            offset
            total)
          (file_byte content volume start)
          offset
          total
  unfolding read_internal_from_stream
  read_from_stream-file_byte zero start length offset total f p less word some_bytes inside stored
        pieces =
      absurd (omega arith)
  read_from_stream-file_byte (suc fuel) start length offset total f p less word some_bytes inside
        stored pieces =
      let size = size_of_cluster_bytes volume in
      let byte = file_byte content volume start in
      let below : offset / size * size < length = omega (arith, div-mul-le_self offset size) in
      let (cluster, (found, (valid, placed))) = stored (offset / size) below in
      let (f', looked_up) =
        get_cluster_for_offset-chain_walk platform content volume f p start offset mounted.serves
          mounted.table_small mounted.nonzero word in
      let rest : Volume → ℕ → Option Reading = λ after now.
        read_internal_from_stream fuel platform after start (offset + now) (total - now) in
      let walked =
        looked_up ∙ ap (λ o. some (cluster_or_eio o, streams_at platform volume f' p)) found in
      elim (Bool-cases (ltb size total)) [
        | inl more ↦
            let aligned : offset % size ≡ 0 = aligned_of pieces (ground arith) in
            let next_aligned : (offset + size) % size ≡ 0 = add-mod_right offset size ∙ aligned in
            let chosen : size ≡ (if ltb size total then size else total) = rw more refl in
            let step =
              read_found-piece start offset total f' p cluster size chosen (omega (arith, aligned))
                found valid placed rest in
            let at = cluster_start volume cluster + offset % size + size in
            let (f2, (p2, later)) =
              read_from_stream-file_byte fuel start length (offset + size) (total - size) f' at
                (ground (arith, mounted.nonzero)) word (ground arith) (ground arith) stored
                (inl next_aligned) in
            let sum : size + (total - size) ≡ total = ground arith in
            (
              f2,
              (
                p2,
                ap (read_found platform offset total rest) walked
                    ∙ (step
                        ∙ (read_rest-more (streams_at platform volume f' p) (total - size)
                              (λ after. rest after size) (slice byte offset size)
                              (record { pos = at; disk = platform.disk }) (ground arith)
                            ∙ (ap (behind (slice byte offset size)) later ∙ λ t. some (
                              pos 0,
                              (
                                join_slices byte offset size (total - size) total sum t,
                                streams_at platform volume f2 p2,
                              ),
                            )))),
              ),
            )
        | inr last ↦
            let chosen : total ≡ (if ltb size total then size else total) = rw last refl in
            let fits : offset % size + total ≤ size = fits_of pieces (ground arith) in
            let step =
              read_found-piece start offset total f' p cluster total chosen fits found valid placed
                rest in
            (
              f',
              (
                cluster_start volume cluster + offset % size + total,
                ap (read_found platform offset total rest) walked
                    ∙ (step
                        ∙ read_rest-done (streams_at platform volume f' p) (total - total)
                            (λ after. rest after total) (slice byte offset total)
                            (record {
                              pos = cluster_start volume cluster + offset % size + total;
                              disk = platform.disk;
                            })
                            (omega arith)),
              ),
            )
      ]

-- On a mounted volume, a file whose chain has a cluster of the disk for each of its first `length`
-- bytes is read right by fat16_read_internal: for a range of at least one byte within that length,
-- that starts at the start of a cluster or lies in one cluster, the result is 0 and the bytes are
-- those of the file, along its chain.
pub read_internal-file_byte :
    (platform : Platform) (content : ℕ → ℕ) (volume : Volume) (start length offset total f p : ℕ)
    → IsMounted platform content volume
    → start < 65536
    → 0 < total
    → offset + total ≤ length
    → IsStored content volume start length
    → (offset % size_of_cluster_bytes volume ≡ 0)
      ⊎ (offset % size_of_cluster_bytes volume + total ≤ size_of_cluster_bytes volume)
    → Gives platform volume
        (read_internal platform (streams_at platform volume f p) start offset total)
        (file_byte content volume start)
        offset
        total
unfolding read_internal
read_internal-file_byte platform content volume start length offset total f p mounted =
    read_from_stream-file_byte platform content volume mounted (total + 1) start length offset total
      f p (omega arith)

-- On a mounted volume, for at most one cluster of bytes, from an offset whose cluster the chain
-- has, fat16_read_internal returns the bytes that follow on the disk behind the offset's place in
-- its cluster, also where they lie behind the cluster's end and so are not the file's.
pub read_internal-disk :
    (platform : Platform) (content : ℕ → ℕ) (volume : Volume) (start offset total f p cluster : ℕ)
    → IsMounted platform content volume
    → start < 65536
    → total ≤ size_of_cluster_bytes volume
    → chain_walk content volume (offset / size_of_cluster_bytes volume) start ≡ some cluster
    → 2 ≤ cluster
    → cluster_start volume cluster + 2 * size_of_cluster_bytes volume < 2 ^ 31
    → Gives platform volume
        (read_internal platform (streams_at platform volume f p) start offset total)
        content
        (cluster_start volume cluster + offset % size_of_cluster_bytes volume)
        total
unfolding read_internal read_internal_from_stream
read_internal-disk platform content volume start offset total f p cluster mounted word short found
      valid placed =
    let size = size_of_cluster_bytes volume in
    let at = cluster_start volume cluster + offset % size in
    let (f', looked_up) =
      get_cluster_for_offset-chain_walk platform content volume f p start offset mounted.serves
        mounted.table_small mounted.nonzero word in
    let rest : Volume → ℕ → Option Reading = λ after now.
      read_internal_from_stream total platform after start (offset + now) (total - now) in
    let walked =
      looked_up ∙ ap (λ o. some (cluster_or_eio o, streams_at platform volume f' p)) found in
    let one : ltb size total ≡ false = ground arith in
    let chosen : total ≡ (if ltb size total then size else total) = rw one refl in
    let within : offset % size < size = mod-lt offset mounted.nonzero in
    let fuel : total + 1 ≡ suc total = omega arith in
    (
      f',
      (
        at + total,
        ap
              (λ n.
                read_internal_from_stream n platform (streams_at platform volume f p) start offset
                  total)
              fuel
            ∙ (ap (read_found platform offset total rest) walked
                ∙ (read_found-disk platform content volume mounted offset total f' p cluster total
                      chosen valid (omega (arith, within, short, placed)) rest
                    ∙ read_rest-done (streams_at platform volume f' p) (total - total)
                        (λ after. rest after total) (slice content at total)
                        (record { pos = at + total; disk = platform.disk }) (omega arith))),
      ),
    )
