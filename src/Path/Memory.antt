-- ===== src/Path/Memory.antt =====
-- What the path parser takes of a heap with one long run of free blocks.
use kernel_nesemulator.Prelude.{
  ℕ, suc, ◌+◌, ◌*◌, ◌≡◌, refl, ◌∙◌, some, List, [], ◌∷◌, arith, length,
}
use kernel_nesemulator.Heap.{Heap, malloc, malloc_blocks, align_value_to_upper}
use kernel_nesemulator.Heap.Sequence.{Left, Left-of_eq, free_blocks, one_taken}
use kernel_nesemulator.Path.{PathRoot, allocate_parts, allocate_path}

one_block :
    (heap : Heap)
    → (malloc heap 108 ≡ malloc_blocks heap 1) × (malloc heap 8 ≡ malloc_blocks heap 1)
unfolding malloc align_value_to_upper
one_block heap = (refl, refl)

allocate_parts-Left :
    (parts : List (List ℕ)) (heap : Heap) (m : ℕ)
    → Left (2 * length parts + suc m) heap
    → (after : Heap) × (allocate_parts parts heap ≡ some after)
      × Left (suc m) after
      × (free_blocks after.entries + 2 * length parts ≡ free_blocks heap.entries)
unfolding allocate_parts
allocate_parts-Left [] heap m left =
    let enough : Left (suc m) heap = Left-of_eq (omega arith) left in
    let (address, h1, gives, nonnull, _, _, freed) = one_taken heap m enough in
    let (buffer, _) = one_block heap in (heap, rw (buffer ∙ gives) freed, enough, omega arith)
allocate_parts-Left (part ∷ parts) heap m left =
    let enough : Left (suc (suc (2 * length parts + suc m))) heap = Left-of_eq (omega arith) left in
    let (a1, h1, gives1, nonnull1, left1, count1, _) =
      one_taken heap (suc (2 * length parts + suc m)) enough in
    let (a2, h2, gives2, nonnull2, left2, count2, _) =
      one_taken h1 (2 * length parts + suc m) left1 in
    let (buffer, _) = one_block heap in
    let (_, node) = one_block h1 in
    let (after, allocates, rest, count) = allocate_parts-Left parts h2 m left2 in
    (
      after,
      rw (buffer ∙ gives1, node ∙ gives2, nonnull1, nonnull2) allocates,
      rest,
      omega (arith, count1, count2, count),
    )

-- The memory of a path is one block for the root and two for each part; the parser needs one more
-- for a while.
pub allocate_path-Left :
    (root : PathRoot) (heap : Heap) (m : ℕ)
    → Left (suc (2 * length root.parts + suc m)) heap
    → (after : Heap) × (allocate_path (some root) heap ≡ some after)
      × Left (suc m) after
      × (free_blocks after.entries + (2 * length root.parts + 1) ≡ free_blocks heap.entries)
unfolding allocate_path
allocate_path-Left root heap m left =
    let (address, h1, gives, nonnull, left1, count1, _) =
      one_taken heap (2 * length root.parts + suc m) left in
    let (_, node) = one_block heap in
    let (after, allocates, rest, count) = allocate_parts-Left root.parts h1 m left1 in
    (after, rw (node ∙ gives, nonnull) allocates, rest, omega (arith, count1, count))
