-- ===== src/Heap/Sequence.antt =====
-- Several calls of heap_malloc, one behind the other, on a heap with one long run of free blocks.
use kernel_nesemulator.Prelude.{
  ℕ, zero, suc, ◌+◌, ◌-◌, ◌*◌, ◌≡◌, ◌==◌, if◌then◌else◌, refl, ap, ◌∙◌, sym, true, false, some,
  List, [], ◌∷◌, ◌++◌, arith, length, take, drop,
}
use mathlib.Core.Path.{subst}
use kernel_nesemulator.Heap.{Heap, block_size, malloc_blocks, entry_free, get_entry_type, free}
use kernel_nesemulator.Heap.Mark.{cells, head_entry}
use kernel_nesemulator.Heap.Search.{is_free, free_prefix, free_prefix_mono}
use kernel_nesemulator.Heap.RoundTrip.{IsValid, FreeRun, behind, allocated}
use kernel_nesemulator.Heap.Claims.{
  malloc_blocks-fits, allocated-IsValid, length-cells, free-allocated,
}

suc_add : (a b : ℕ) → suc a + b ≡ suc (a + b)
suc_add a b = omega arith

drop-nil : (n : ℕ) → drop {A = ℕ} n [] ≡ []
drop-nil zero = refl
drop-nil (suc n) = refl

drop-drop : (n m : ℕ) (xs : List ℕ) → drop m (drop n xs) ≡ drop (n + m) xs
drop-drop zero m xs = ap (λ k. drop k xs) (omega arith)
drop-drop (suc n) m [] = drop-nil m ∙ sym (drop-nil (suc n + m))
drop-drop (suc n) m (x ∷ xs) = drop-drop n m xs ∙ ap (λ k. drop k (x ∷ xs)) (sym (suc_add n m))

drop-append : (xs ys : List ℕ) (m : ℕ) → drop (length xs + m) (xs ++ ys) ≡ drop m ys
drop-append [] ys m = ap (λ k. drop k ys) (omega arith)
drop-append (x ∷ xs) ys m =
    ap (λ k. drop k (x ∷ (xs ++ ys))) (suc_add (length xs) m) ∙ drop-append xs ys m

free_prefix-drop :
    (n m : ℕ) (xs : List ℕ) → free_prefix (n + m) xs ≡ true → free_prefix m (drop n xs) ≡ true
unfolding free_prefix
free_prefix-drop zero m xs run = ap (λ k. free_prefix k xs) (omega arith) ∙ run
free_prefix-drop (suc n) zero xs run = refl
free_prefix-drop (suc n) (suc m) [] run = sym (ap (λ k. free_prefix k []) (suc_add n (suc m))) ∙ run
free_prefix-drop (suc n) (suc m) (x ∷ xs) run =
    let whole : free_prefix (suc (n + suc m)) (x ∷ xs) ≡ true =
      sym (ap (λ k. free_prefix k (x ∷ xs)) (suc_add n (suc m))) ∙ run in
    ground (arith, whole, free_prefix-drop n (suc m) xs)

-- The table behind an allocation is as before.
drop-allocated :
    (heap : Heap) (n i j : ℕ)
    → FreeRun heap n i
    → drop (i + (n + j)) (allocated heap n i).entries ≡ drop (i + (n + j)) heap.entries
drop-allocated heap n i j r =
    let entries = heap.entries in
    let before = take i entries in
    let used = cells n (head_entry n) in
    ap (λ b. drop (b + (n + j)) (before ++ (used ++ behind n i entries))) (sym r.begins)
    ∙ (drop-append before (used ++ behind n i entries) (n + j)
        ∙ (ap (λ b. drop (b + j) (used ++ behind n i entries)) (sym (length-cells n (head_entry n)))
            ∙ (drop-append used (behind n i entries) j
                ∙ (drop-drop n j (drop i entries) ∙ drop-drop i (n + j) entries))))

-- heap_malloc_blocks with a run of free blocks that goes on behind what it needs.
pub record Takes (heap : Heap) (n k m i : ℕ) : Type 0 where
  pub gives : malloc_blocks heap n ≡ (heap.saddr + i * block_size, allocated heap n i)
  pub run : FreeRun heap n i
  pub valid : IsValid (allocated heap n i)
  pub rest : free_prefix m (drop (k + n) (allocated heap n i).entries) ≡ true

pub takes :
    (heap : Heap) (n k m : ℕ)
    → IsValid heap
    → free_prefix (suc n + m) (drop k heap.entries) ≡ true
    → (i : ℕ) × Takes heap (suc n) k m i
takes heap n k m v long =
    let short = free_prefix_mono (suc n) (suc n + m) (drop k heap.entries) (omega arith) long in
    let (i, gives, run, before) = malloc_blocks-fits heap n k v short in
    let at : i + (suc n + (k - i)) ≡ k + suc n = omega (arith, before) in
    (
      i,
      record {
        gives = gives;
        run = run;
        valid = allocated-IsValid heap n i v run;
        rest =
            ap (λ b. free_prefix m (drop b (allocated heap (suc n) i).entries)) (sym at)
            ∙ (ap (free_prefix m) (drop-allocated heap (suc n) i (k - i) run)
                ∙ (ap (λ b. free_prefix m (drop b heap.entries)) at
                    ∙ (ap (free_prefix m) (sym (drop-drop k (suc n) heap.entries))
                        ∙ free_prefix-drop (suc n) m (drop k heap.entries) long)));
      },
    )

-- A heap on which `m` free blocks follow one another.
pub record Left (m : ℕ) (heap : Heap) : Type 0 where
  pub valid : IsValid heap
  pub place : ℕ
  pub run : free_prefix m (drop place heap.entries) ≡ true

pub Left-of_eq : {heap : Heap} {n m : ℕ} → n ≡ m → Left n heap → Left m heap
Left-of_eq {heap} e left = subst (λ n. Left n heap) e left

-- How many entries of a table are free.
unfoldable pub free_blocks : List ℕ → ℕ
free_blocks [] = 0
free_blocks (entry ∷ entries) = (if is_free entry then 1 else 0) + free_blocks entries

free_blocks-append : (xs ys : List ℕ) → free_blocks (xs ++ ys) ≡ free_blocks xs + free_blocks ys
unfolding free_blocks
free_blocks-append [] ys = omega arith
free_blocks-append (x ∷ xs) ys = omega (arith, free_blocks-append xs ys)

-- An allocation of one block takes one free entry.
free_blocks-allocated :
    (heap : Heap) (i : ℕ)
    → FreeRun heap 1 i
    → free_blocks (allocated heap 1 i).entries + 1 ≡ free_blocks heap.entries
unfolding free_blocks get_entry_type
free_blocks-allocated heap i r =
    let before = take i heap.entries in
    let after = behind 1 i heap.entries in
    omega (
      arith,
      free_blocks-append before (head_entry 1 ∷ after),
      free_blocks-append before (entry_free ∷ after),
      ap free_blocks r.split,
    )

-- One block of such a heap.
pub one_taken :
    (heap : Heap) (m : ℕ)
    → Left (suc m) heap
    → (address : ℕ) × (after : Heap) × (malloc_blocks heap 1 ≡ (address, after))
      × ((address == 0) ≡ false)
      × Left m after
      × (free_blocks after.entries + 1 ≡ free_blocks heap.entries)
      × (free after address ≡ some heap)
one_taken heap m left =
    let long : free_prefix (1 + m) (drop left.place heap.entries) ≡ true =
      ap (λ n. free_prefix n (drop left.place heap.entries)) (omega arith) ∙ left.run in
    let (i, t) = takes heap 0 left.place m left.valid long in
    (
      heap.saddr + i * block_size,
      allocated heap 1 i,
      t.gives,
      ground (arith, left.valid.nonnull),
      record { valid = t.valid; place = left.place + 1; run = t.rest },
      free_blocks-allocated heap i t.run,
      free-allocated heap 0 i left.valid t.run,
    )
