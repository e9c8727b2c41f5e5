-- ===== src/Heap/RoundTrip.antt =====
-- heap_malloc_blocks and heap_free on tables that are linked well.
use kernel_nesemulator.Prelude.{
  ap₂, ℕ, zero, suc, ◌+◌, ◌-◌, ◌*◌, ◌^◌, ◌≤◌, ◌<◌, ◌≡◌, refl, ap, ◌∙◌, sym, Bool, true, false,
  Option, none, some, List, [], ◌∷◌, ◌++◌, arith, length, take, drop, replicate, length-take,
  take-append-drop,
}
use kernel_nesemulator.Heap.{Heap, block_size, entry_free}
use kernel_nesemulator.Heap.Mark.{cells, head_entry}
use kernel_nesemulator.Heap.Search.{free_prefix}
use kernel_nesemulator.Heap.Chain.{
  chain, and_then, IsChained, chain-append, chain-replicate, chain-free,
}

-- The table is as long as `total` says, is linked well, and the pool lies inside the address space.
pub record IsValid (heap : Heap) : Type 0 where
  pub sized : length heap.entries ≡ heap.total
  pub chained : IsChained heap.entries
  pub nonnull : 0 < heap.saddr
  pub small : heap.total * block_size < 2 ^ 31
  pub placed : heap.saddr + heap.total * block_size < 2 ^ 32

-- The entries behind blocks `i` to `i + n - 1`.
abbrev pub behind : ℕ → ℕ → List ℕ → List ℕ
behind n i entries = drop n (drop i entries)

-- The heap with blocks `i` to `i + n - 1` as one allocation.
abbrev pub allocated : Heap → ℕ → ℕ → Heap
allocated heap n i = record heap {
  entries = take i heap.entries ++ (cells n (head_entry n) ++ behind n i heap.entries);
}

-- `n` free blocks from `i` on, and what stands round them.
pub record FreeRun (heap : Heap) (n i : ℕ) : Type 0 where
  pub split :
      heap.entries ≡ take i heap.entries ++ (replicate n entry_free ++ behind n i heap.entries)
  pub before : chain false (take i heap.entries) ≡ some false
  pub after : chain false (behind n i heap.entries) ≡ some false
  pub begins : length (take i heap.entries) ≡ i
  pub fits : i + n ≤ heap.total

pub take_all : (entries : List ℕ) → take (length entries) entries ≡ entries
take_all [] = refl
take_all (x ∷ entries) = ap (◌∷◌ x) (take_all entries)

and_then-some :
    (o : Option Bool) (f : Bool → Option Bool) (b : Bool)
    → and_then o f ≡ some b
    → (c : Bool) × (o ≡ some c) × (f c ≡ some b)
and_then-some none f b h = cc
and_then-some (some c) f b h = (c, refl, h)

prefix_length : (n : ℕ) (entries : List ℕ) → free_prefix n entries ≡ true → n ≤ length entries
unfolding free_prefix
prefix_length zero entries e = omega arith
prefix_length (suc n) [] e = cc
prefix_length (suc n) (x ∷ entries) e = ground (arith, prefix_length n entries)

pub length-drop : (n : ℕ) (entries : List ℕ) → length (drop n entries) ≡ length entries - n
length-drop zero entries = omega arith
length-drop (suc n) [] = omega arith
length-drop (suc n) (x ∷ entries) = omega (arith, length-drop n entries)

-- A table that is linked well, cut before entry `i`.
pub chain-cut :
    (i : ℕ) (entries : List ℕ)
    → IsChained entries
    → (c : Bool) × (chain false (take i entries) ≡ some c) × (chain c (drop i entries) ≡ some false)
chain-cut i entries h =
    and_then-some (chain false (take i entries)) (λ c. chain c (drop i entries)) false
      (sym (chain-append false (take i entries) (drop i entries))
        ∙ (ap (chain false) (take-append-drop i entries) ∙ h))

pub free_run :
    (heap : Heap) (n i : ℕ)
    → IsValid heap
    → free_prefix (suc n) (drop i heap.entries) ≡ true
    → FreeRun heap (suc n) i
free_run heap n i v run =
    let entries = heap.entries in
    let parts = take-append-drop i entries in
    let (c, first, second) = chain-cut i entries v.chained in
    let (out, zeros) = chain-free n c false (drop i entries) second run in
    let rest : chain false (replicate (suc n) entry_free ++ behind (suc n) i entries) ≡ some false =
      ap₂ chain (sym out) (sym zeros) ∙ second in
    record {
      split = sym parts ∙ ap (λ r. take i entries ++ r) zeros;
      before = first ∙ ap some out;
      after =
          ap (λ o. and_then o (λ d. chain d (behind (suc n) i entries)))
            (sym (chain-replicate (suc n)))
          ∙ (sym (chain-append false (replicate (suc n) entry_free) (behind (suc n) i entries))
              ∙ rest);
      begins =
          omega
            (arith, length-take {0} i entries, prefix_length (suc n) _ run, length-drop i entries);
      fits = omega (arith, v.sized, prefix_length (suc n) _ run, length-drop i entries);
    }
