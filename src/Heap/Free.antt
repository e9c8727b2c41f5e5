-- ===== src/Heap/Free.antt =====
-- heap_free of any live allocation.
use kernel_nesemulator.Prelude.{
  ap₂, ℕ, zero, suc, ◌+◌, ◌*◌, ◌≤◌, ◌≡◌, ap, ◌∙◌, sym, Bool, true, false, Option, some, List, [],
  ◌∷◌, ◌++◌, arith, length, take, drop, get_elem?, replicate, ◌⊎◌, pos, length-append,
  length-replicate, length-take, take-append-drop, inl, inr,
}
use kernel_nesemulator.Heap.{Heap, block_size, entry_free, free, mark_blocks_free, address_to_block}
use kernel_nesemulator.Heap.Mark.{cells, head_entry, mark_blocks_free-append}
use kernel_nesemulator.Heap.Chain.{
  chain, and_then, advance, chain-replicate, chain-parts, chain-Tail,
}
use kernel_nesemulator.Heap.RoundTrip.{IsValid, behind}
use kernel_nesemulator.Heap.RoundTrip.{chain-cut, length-drop}
use kernel_nesemulator.Heap.Claims.{address_to_block-own, length-cells, with_entries}
use mathlib.Core.Path.{subst}

-- The entry of the first block of an allocation.
abbrev pub IsFirst : ℕ → Type 0
IsFirst entry = (entry ≡ 0x41) ⊎ (entry ≡ 0xc1)

-- An allocation at the head of a list of entries.
record Opens (entries : List ℕ) : Type 0 where
  more : ℕ
  split : entries ≡ cells (suc more) (head_entry (suc more)) ++ drop (suc more) entries
  after : chain false (drop (suc more) entries) ≡ some false

advance-first :
    (b : Bool) (entry : ℕ) (f : Bool → Option Bool)
    → and_then (advance b entry) f ≡ some false
    → IsFirst entry
    → (b ≡ false)
      × (((entry ≡ 0x41) × (f false ≡ some false)) ⊎ ((entry ≡ 0xc1) × (f true ≡ some false)))
advance-first b entry f h first = ground arith

chain-Opens :
    (b : Bool) (entry : ℕ) (rest : List ℕ)
    → chain b (entry ∷ rest) ≡ some false
    → IsFirst entry
    → (b ≡ false) × Opens (entry ∷ rest)
unfolding chain
chain-Opens b entry rest h first =
    let (out, cases) = advance-first b entry (λ c. chain c rest) h first in
    (
      out,
      elim cases [
        | inl (single, after) ↦ record {
          more = 0;
          split = ap (λ e. e ∷ rest) single;
          after = after;
        }
        | inr (several, inside) ↦
            let t = chain-Tail rest inside in
            let head : 0xc1 ≡ head_entry (suc (suc t.count)) = ground arith in
            record { more = suc t.count; split = ap₂ ◌∷◌ (several ∙ head) t.split; after = t.after }
      ],
    )

drop-get_elem? :
    (entries : List ℕ) (i e : ℕ)
    → get_elem? entries i ≡ some e
    → drop i entries ≡ e ∷ drop (suc i) entries
drop-get_elem? [] i e h = cc
drop-get_elem? (x ∷ entries) zero e h = ground arith
drop-get_elem? (x ∷ entries) (suc i) e h = drop-get_elem? entries i e h

-- The heap with the `n` blocks from `i` on free.
abbrev pub released : Heap → ℕ → ℕ → Heap
released heap n i = record heap {
  entries = take i heap.entries ++ (replicate n entry_free ++ behind n i heap.entries);
}

-- What heap_free does to the allocation whose first block is `i`.
pub record Released (heap : Heap) (i : ℕ) : Type 0 where
  pub more : ℕ
  pub was :
      heap.entries
      ≡ take i heap.entries
        ++ (cells (suc more) (head_entry (suc more)) ++ behind (suc more) i heap.entries)
  pub freed : free heap (heap.saddr + i * block_size) ≡ some (released heap (suc more) i)
  pub valid : IsValid (released heap (suc more) i)

-- On a valid heap, heap_free of the address of the first block of an allocation makes exactly the
-- blocks of that allocation free, and leaves a valid heap.
pub free-Released :
    (heap : Heap) (i e : ℕ)
    → IsValid heap
    → get_elem? heap.entries i ≡ some e
    → IsFirst e
    → Released heap i
unfolding free
free-Released heap i e v at first =
    let entries = heap.entries in
    let here = drop-get_elem? entries i e at in
    let (c, prefix, suffix) = chain-cut i entries v.chained in
    let (out, opens) =
      chain-Opens c e (drop (suc i) entries) (sym (ap (chain c) here) ∙ suffix) first in
    let o = subst Opens (sym here) opens in
    let n = suc o.more in
    let before = take i entries in
    let after = behind n i entries in
    let used = cells n (head_entry n) in
    let zeros = replicate n entry_free in
    let was : entries ≡ before ++ (used ++ after) =
      sym (take-append-drop i entries) ∙ ap (λ r. before ++ r) o.split in
    let room : n ≤ length (drop i entries) =
      omega (arith, ap length o.split, length-append used after, length-cells n (head_entry n)) in
    let inside : i + n ≤ length entries = omega (arith, room, length-drop i entries) in
    let begins : length before ≡ i = omega (arith, length-take {0} i entries, inside) in
    let fits : i + n ≤ heap.total = omega (arith, inside, v.sized) in
    let block : address_to_block heap (heap.saddr + i * block_size) ≡ pos (length before) =
      address_to_block-own heap i o.more v fits ∙ ap pos (sym begins) in
    record {
      more = o.more;
      was = was;
      freed =
          ap₂ (λ es b. mark_blocks_free (with_entries heap es) b) was block
          ∙ mark_blocks_free-append before after o.more heap.total heap.saddr
              (omega (arith, fits, begins));
      valid = record {
        sized = omega (
          arith,
          length-append before (used ++ after),
          length-append used after,
          length-cells n (head_entry n),
          length-append before (zeros ++ after),
          length-append zeros after,
          length-replicate {0} n entry_free,
          ap length was,
          v.sized,
        );
        chained = chain-parts before zeros after (prefix ∙ ap some out) (chain-replicate n) o.after;
        nonnull = v.nonnull;
        small = v.small;
        placed = v.placed;
      };
    }
