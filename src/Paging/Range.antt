-- ===== src/Paging/Range.antt =====
-- What paging_map_range and paging_map_to do on each path.
use kernel_nesemulator.Prelude.{
  ℕ, zero, suc, ◌+◌, ◌-◌, ◌/◌, ◌%◌, ◌<◌, ◌≤◌, ◌≡◌, ◌≢◌, refl, ap, ◌∙◌, bit_or, true, ◌||◌, ◌==◌,
  ◌!=◌, ltb, u32, ℤ, pos, neg, arith, Bool-cases, inl, inr, ◌⊎◌,
}
use kernel_nesemulator.Heap.{einvarg}
use kernel_nesemulator.Paging.{Memory, page_size, set, map, range_loop, map_range, map_to}
use kernel_nesemulator.Paging.Walk.{set-with_word}

-- The ways paging_map ends: an unaligned address, or a new entry.
map-cases :
    (memory : Memory) (directory virt phys flags : ℕ)
    → ((map memory directory virt phys flags ≡ (neg einvarg, memory))
        × ((virt % page_size ≢ 0) ⊎ (phys % page_size ≢ 0)))
      ⊎ ((map memory directory virt phys flags ≡ set memory directory virt (bit_or phys flags))
          × ((virt % page_size ≡ 0) × (phys % page_size ≡ 0)))
unfolding map
map-cases memory directory virt phys flags =
    elim (Bool-cases ((virt % page_size != 0) || (phys % page_size != 0))) [
      | inl off ↦ inl (rw off refl, ground arith)
      | inr on ↦ inr (rw on refl, (ground arith, ground arith))
    ]

map-aligned :
    (memory : Memory) (directory virt phys flags : ℕ)
    → virt % page_size ≡ 0
    → phys % page_size ≡ 0
    → map memory directory virt phys flags ≡ set memory directory virt (bit_or phys flags)
map-aligned memory directory virt phys flags hv hp =
    elim (map-cases memory directory virt phys flags) [
      | inl (_, off) ↦ absurd (ground (arith, off))
      | inr (done, _) ↦ done
    ]

unaligned_next :
    (virt phys : ℕ)
    → (virt % page_size ≢ 0) ⊎ (phys % page_size ≢ 0)
    → (u32 (virt + page_size) % page_size ≢ 0) ⊎ (u32 (phys + page_size) % page_size ≢ 0)
unaligned_next virt phys (inl h) = inl (λ e. h (omega arith))
unaligned_next virt phys (inr h) = inr (λ e. h (omega arith))

map-unaligned :
    (memory : Memory) (directory virt phys flags : ℕ)
    → (virt % page_size ≢ 0) ⊎ (phys % page_size ≢ 0)
    → map memory directory virt phys flags ≡ (neg einvarg, memory)
unfolding map
map-unaligned memory directory virt phys flags h =
    let off : ((virt % page_size != 0) || (phys % page_size != 0)) ≡ true = ground arith in
    rw off refl

range_loop-unaligned :
    (count : ℕ) (memory : Memory) (directory virt phys flags : ℕ)
    → (virt % page_size ≢ 0) ⊎ (phys % page_size ≢ 0)
    → range_loop count (neg einvarg) memory directory virt phys flags ≡ (neg einvarg, memory)
unfolding range_loop
range_loop-unaligned zero memory directory virt phys flags h = refl
range_loop-unaligned (suc count) memory directory virt phys flags h =
    let again = map-unaligned memory directory virt phys flags h in
    rw again (range_loop-unaligned count memory directory _ _ flags (unaligned_next virt phys h))

-- Whatever the number of pages is, if there is one, paging_map_range does what one call of
-- paging_map for the first page does, result and memory included.
pub map_range-map :
    (memory : Memory) (directory virt phys count flags : ℕ)
    → 0 < count
    → map_range memory directory virt phys count flags ≡ map memory directory virt phys flags
unfolding map_range range_loop
map_range-map memory directory virt phys zero flags h = absurd (omega arith)
map_range-map memory directory virt phys (suc count) flags h =
    elim (map-cases memory directory virt phys flags) [
      | inl (off, why) ↦
          rw off
            (range_loop-unaligned count memory directory _ _ flags (unaligned_next virt phys why))
      | inr (done, (virt_aligned, _)) ↦
          rw (done, set-with_word memory directory virt (bit_or phys flags) virt_aligned) refl
    ]

-- What paging_map_to gives for a destination and a range of physical addresses.
abbrev pub MapTo : Memory → ℕ → ℕ → ℕ → ℕ → ℕ → ℤ × Memory → Type 0
MapTo memory directory virt phys phys_end flags result =
    ((result ≡ (neg einvarg, memory))
      × ((virt % page_size ≢ 0)
          ⊎ (phys % page_size ≢ 0)
          ⊎ (phys_end % page_size ≢ 0)
          ⊎ (phys_end < phys)))
    ⊎ ((result ≡ (pos 0, memory)) × (phys_end ≡ phys))
    ⊎ ((result ≡ set memory directory virt (bit_or phys flags))
        × ((phys < phys_end) × ((virt % page_size ≡ 0) × (phys % page_size ≡ 0))))

map_range-none :
    (memory : Memory) (directory virt phys flags : ℕ)
    → map_range memory directory virt phys 0 flags ≡ (pos 0, memory)
unfolding map_range range_loop
map_range-none memory directory virt phys flags = refl

aligned_range :
    (memory : Memory) (directory virt phys phys_end flags : ℕ)
    → virt % page_size ≡ 0
    → phys % page_size ≡ 0
    → phys_end % page_size ≡ 0
    → phys ≤ phys_end
    → (let result = map_range memory directory virt phys ((phys_end - phys) / page_size) flags in
        ((result ≡ (pos 0, memory)) × (phys_end ≡ phys))
        ⊎ ((result ≡ set memory directory virt (bit_or phys flags))
            × ((phys < phys_end) × ((virt % page_size ≡ 0) × (phys % page_size ≡ 0)))))
aligned_range memory directory virt phys phys_end flags hv hp he order =
    elim (Bool-cases (phys_end == phys)) [
      | inl empty ↦
          let none_left : (phys_end - phys) / page_size ≡ 0 = ground arith in
          inl (
            ap (λ n. map_range memory directory virt phys n flags) none_left
                ∙ map_range-none memory directory virt phys flags,
            ground arith,
          )
      | inr more ↦
          let some_left : 0 < (phys_end - phys) / page_size = ground arith in
          inr (
            map_range-map memory directory virt phys _ flags some_left
                ∙ map-aligned memory directory virt phys flags hv hp,
            (ground arith, (hv, hp)),
          )
    ]

-- paging_map_to gives -EINVARG and leaves memory alone only if an address is unaligned or the range
-- ends before it starts. Else it returns 0 and does nothing for an empty range, and for any other
-- it does what paging_set of the first page does.
pub map_to-MapTo :
    (memory : Memory) (directory virt phys phys_end flags : ℕ)
    → MapTo memory directory virt phys phys_end flags
        (map_to memory directory virt phys phys_end flags)
unfolding map_to
map_to-MapTo memory directory virt phys phys_end flags = elim (Bool-cases (virt % page_size != 0)) [
  | inl off ↦ rw off (inl (refl, inl (ground arith)))
  | inr v ↦ elim (Bool-cases (phys % page_size != 0)) [
    | inl off ↦ rw (v, off) (inl (refl, inr (inl (ground arith))))
    | inr p ↦ elim (Bool-cases (phys_end % page_size != 0)) [
      | inl off ↦ rw (v, p, off) (inl (refl, inr (inr (inl (ground arith)))))
      | inr e ↦ elim (Bool-cases (ltb phys_end phys)) [
        | inl before ↦ rw (v, p, e, before) (inl (refl, inr (inr (inr (ground arith)))))
        | inr after ↦
            rw (v, p, e, after)
              (inr (
                aligned_range memory directory virt phys phys_end flags (ground arith)
                  (ground arith) (ground arith) (ground arith)))
      ]
    ]
  ]
]
