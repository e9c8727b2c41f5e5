-- ===== src/Vfs/Slots.antt =====
-- The table of descriptors.
use native.Mathlib.Decide.{ℕ_discrete}
use kernel_nesemulator.Prelude.{
  ℕ, zero, suc, ◌+◌, ◌<◌, ◌≡◌, ◌≢◌, refl, sym, ap, ◌∙◌, Option, none, some, [], ◌∷◌, length, get_or,
  set, length-set, get_or-set_self, get_or-set_ne, arith, leb, ℤ, pos, negsuc, Bool-cases, inl, inr,
}
use kernel_nesemulator.Vfs.{FileDescriptor, Slots, free_slot, get_descriptor}

-- 512 entries, each free or a descriptor that counts its place from 1 and stands in memory.
pub record IsTable (slots : Slots) : Type 0 where
  pub sized : length slots ≡ 512
  pub indexed :
      (i : ℕ) (descriptor : FileDescriptor)
      → get_or slots i none ≡ some descriptor
      → (descriptor.index ≡ i + 1) × (descriptor.address ≢ 0)

pub free_slot-none :
    (slots : Slots) (k i : ℕ)
    → free_slot slots k ≡ some i
    → (j : ℕ) × ((i ≡ k + j) × ((j < length slots) × (get_or slots j none ≡ none)))
unfolding free_slot
free_slot-none [] k i e = cc
free_slot-none (none ∷ slots) k i e = (0, (ground arith, (omega arith, refl)))
free_slot-none (some descriptor ∷ slots) k i e =
    let (j, (place, (inside, free))) = free_slot-none slots (k + 1) i e in
    (suc j, (omega (arith, place), (omega (arith, inside), free)))

pub get_descriptor-slot :
    (slots : Slots) (fd : ℤ) (descriptor : FileDescriptor)
    → get_descriptor slots fd ≡ some descriptor
    → (i : ℕ) × ((fd ≡ pos (suc i)) × ((i < 511) × (get_or slots i none ≡ some descriptor)))
unfolding get_descriptor
get_descriptor-slot slots (negsuc n) descriptor e = cc
get_descriptor-slot slots (pos zero) descriptor e = cc
get_descriptor-slot slots (pos (suc i)) descriptor e = elim (Bool-cases (leb 512 (suc i))) [
  | inl large ↦ cc (rw large at e)
  | inr small ↦ (i, (refl, (ground (arith, small), rw small at e)))
]

pub set-IsTable :
    (slots : Slots) (i : ℕ) (entry : Option FileDescriptor)
    → IsTable slots
    → ((descriptor : FileDescriptor)
        → entry ≡ some descriptor
        → (descriptor.index ≡ i + 1) × (descriptor.address ≢ 0))
    → i < 512
    → IsTable (set slots i entry)
set-IsTable slots i entry table fits inside = record {
  sized = length-set slots i entry ∙ table.sized;
  indexed = λ j descriptor e. elim (ℕ_discrete i j) [
    | yes same ↦
        let here : get_or (set slots i entry) i none ≡ entry =
          get_or-set_self slots i entry none (omega (arith, table.sized, inside)) in
        let (index, address) =
          fits descriptor (sym here ∙ (ap (λ k. get_or (set slots i entry) k none) same ∙ e)) in
        (omega (arith, index, same), address)
    | no other ↦ table.indexed j descriptor (sym (get_or-set_ne slots i j entry none other) ∙ e)
  ];
}

-- Taking an entry and freeing it again.
pub set-restores :
    (slots : Slots) (i : ℕ) (descriptor : FileDescriptor)
    → get_or slots i none ≡ none
    → i < length slots
    → set (set slots i (some descriptor)) i none ≡ slots
set-restores [] i descriptor free inside = absurd (omega arith)
set-restores (entry ∷ slots) zero descriptor free inside = ap (λ e. e ∷ slots) (sym free)
set-restores (entry ∷ slots) (suc i) descriptor free inside =
    ap (◌∷◌ entry) (set-restores slots i descriptor free (omega arith))
