-- ===== src/Heap/Mark.antt =====
-- What heap_mark_blocks_taken and heap_mark_blocks_free do to a table seen in three parts.
use kernel_nesemulator.Prelude.{
  ap₂, pos, ℕ, zero, suc, ◌+◌, ◌≤◌, ◌<◌, ◌≡◌, refl, ap, ◌∙◌, false, some, List, [], ◌∷◌, ◌++◌,
  arith, ◌==◌, ◌!=◌, ltb, if◌then◌else◌, length, set, get_or, replicate, bit_and, bit_or,
}
use kernel_nesemulator.Heap.{
  entry_taken, entry_free, has_next, is_first, mark_loop, mark_blocks_taken, free_loop,
  mark_blocks_free,
}

-- The entry behind a block when `n` blocks are left of the allocation.
abbrev pub link : ℕ → ℕ
link n = if n == 1 then entry_taken else bit_or entry_taken has_next

-- `n` entries, the first of them `entry`.
abbrev pub cells : ℕ → ℕ → List ℕ
cells zero entry = []
cells (suc n) entry = entry ∷ cells n (link n)

-- The first entry of an allocation of `n` blocks.
abbrev pub head_entry : ℕ → ℕ
head_entry n =
    if ltb 1 n then bit_or (bit_or entry_taken is_first) has_next else bit_or entry_taken is_first

-- An access at the end of the first part.
get_or-end : (before after : List ℕ) → (x : ℕ) → get_or (before ++ x ∷ after) (length before) 0 ≡ x
get_or-end [] after x = refl
get_or-end (y ∷ before) after x = get_or-end before after x

set-end :
    (before after : List ℕ) (x v : ℕ)
    → set (before ++ x ∷ after) (length before) v ≡ before ++ v ∷ after
set-end [] after x v = refl
set-end (y ∷ before) after x v = ap (◌∷◌ y) (set-end before after x v)

length-snoc : (before : List ℕ) (x : ℕ) → length (before ++ x ∷ []) ≡ length before + 1
length-snoc [] x = omega arith
length-snoc (y ∷ before) x = omega (arith, length-snoc before x)

snoc-append : (before after : List ℕ) (x : ℕ) → (before ++ x ∷ []) ++ after ≡ before ++ x ∷ after
snoc-append [] after x = refl
snoc-append (y ∷ before) after x = ap (◌∷◌ y) (snoc-append before after x)

mark_loop-append :
    (before run after : List ℕ) (i last entry : ℕ)
    → i ≡ length before
    → last + 1 ≡ i + length run
    → mark_loop (length run) (before ++ (run ++ after)) i last entry
      ≡ before ++ (cells (length run) entry ++ after)
unfolding mark_loop
mark_loop-append before [] after i last entry p q = refl
mark_loop-append before (x ∷ run) after i last entry p q =
    let n = length run in
    let at : set (before ++ (x ∷ (run ++ after))) i entry
        ≡ (before ++ entry ∷ []) ++ (run ++ after) =
      rw (p, set-end before (run ++ after) x entry, snoc-append before (run ++ after) entry) refl in
    let next : (if i + 1 != last then bit_or entry_taken has_next else entry_taken) ≡ link n =
      ground arith in
    let later =
      mark_loop-append (before ++ entry ∷ []) run after (i + 1) last (link n)
        (omega (arith, length-snoc before entry)) (omega arith) in
    ap₂ (λ entries e. mark_loop n entries (i + 1) last e) at next
    ∙ (later ∙ snoc-append before (cells n (link n) ++ after) entry)

-- The entry says whether a block of the allocation follows.
Linked : ℕ → ℕ → Type 0
Linked n entry = (bit_and entry has_next == 0) ≡ (n == 0)

Linked-link : (n : ℕ) → Linked n (link (suc n))
unfolding Linked
Linked-link n = ground arith

Linked-head : (n : ℕ) → Linked n (head_entry (suc n))
unfolding Linked
Linked-head n = ground arith

free_loop-append :
    (rounds n entry : ℕ) (before after : List ℕ) (i : ℕ)
    → i ≡ length before
    → suc n ≤ rounds
    → Linked n entry
    → free_loop rounds (before ++ (cells (suc n) entry ++ after)) i
      ≡ before ++ (replicate (suc n) entry_free ++ after)
unfolding free_loop Linked
free_loop-append zero n entry before after i p h l = absurd (omega arith)
free_loop-append (suc rounds) zero entry before after i p h l =
    rw (p, get_or-end before after entry, l) (set-end before after entry entry_free)
free_loop-append (suc rounds) (suc n) entry before after i p h l =
    let rest = link (suc n) ∷ (cells n (link n) ++ after) in
    let freed : set (before ++ (entry ∷ rest)) i entry_free ≡ (before ++ entry_free ∷ []) ++ rest =
      rw (p, set-end before rest entry entry_free, snoc-append before rest entry_free) refl in
    let later =
      free_loop-append rounds n (link (suc n)) (before ++ entry_free ∷ []) after (i + 1)
        (omega (arith, length-snoc before entry_free)) (omega arith) (Linked-link n) in
    let more : (bit_and entry has_next == 0) ≡ false = l ∙ ground arith in
    rw (p, get_or-end before rest entry, more, ← p, freed)
      (later ∙ snoc-append before (replicate (suc n) entry_free ++ after) entry_free)

-- heap_mark_blocks_taken on a run of blocks writes one allocation there, and nothing elsewhere.
pub mark_blocks_taken-append :
    (before run after : List ℕ) (total saddr : ℕ)
    → 0 < length run
    → mark_blocks_taken
        (record { entries = before ++ (run ++ after); total = total; saddr = saddr })
        (length before)
        (length run)
      ≡ record {
        entries = before ++ (cells (length run) (head_entry (length run)) ++ after);
        total = total;
        saddr = saddr;
      }
unfolding mark_blocks_taken
mark_blocks_taken-append before run after total saddr h =
    ap (λ entries. record { entries = entries; total = total; saddr = saddr })
      (mark_loop-append before run after (length before) _ _ refl (omega arith))

-- heap_mark_blocks_free from the first block of an allocation frees its blocks, and no others.
pub mark_blocks_free-append :
    (before after : List ℕ) (n total saddr : ℕ)
    → length before + suc n ≤ total
    → mark_blocks_free
        (record {
          entries = before ++ (cells (suc n) (head_entry (suc n)) ++ after);
          total = total;
          saddr = saddr;
        })
        (pos (length before))
      ≡ some (record {
        entries = before ++ (replicate (suc n) entry_free ++ after);
        total = total;
        saddr = saddr;
      })
unfolding mark_blocks_free
mark_blocks_free-append before after n total saddr h =
    ap (λ entries. some (record { entries = entries; total = total; saddr = saddr }))
      (free_loop-append _ n _ before after (length before) refl (omega arith) (Linked-head n))
