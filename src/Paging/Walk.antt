-- ===== src/Paging/Walk.antt =====
-- What paging_set changes of the translation that the processor reads off the tables.
use kernel_nesemulator.Prelude.{
  ℕ, ◌+◌, ◌*◌, ◌/◌, ◌%◌, ◌^◌, ◌<◌, ◌≡◌, ◌≢◌, refl, sym, ap, ap₂, ◌∙◌, bit_and, true, some, ◌==◌,
  if◌then◌else◌, ℤ, pos, arith, Bool-cases, inl, inr,
}
use kernel_nesemulator.Paging.{Memory, word_at, with_word, page_size, is_aligned, get_indexes, set}

-- The table that entry `i` of a directory names.
abbrev pub table_of : Memory → ℕ → ℕ → ℕ
table_of memory directory i = bit_and (word_at memory directory i) 0xfffff000

-- The walk of the processor for the page of a virtual address: directory entry, then table entry.
abbrev pub walk : Memory → ℕ → ℕ → ℕ
walk memory directory virt =
    word_at memory (table_of memory directory (virt / 0x400000)) (virt / 0x1000 % 1024)

-- The directory and its tables stand in different pages.
pub record IsTree (memory : Memory) (directory : ℕ) : Type 0 where
  pub aligned : (i : ℕ) → i < 1024 → table_of memory directory i % 4096 ≡ 0
  pub directory_aligned : directory % 4096 ≡ 0
  pub apart : (i : ℕ) → i < 1024 → table_of memory directory i ≢ directory
  pub distinct :
      (i j : ℕ)
      → i < 1024
      → j < 1024
      → table_of memory directory i ≡ table_of memory directory j
      → i ≡ j

-- Words of different pages have different addresses, and so have different words of a page.
words_apart :
    (p q i j : ℕ)
    → p % 4096 ≡ 0
    → q % 4096 ≡ 0
    → i < 1024
    → j < 1024
    → p + 4 * i ≡ q + 4 * j
    → (p ≡ q) × (i ≡ j)
words_apart p q i j hp hq hi hj e = (omega arith, omega arith)

-- The two indexes that paging_get_indexes computes are in range and make up the page's number.
pub get_indexes-parts :
    (virt : ℕ)
    → virt < 2 ^ 32
    → virt % page_size ≡ 0
    → (d : ℕ) × ((t : ℕ) × ((get_indexes virt ≡ some (d, t))
          × ((d < 1024) × ((t < 1024) × ((d * 1024 + t) * page_size ≡ virt)))))
unfolding get_indexes is_aligned
get_indexes-parts virt h aligned = (
  virt / 0x400000,
  (virt % 0x400000 / 4096, (ground arith, (omega arith, (omega arith, omega arith)))),
)

pub set-with_word :
    (memory : Memory) (directory virt val : ℕ)
    → virt % page_size ≡ 0
    → set memory directory virt val ≡ (
      pos 0,
      with_word memory (table_of memory directory (virt / 0x400000)) (virt % 0x400000 / 4096) val,
    )
unfolding set get_indexes is_aligned
set-with_word memory directory virt val aligned =
    let yes : (virt % 4096 == 0) ≡ true = ground arith in rw yes refl

table_index-eq : (virt : ℕ) → virt % 0x400000 / 4096 ≡ virt / 4096 % 1024
table_index-eq virt = omega arith

elsewhere : (a b v w : ℕ) → a ≢ b → (if a == b then v else w) ≡ w
elsewhere a b v w h = ground arith

-- A store into a table leaves the directory alone.
table-with_word :
    (memory : Memory) (directory d t k val : ℕ)
    → IsTree memory directory
    → d < 1024
    → t < 1024
    → k < 1024
    → table_of (with_word memory (table_of memory directory d) t val) directory k
      ≡ table_of memory directory k
table-with_word memory directory d t k val tree hd ht hk =
    let table = table_of memory directory d in
    ap (λ w. bit_and w 0xfffff000)
      (elsewhere (directory + 4 * k) (table + 4 * t) val _ (λ e. tree.apart d hd (
        sym
          (words_apart directory table k t tree.directory_aligned (tree.aligned d hd) hk ht e).0)))

same_word :
    (memory : Memory) (table t val : ℕ) → word_at (with_word memory table t val) table t ≡ val
same_word memory table t val = ground arith

-- What is read at entry `u` of table `k` after the store at entry `t` of table `d`.
word-with_word :
    (memory : Memory) (directory d t k u val : ℕ)
    → IsTree memory directory
    → d < 1024
    → t < 1024
    → k < 1024
    → u < 1024
    → word_at (with_word memory (table_of memory directory d) t val) (table_of memory directory k) u
      ≡ (if k * 1024 + u == d * 1024 + t
          then val
          else word_at memory (table_of memory directory k) u)
word-with_word memory directory d t k u val tree hd ht hk hu =
    let p = table_of memory directory k in
    let q = table_of memory directory d in
    elim (Bool-cases (k * 1024 + u == d * 1024 + t)) [
      | inl hit ↦
          let tables : k ≡ d = ground arith in
          let entries : u ≡ t = ground arith in rw (hit, tables, entries) (same_word memory q t val)
      | inr miss ↦ rw miss (
          elsewhere (p + 4 * u) (q + 4 * t) val _ (λ e.
            let (pages, entries) =
              words_apart p q u t (tree.aligned k hk) (tree.aligned d hd) hu ht e in
            let tables = tree.distinct k d hk hd pages in
            absurd (ground (arith, tables, entries, miss))))
    ]

-- With a directory and tables in pages of their own, paging_set of a page makes the processor's
-- walk give the new entry for that page, and for every other page what it gave before.
pub walk-set :
    (memory : Memory) (directory virt other val : ℕ)
    → IsTree memory directory
    → virt < 2 ^ 32
    → other < 2 ^ 32
    → virt % page_size ≡ 0
    → walk (set memory directory virt val).1 directory other
      ≡ (if other / page_size == virt / page_size then val else walk memory directory other)
walk-set memory directory virt other val tree hv ho aligned =
    let d = virt / 0x400000 in
    let t = virt % 0x400000 / 4096 in
    let k = other / 0x400000 in
    let u = other / 0x1000 % 1024 in
    let hd : d < 1024 = omega arith in
    let ht : t < 1024 = omega arith in
    let hk : k < 1024 = omega arith in
    let hu : u < 1024 = omega arith in
    let after = with_word memory (table_of memory directory d) t val in
    let pages : k * 1024 + u ≡ other / 4096 = omega arith in
    let page : d * 1024 + t ≡ virt / 4096 = omega arith in
    ap (λ (p : ℤ × Memory). walk p.1 directory other)
      (set-with_word memory directory virt val aligned)
    ∙ (ap (λ table. word_at after table u)
          (table-with_word memory directory d t k val tree hd ht hk)
        ∙ (word-with_word memory directory d t k u val tree hd ht hk hu
            ∙ ap₂ (λ a b. if a == b then val else walk memory directory other) pages page))
