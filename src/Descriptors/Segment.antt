-- ===== src/Descriptors/Segment.antt =====
-- What the processor reads from an entry of the GDT.
use kernel_nesemulator.Prelude.{
  ℕ, ◌+◌, ◌*◌, ◌/◌, ◌%◌, ◌^◌, ◌<◌, ◌≡◌, ◌⊎◌, ◌≤◌, refl, ap, ◌∙◌, bit_or, true, false, some, ltb,
  leb, ◌==◌, ◌!=◌, if◌then◌else◌, arith, Bool-cases, inl, inr, ==_iff, ltb-false→le,
}
use kernel_nesemulator.Prelude.Bytes.{all_below, all_below_sound}
use kernel_nesemulator.Descriptors.{GdtStructured, Entry, encode_entry}

-- The segment that an entry describes to the processor: with the granularity bit, the limit counts
-- pages.
abbrev pub decode_entry : Entry → GdtStructured
decode_entry entry =
    let limit = entry.byte0 + 2 ^ 8 * entry.byte1 + 2 ^ 16 * (entry.byte6 % 16) in
    record {
      base = entry.byte2 + 2 ^ 8 * entry.byte3 + 2 ^ 16 * entry.byte4 + 2 ^ 24 * entry.byte7;
      limit = if leb 128 entry.byte6 then limit * 4096 + 4095 else limit;
      type = entry.byte5;
    }

small_table : all_below 16 (λ n. bit_or 0x40 n == 0x40 + n) ≡ true
unfolding all_below
small_table = refl

large_table : all_below 16 (λ n. bit_or 0xC0 n == 0xC0 + n) ≡ true
unfolding all_below
large_table = refl

small_flags : (n : ℕ) → n < 16 → bit_or 0x40 n ≡ 0x40 + n
small_flags n h =
    (==_iff (bit_or 0x40 n) (0x40 + n)).0
      (all_below_sound 16 (λ n. bit_or 0x40 n == 0x40 + n) n small_table h)

large_flags : (n : ℕ) → n < 16 → bit_or 0xC0 n ≡ 0xC0 + n
large_flags n h =
    (==_iff (bit_or 0xC0 n) (0xC0 + n)).0
      (all_below_sound 16 (λ n. bit_or 0xC0 n == 0xC0 + n) n large_table h)

base_bytes :
    (base : ℕ)
    → base < 2 ^ 32
    → base % 2 ^ 8
        + 2 ^ 8 * (base / 2 ^ 8 % 2 ^ 8)
        + 2 ^ 16 * (base / 2 ^ 16 % 2 ^ 8)
        + 2 ^ 24 * (base / 2 ^ 24 % 2 ^ 8)
      ≡ base
base_bytes base h = omega arith

small_limit :
    (limit n : ℕ)
    → limit ≤ 65536
    → n ≡ limit / 2 ^ 16 % 2 ^ 4
    → (if leb 128 (0x40 + n)
        then (limit % 2 ^ 8 + 2 ^ 8 * (limit / 2 ^ 8 % 2 ^ 8) + 2 ^ 16 * ((0x40 + n) % 16)) * 4096
          + 4095
        else limit % 2 ^ 8 + 2 ^ 8 * (limit / 2 ^ 8 % 2 ^ 8) + 2 ^ 16 * ((0x40 + n) % 16))
      ≡ limit
small_limit limit n h e =
    let test : leb 128 (0x40 + n) ≡ false = ground arith in rw test (omega arith)

large_limit :
    (limit n : ℕ)
    → limit < 2 ^ 32
    → limit % 2 ^ 12 ≡ 0xFFF
    → n ≡ limit / 2 ^ 12 / 2 ^ 16 % 2 ^ 4
    → (if leb 128 (0xC0 + n)
        then (limit / 2 ^ 12 % 2 ^ 8
              + 2 ^ 8 * (limit / 2 ^ 12 / 2 ^ 8 % 2 ^ 8)
              + 2 ^ 16 * ((0xC0 + n) % 16))
            * 4096
          + 4095
        else limit / 2 ^ 12 % 2 ^ 8
          + 2 ^ 8 * (limit / 2 ^ 12 / 2 ^ 8 % 2 ^ 8)
          + 2 ^ 16 * ((0xC0 + n) % 16))
      ≡ limit
large_limit limit n h pages e =
    let test : leb 128 (0xC0 + n) ≡ true = ground arith in rw test (omega arith)

pages_of :
    (limit : ℕ)
    → (limit ≤ 65536) ⊎ (limit % 2 ^ 12 ≡ 0xFFF)
    → ltb 65536 limit ≡ true
    → limit % 2 ^ 12 ≡ 0xFFF
pages_of limit (inl below) large = absurd (ground arith)
pages_of limit (inr whole) large = whole

-- For a segment with a 32-bit base and a limit of at most 65536, or else a 32-bit limit that ends a
-- page, encodeGdtEntry makes an entry that describes this segment to the processor.
pub decode-encode_entry :
    (source : GdtStructured)
    → source.base < 2 ^ 32
    → source.limit < 2 ^ 32
    → (source.limit ≤ 65536) ⊎ (source.limit % 2 ^ 12 ≡ 0xFFF)
    → (entry : Entry) × ((encode_entry source ≡ some entry) × (decode_entry entry ≡ source))
unfolding encode_entry
decode-encode_entry source base_32 limit_32 fits = elim (Bool-cases (ltb 65536 source.limit)) [
  | inl large ↦
      let pages = pages_of source.limit fits large in
      let whole : (source.limit % 2 ^ 12 != 0xFFF) ≡ false = ground arith in
      let top = source.limit / 2 ^ 12 / 2 ^ 16 % 2 ^ 4 in
      let low = source.limit / 2 ^ 12 % 2 ^ 8 + 2 ^ 8 * (source.limit / 2 ^ 12 / 2 ^ 8 % 2 ^ 8) in
      let limit =
        ap
          (λ b.
            if leb 128 b then (low + 2 ^ 16 * (b % 16)) * 4096 + 4095 else low + 2 ^ 16 * (b % 16))
          (large_flags top (omega arith))
        ∙ large_limit source.limit top limit_32 pages refl in
      (
        _,
        (
          rw (large, whole) refl,
          λ t. record {
            base = base_bytes source.base base_32 t;
            limit = limit t;
            type = source.type;
          },
        ),
      )
  | inr small ↦
      let top = source.limit / 2 ^ 16 % 2 ^ 4 in
      let low = source.limit % 2 ^ 8 + 2 ^ 8 * (source.limit / 2 ^ 8 % 2 ^ 8) in
      let limit =
        ap
          (λ b.
            if leb 128 b then (low + 2 ^ 16 * (b % 16)) * 4096 + 4095 else low + 2 ^ 16 * (b % 16))
          (small_flags top (omega arith))
        ∙ small_limit source.limit top (ltb-false→le 65536 source.limit small) refl in
      (
        _,
        (
          rw small refl,
          λ t. record {
            base = base_bytes source.base base_32 t;
            limit = limit t;
            type = source.type;
          },
        ),
      )
]
