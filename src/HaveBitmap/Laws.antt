-- ===== src/HaveBitmap/Laws.antt =====
-- What the operations of spsync/core/data/have_bitmap.cpp do to a valid bitmap.
use spsync.Prelude.{
  ℕ, ◌+◌, ◌-◌, ◌*◌, ◌/◌, ◌%◌, ◌^◌, ◌≤◌, ◌<◌, ◌≡◌, ◌≢◌, refl, sym, ap, ◌∙◌, true, false, ◌&&◌, arith,
  ltb, Bool-cases, inl, inr, ◌==◌, Octets, length, All, bit_and, u64_mod,
}
use spsync.HaveBitmap.{HaveBitmap, adjust_at, octet_at, resize, octets_for, of_octets, test, count}
use spsync.HaveBitmap.Octet.{tally, has_bit-mask, mask-lt, mask_same}
use spsync.HaveBitmap.Tally.{tally-add, tally-ext, tally_none}
use spsync.HaveBitmap.Bits.{
  IsOctet, bit_at, octet_at-adjust_at, length-adjust_at, All-adjust_at, adjust_at_same,
  length-resize, All-resize, octet_at-resize, resize_same, octet_at-lt, popcounts-tally,
  bit_at-index, bit_at_past,
}

-- As many octets as the chunks want, and no bit after the last chunk.
pub record IsValid (b : HaveBitmap) : Type 0 where
  pub counts : b.chunk_count + 7 < u64_mod
  pub shape : length b.bits ≡ (b.chunk_count + 7) / 8
  pub octets : All IsOctet b.bits
  pub unused : (n : ℕ) → b.chunk_count ≤ n → n < 8 * length b.bits → bit_at b.bits n ≡ false

pub ltb_lt : (a b : ℕ) → ltb a b ≡ true → a < b
ltb_lt a b h = ground arith

ne_of_test : (a b : ℕ) → (a == b) ≡ false → a ≢ b
ne_of_test a b h = ground arith

pub octets_for_lem : (n : ℕ) → n + 7 < u64_mod → octets_for n ≡ (n + 7) / 8
octets_for_lem n h = omega arith

pub test-bit_at : (b : HaveBitmap) (n : ℕ) → test b n ≡ (ltb n b.chunk_count && bit_at b.bits n)
unfolding test bit_at
test-bit_at b n = refl

-- Of a valid bitmap the bits are the chunks that are held.
pub count-tally : (b : HaveBitmap) → IsValid b → count b ≡ tally (test b) b.chunk_count
unfolding count
count-tally b v =
    let n = b.chunk_count in
    let size = 8 * length b.bits in
    let whole : n + (size - n) ≡ size = omega (arith, v.shape) in
    let split = tally-add (bit_at b.bits) n (size - n) in
    let above =
      tally_none (λ i. bit_at b.bits (n + i)) (size - n)
        (λ i l. v.unused (n + i) (omega arith) (omega arith)) in
    let held = tally-ext (test b) (bit_at b.bits) n (λ i l. ground (arith, test-bit_at b i)) in
    let all = popcounts-tally b.bits v.octets in
    let e : tally (bit_at b.bits) (8 * length b.bits) ≡ tally (bit_at b.bits) (n + (size - n)) =
      ap (tally (bit_at b.bits)) (sym whole) in
    omega arith

module _ (n : ℕ) (bits : Octets) (c : n + 7 < u64_mod) where
  abbrev last_mask : ℕ → ℕ
  last_mask o = bit_and o (2 ^ (n % 8) - 1)

  abbrev size : ℕ
  size = (n + 7) / 8

  whole_octets : (n % 8 == 0) ≡ true → (of_octets n bits).bits ≡ resize size bits
  unfolding of_octets
  whole_octets e = rw (e, octets_for_lem n c) refl

  part_octets :
      (n % 8 == 0) ≡ false
      → (of_octets n bits).bits ≡ adjust_at (size - 1) last_mask (resize size bits)
  unfolding of_octets
  part_octets e = rw (e, octets_for_lem n c, length-resize ((n + 7) / 8) bits) refl

  length-of_octets : length (of_octets n bits).bits ≡ size
  length-of_octets = elim (Bool-cases (n % 8 == 0)) [
    | inl e ↦ rw (whole_octets e) (length-resize size bits)
    | inr e ↦
        rw (part_octets e, length-adjust_at (size - 1) last_mask (resize size bits))
          (length-resize size bits)
  ]

  module _ (h : All IsOctet bits) where
    All-of_octets : All IsOctet (of_octets n bits).bits
    All-of_octets = elim (Bool-cases (n % 8 == 0)) [
      | inl e ↦ rw (whole_octets e) (All-resize size bits h)
      | inr e ↦ rw (part_octets e) (
          All-adjust_at (size - 1) last_mask (resize size bits)
            (λ o k. mask-lt o (n % 8) k (omega arith)) (All-resize size bits h))
    ]

    -- Normalising keeps the bits of the chunks, and no other.
    bit_at-of_octets :
        (i : ℕ) → i < 8 * size → bit_at (of_octets n bits).bits i ≡ (ltb i n && bit_at bits i)
    unfolding bit_at
    bit_at-of_octets i l = elim (Bool-cases (n % 8 == 0)) [
      | inl e ↦ rw (whole_octets e, octet_at-resize size bits (i / 8) (omega arith)) (ground arith)
      | inr e ↦
          let inside : size - 1 < length (resize size bits) =
            omega (arith, length-resize size bits) in
          let m =
            has_bit-mask (octet_at bits (i / 8)) (n % 8) (i % 8) (octet_at-lt bits (i / 8) h)
              (omega arith) (omega arith) in
          rw
            (
              part_octets e,
              octet_at-adjust_at (size - 1) (i / 8) last_mask (resize size bits) inside,
              octet_at-resize size bits (i / 8) (omega arith),
            )
            (elim (Bool-cases (size - 1 == i / 8)) [
              | inl f ↦ rw f (ground (arith, m))
              | inr f ↦ rw f (ground arith)
            ])
    ]

pub of_octets_size : (n : ℕ) (bits : Octets) → (of_octets n bits).chunk_count ≡ n
unfolding of_octets
of_octets_size n bits = refl

pub of_octets-IsValid :
    (n : ℕ) (bits : Octets) → n + 7 < u64_mod → All IsOctet bits → IsValid (of_octets n bits)
unfolding of_octets
of_octets-IsValid n bits c h =
    let shape = length-of_octets n bits c in
    record {
      counts = c;
      shape = shape;
      octets = All-of_octets n bits c h;
      unused = λ i l m. ground (arith, bit_at-of_octets n bits c h i (omega arith));
    }

pub test-of_octets :
    (n : ℕ) (bits : Octets)
    → n + 7 < u64_mod
    → All IsOctet bits
    → (i : ℕ) → test (of_octets n bits) i ≡ (ltb i n && bit_at bits i)
test-of_octets n bits c h i = elim (Bool-cases (ltb i n)) [
  | inl e ↦ ground (
    arith,
    test-bit_at (of_octets n bits) i,
    of_octets_size n bits,
    bit_at-of_octets n bits c h i (ground arith),
  )
  | inr e ↦ ground (arith, test-bit_at (of_octets n bits) i, of_octets_size n bits)
]

-- A stored bitmap that is valid is read back as it was.
pub of_octets-octets : (b : HaveBitmap) → IsValid b → of_octets b.chunk_count b.bits ≡ b
of_octets-octets b v =
    let same : (of_octets b.chunk_count b.bits).bits ≡ b.bits =
      elim (Bool-cases (b.chunk_count % 8 == 0)) [
        | inl e ↦ rw (whole_octets b.chunk_count b.bits v.counts e) (resize_same _ b.bits v.shape)
        | inr e ↦
            rw
              (
                part_octets b.chunk_count b.bits v.counts e,
                resize_same ((b.chunk_count + 7) / 8) b.bits v.shape,
              )
              (adjust_at_same _ _ b.bits (
                mask_same _ _ (octet_at-lt b.bits _ v.octets) (omega arith) (λ j l m.
                  sym (bit_at-index b.bits _ j m)
                  ∙ v.unused _ (omega (arith, v.shape, ne_of_test (b.chunk_count % 8) 0 e))
                      (omega (arith, v.shape, ne_of_test (b.chunk_count % 8) 0 e)))))
      ] in
    ground (arith, same, of_octets_size b.chunk_count b.bits)

-- A bit of a valid bitmap is that of a chunk.
pub bit_at-lt : (b : HaveBitmap) (n : ℕ) → IsValid b → bit_at b.bits n ≡ true → n < b.chunk_count
bit_at-lt b n v h = elim (Bool-cases (ltb n b.chunk_count)) [
  | inl e ↦ ltb_lt n b.chunk_count e
  | inr e ↦ elim (Bool-cases (ltb n (8 * length b.bits))) [
    | inl i ↦ cc (v.unused n (ground arith) (ground arith), h)
    | inr o ↦ cc (bit_at_past b.bits n (ground arith), h)
  ]
]
