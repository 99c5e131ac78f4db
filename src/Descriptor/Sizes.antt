-- ===== src/Descriptor/Sizes.antt =====
-- The chunks of spsync/core/data/data_descriptor.cpp cut a data exactly.
use spsync.Prelude.{
  ℕ, zero, suc, ◌+◌, ◌-◌, ◌*◌, ◌/◌, ◌%◌, ◌^◌, ◌≤◌, ◌<◌, min, ◌≡◌, ap, ◌↔◌, inl, inr, true, arith,
  ◌==◌, if◌then◌else◌, Bool-cases, u64_mod,
}
use native.Mathlib.Nat.{div-add-mod', mod-lt, mul-le-mul_right}
use spsync.Descriptor.{DataDescriptor, per_chunk, chunk_count, chunk_enc_size, chunk_holds_range}

-- The chunks that cut `e` octets by `p`, the last one as short as it comes.
abbrev count_of : ℕ → ℕ → ℕ
count_of e p = e / p + (if e % p == 0 then 0 else 1)

-- Every counted chunk starts inside the data.
count_of_starts : (e p n : ℕ) → 0 < p → n < count_of e p → n * p < e
count_of_starts e p n h l = elim (Bool-cases (e % p == 0)) [
  | inl z ↦
      omega (arith, div-add-mod' e p, mul-le-mul_right {m = suc n} {n = e / p} p (ground arith))
  | inr z ↦
      let some_left : 0 < e % p = ground arith in
      omega (arith, div-add-mod' e p, mul-le-mul_right {m = n} {n = e / p} p (ground arith))
]

-- They end at or behind its end.
count_of_ends : (e p : ℕ) → 0 < p → e ≤ count_of e p * p
count_of_ends e p h = elim (Bool-cases (e % p == 0)) [
  | inl z ↦ let none_left : e % p ≡ 0 = ground arith in rw z (omega (arith, div-add-mod' e p))
  | inr z ↦ rw z (omega (arith, div-add-mod' e p, mod-lt e h))
]

module _ (tag_size : ℕ) (d : DataDescriptor) where
  -- The widths of the fields, a chunk size, and a tag shorter than 2 ^ 32 octets.
  pub record IsWide : Type 0 where
    pub enc : d.enc_size < u64_mod
    pub chunk : d.chunk_size < 2 ^ 32
    pub cut : 0 < d.chunk_size
    pub tag : tag_size < 2 ^ 32

  pub per_chunk_exact : IsWide → per_chunk tag_size d ≡ d.chunk_size + tag_size
  per_chunk_exact w = omega arith

  chunk_count-count_of :
      IsWide → chunk_count tag_size d ≡ count_of d.enc_size (per_chunk tag_size d)
  unfolding chunk_count
  chunk_count-count_of w = ground arith

  -- With no wrap: a chunk of the data is as long as a chunk, or as what is left.
  pub chunk_enc_size_exact :
      (n : ℕ)
      → IsWide
      → n < chunk_count tag_size d
      → (chunk_enc_size tag_size d n
          ≡ min (per_chunk tag_size d) (d.enc_size - n * per_chunk tag_size d))
        × (n * per_chunk tag_size d < d.enc_size)
  unfolding chunk_enc_size
  chunk_enc_size_exact n w l =
      let starts : n * per_chunk tag_size d < d.enc_size =
        count_of_starts d.enc_size (per_chunk tag_size d) n (omega (arith, per_chunk_exact w))
          (omega (arith, chunk_count-count_of w)) in
      (ground (arith, w.enc), starts)

  -- The sizes of the first `n` chunks, added up.
  pub total_enc_size : ℕ → ℕ
  total_enc_size zero = 0
  total_enc_size (suc n) = total_enc_size n + chunk_enc_size tag_size d n

  total_enc_size-min :
      (n : ℕ)
      → IsWide
      → n ≤ chunk_count tag_size d
      → total_enc_size n ≡ min (n * per_chunk tag_size d) d.enc_size
  unfolding total_enc_size
  total_enc_size-min zero w l = omega arith
  total_enc_size-min (suc n) w l =
      let (size, starts) = chunk_enc_size_exact n w l in
      omega (arith, total_enc_size-min n w (omega arith))

  pub chunk_enc_size_pos :
      (n : ℕ) → IsWide → n < chunk_count tag_size d → 0 < chunk_enc_size tag_size d n
  chunk_enc_size_pos n w l =
      let (size, starts) = chunk_enc_size_exact n w l in omega (arith, per_chunk_exact w)

  -- The sizes of all the chunks of a data whose fields have their widths add up to its size.
  pub total_enc_size-eq : IsWide → total_enc_size (chunk_count tag_size d) ≡ d.enc_size
  total_enc_size-eq w = omega (
    arith,
    total_enc_size-min (chunk_count tag_size d) w (omega arith),
    count_of_ends d.enc_size (per_chunk tag_size d) (omega (arith, per_chunk_exact w)),
    ap (λ (t : ℕ). t * per_chunk tag_size d) (chunk_count-count_of w),
  )

  -- Every chunk but the last is as long as the chunk size and the tag.
  pub chunk_enc_size_full :
      (n : ℕ)
      → IsWide
      → suc n < chunk_count tag_size d
      → chunk_enc_size tag_size d n ≡ d.chunk_size + tag_size
  chunk_enc_size_full n w l =
      let (size, starts) = chunk_enc_size_exact n w (omega arith) in
      let (_, next) = chunk_enc_size_exact (suc n) w l in omega (arith, per_chunk_exact w)

  pub chunk_enc_size_le : (n : ℕ) → IsWide → chunk_enc_size tag_size d n ≤ d.chunk_size + tag_size
  unfolding chunk_enc_size
  chunk_enc_size_le n w = ground (arith, per_chunk_exact w)

  -- The test of a range in a chunk, in which sums may wrap, holds just when the range ends in the chunk.
  pub chunk_holds_range_iff :
      (chunk_no offset size : ℕ)
      → IsWide
      → size < u64_mod
      → (chunk_holds_range tag_size d chunk_no offset size ≡ true)
        ↔ (offset + size ≤ chunk_enc_size tag_size d chunk_no)
  unfolding chunk_holds_range
  chunk_holds_range_iff chunk_no offset size w l = (
    (λ e. ground (arith, chunk_enc_size_le chunk_no w, w.chunk, w.tag)),
    (λ e. ground (arith, chunk_enc_size_le chunk_no w, w.chunk, w.tag)),
  )
