-- ===== src/HaveBitmap.antt =====
-- spsync/core/data/have_bitmap.hpp and have_bitmap.cpp: which chunks of a data are held, one bit for each.
-- An octet is a number below 256.
pub mod Octet
pub mod Tally
pub mod Bits
pub mod Laws
pub mod Changes
pub mod Chunks
pub mod Tests
use spsync.Prelude.{
  ℕ, zero, suc, ◌+◌, ◌-◌, ◌*◌, ◌/◌, ◌%◌, ◌^◌, ◌≤◌, ◌<◌, min, max, ◌≡◌, refl, sym, ap, ◌∙◌, subst,
  ◌≢◌, ◌↔◌, ◌⊎◌, inl, inr, Bool, true, false, not, ◌&&◌, ◌||◌, Option, none, some, List, [], ◌∷◌,
  ◌++◌, map, arith, ltb, leb, ◌==◌, if◌then◌else◌, Bool-cases, Option-cases, ==_iff, u64_mod, add64,
  sub64, length, get_elem?, take, All, Any, length-append, Octets, is_empty, eq_octets, lt_octets,
  eq_octets_iff,
}
use spsync.Prelude.{bit_and, bit_or}

pub record HaveBitmap : Type 0 where
  pub bits : Octets
  pub chunk_count : ℕ

-- The number of octets for a number of chunks.
abbrev pub octets_for : ℕ → ℕ
octets_for n = add64 n 7 / 8

-- An octet changed in place.
unfoldable pub adjust_at : ℕ → (ℕ → ℕ) → Octets → Octets
adjust_at i f [] = []
adjust_at zero f (o ∷ os) = f o ∷ os
adjust_at (suc i) f (o ∷ os) = o ∷ adjust_at i f os

unfoldable pub octet_at : Octets → ℕ → ℕ
octet_at [] i = 0
octet_at (o ∷ os) zero = o
octet_at (o ∷ os) (suc i) = octet_at os i

-- `resize` of a vector, with zero for new octets.
unfoldable pub resize : ℕ → Octets → Octets
resize zero os = []
resize (suc n) [] = 0 ∷ resize n []
resize (suc n) (o ∷ os) = o ∷ resize n os

-- Whether an octet has the bit.
unfoldable pub has_bit : ℕ → ℕ → Bool
has_bit o k = not (bit_and o (2 ^ k) == 0)

unfoldable pub normalise : HaveBitmap → HaveBitmap
unfolding resize adjust_at
normalise b =
    let bits = resize (octets_for b.chunk_count) b.bits in
    let used = b.chunk_count % 8 in
    record b {
      bits =
          if used == 0
          then bits
          else adjust_at (length bits - 1) (λ o. bit_and o (2 ^ used - 1)) bits;
    }

-- Nothing held of a data.
unfoldable pub nothing_held : ℕ → HaveBitmap
unfolding resize
nothing_held n = record { bits = resize (octets_for n) []; chunk_count = n }

-- From stored octets.
unfoldable pub of_octets : ℕ → Octets → HaveBitmap
unfolding normalise
of_octets n bits = normalise (record { bits = bits; chunk_count = n })

unfoldable pub test : HaveBitmap → ℕ → Bool
unfolding octet_at has_bit
test b n = ltb n b.chunk_count && has_bit (octet_at b.bits (n / 8)) (n % 8)

unfoldable pub set : ℕ → Bool → HaveBitmap → HaveBitmap
unfolding adjust_at
set n held b =
    let bit = 2 ^ (n % 8) in
    let change : ℕ → ℕ = if held then (λ o. bit_or o bit) else (λ o. bit_and o (255 - bit)) in
    if ltb n b.chunk_count then record b { bits = adjust_at (n / 8) change b.bits } else b

unfoldable pub set_all : HaveBitmap → HaveBitmap
unfolding normalise
set_all b = normalise (record b { bits = map (λ _. 255) b.bits })

unfoldable pub clear : HaveBitmap → HaveBitmap
clear b = record b { bits = map (λ _. 0) b.bits }

-- `std::popcount`, of the lowest bits.
unfoldable pub popcount : ℕ → ℕ → ℕ
popcount zero o = 0
popcount (suc k) o = o % 2 + popcount k (o / 2)

unfoldable pub popcounts : Octets → ℕ
unfolding popcount
popcounts [] = 0
popcounts (o ∷ os) = popcount 8 o + popcounts os

unfoldable pub count : HaveBitmap → ℕ
unfolding popcounts
count b = popcounts b.bits

unfoldable pub complete : HaveBitmap → Bool
unfolding count
complete b = count b == b.chunk_count

-- The loop of `first_missing`, over the chunks that are left.
unfoldable pub missing_after : HaveBitmap → ℕ → ℕ → ℕ
unfolding test
missing_after b zero n = n
missing_after b (suc left) n =
    let rest = missing_after b left (n + 1) in if test b n then rest else n

unfoldable pub first_missing : HaveBitmap → ℕ → ℕ
unfolding missing_after
first_missing b from =
    let start = min from b.chunk_count in missing_after b (b.chunk_count - start) start
