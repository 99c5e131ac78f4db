-- ===== src/HaveBitmap/Bits.antt =====
-- The octets of spsync/core/data/have_bitmap.cpp as a sequence of bits.
use spsync.Prelude.{
  ℕ, zero, suc, ◌+◌, ◌*◌, ◌/◌, ◌%◌, ◌<◌, ◌≤◌, ◌≡◌, refl, ap, Bool, false, [], ◌∷◌, map, arith,
  if◌then◌else◌, ◌==◌, Octets, length, All,
}
use spsync.HaveBitmap.{adjust_at, octet_at, resize, has_bit, popcounts}
use spsync.HaveBitmap.Octet.{tally, popcount-tally, has_bit-zero}
use spsync.HaveBitmap.Tally.{tally-add, tally-ext}

abbrev pub IsOctet : ℕ → Type 0
IsOctet o = o < 256

unfoldable pub bit_at : Octets → ℕ → Bool
bit_at os n = has_bit (octet_at os (n / 8)) (n % 8)

pub octet_at-adjust_at :
    (i j : ℕ) (f : ℕ → ℕ) (os : Octets)
    → i < length os
    → octet_at (adjust_at i f os) j ≡ (if i == j then f (octet_at os j) else octet_at os j)
unfolding octet_at adjust_at
octet_at-adjust_at i j f [] h = absurd (omega arith)
octet_at-adjust_at zero zero f (o ∷ os) h = refl
octet_at-adjust_at zero (suc j) f (o ∷ os) h = ground arith
octet_at-adjust_at (suc i) zero f (o ∷ os) h = ground arith
octet_at-adjust_at (suc i) (suc j) f (o ∷ os) h = ground (arith, octet_at-adjust_at i j f os)

pub length-adjust_at : (i : ℕ) (f : ℕ → ℕ) (os : Octets) → length (adjust_at i f os) ≡ length os
unfolding adjust_at
length-adjust_at i f [] = refl
length-adjust_at zero f (o ∷ os) = refl
length-adjust_at (suc i) f (o ∷ os) = ap suc (length-adjust_at i f os)

pub All-adjust_at :
    (i : ℕ) (f : ℕ → ℕ) (os : Octets)
    → ((o : ℕ) → IsOctet o → IsOctet (f o))
    → All IsOctet os
    → All IsOctet (adjust_at i f os)
unfolding adjust_at
All-adjust_at i f [] k h = tt
All-adjust_at zero f (o ∷ os) k h = (k o h.0, h.1)
All-adjust_at (suc i) f (o ∷ os) k h = (h.0, All-adjust_at i f os k h.1)

pub adjust_at_same :
    (i : ℕ) (f : ℕ → ℕ) (os : Octets) → f (octet_at os i) ≡ octet_at os i → adjust_at i f os ≡ os
unfolding adjust_at octet_at
adjust_at_same i f [] h = refl
adjust_at_same zero f (o ∷ os) h = ap (λ x. x ∷ os) h
adjust_at_same (suc i) f (o ∷ os) h = ap (λ x. o ∷ x) (adjust_at_same i f os h)

pub length-resize : (n : ℕ) (os : Octets) → length (resize n os) ≡ n
unfolding resize
length-resize zero os = refl
length-resize (suc n) [] = ap suc (length-resize n [])
length-resize (suc n) (o ∷ os) = ap suc (length-resize n os)

pub All-resize : (n : ℕ) (os : Octets) → All IsOctet os → All IsOctet (resize n os)
unfolding resize
All-resize zero os h = tt
All-resize (suc n) [] h = (omega arith, All-resize n [] h)
All-resize (suc n) (o ∷ os) h = (h.0, All-resize n os h.1)

pub octet_at-resize :
    (n : ℕ) (os : Octets) (i : ℕ) → i < n → octet_at (resize n os) i ≡ octet_at os i
unfolding resize octet_at
octet_at-resize zero os i h = absurd (omega arith)
octet_at-resize (suc n) [] zero h = refl
octet_at-resize (suc n) [] (suc i) h = octet_at-resize n [] i (omega arith)
octet_at-resize (suc n) (o ∷ os) zero h = refl
octet_at-resize (suc n) (o ∷ os) (suc i) h = octet_at-resize n os i (omega arith)

pub resize_same : (n : ℕ) (os : Octets) → length os ≡ n → resize n os ≡ os
unfolding resize
resize_same zero [] h = refl
resize_same zero (o ∷ os) h = absurd (omega arith)
resize_same (suc n) [] h = absurd (omega arith)
resize_same (suc n) (o ∷ os) h = ap (λ x. o ∷ x) (resize_same n os (omega arith))

pub octet_at-lt : (os : Octets) (i : ℕ) → All IsOctet os → IsOctet (octet_at os i)
unfolding octet_at
octet_at-lt [] i h = omega arith
octet_at-lt (o ∷ os) zero h = h.0
octet_at-lt (o ∷ os) (suc i) h = octet_at-lt os i h.1

pub octet_at-map_const :
    (c : ℕ) (os : Octets) (i : ℕ) → i < length os → octet_at (map (λ _. c) os) i ≡ c
unfolding octet_at
octet_at-map_const c [] i h = absurd (omega arith)
octet_at-map_const c (o ∷ os) zero h = refl
octet_at-map_const c (o ∷ os) (suc i) h = octet_at-map_const c os i (omega arith)

pub length-map_const : (c : ℕ) (os : Octets) → length (map (λ _. c) os) ≡ length os
length-map_const c [] = refl
length-map_const c (o ∷ os) = ap suc (length-map_const c os)

pub All-map_const : (c : ℕ) (os : Octets) → IsOctet c → All IsOctet (map (λ _. c) os)
All-map_const c [] h = tt
All-map_const c (o ∷ os) h = (h, All-map_const c os h)

bit_at-first : (o : ℕ) (os : Octets) (i : ℕ) → i < 8 → bit_at (o ∷ os) i ≡ has_bit o i
unfolding bit_at octet_at
bit_at-first o os i h =
    let q : i / 8 ≡ 0 = omega arith in
    let r : i % 8 ≡ i = omega arith in rw (q, octet_at) (rw r refl)

bit_at-rest : (o : ℕ) (os : Octets) (i : ℕ) → bit_at (o ∷ os) (8 + i) ≡ bit_at os i
unfolding bit_at octet_at
bit_at-rest o os i =
    let q : (8 + i) / 8 ≡ suc (i / 8) = omega arith in
    let r : (8 + i) % 8 ≡ i % 8 = omega arith in rw (q, octet_at) (rw r refl)

-- The population count of the octets is the number of their bits that are set.
pub popcounts-tally :
    (os : Octets) → All IsOctet os → popcounts os ≡ tally (bit_at os) (8 * length os)
unfolding popcounts tally
popcounts-tally [] h = refl
popcounts-tally (o ∷ os) h =
    let e : 8 * suc (length os) ≡ 8 + 8 * length os = omega arith in
    rw e (
      omega (
        arith,
        tally-add (bit_at (o ∷ os)) 8 (8 * length os),
        tally-ext (bit_at (o ∷ os)) (has_bit o) 8 (bit_at-first o os),
        tally-ext (λ i. bit_at (o ∷ os) (8 + i)) (bit_at os) (8 * length os)
            (λ i _. bit_at-rest o os i),
        popcount-tally o h.0,
        popcounts-tally os h.1,
      ))

abbrev pub IsZero : ℕ → Type 0
IsZero o = o ≡ 0

pub All-resize-IsZero : (n : ℕ) → All IsZero (resize n [])
unfolding resize
All-resize-IsZero zero = tt
All-resize-IsZero (suc n) = (refl, All-resize-IsZero n)

pub All-map-IsZero : (os : Octets) → All IsZero (map (λ _. 0) os)
All-map-IsZero [] = tt
All-map-IsZero (o ∷ os) = (refl, All-map-IsZero os)

octet_at_zero : (os : Octets) (i : ℕ) → All IsZero os → octet_at os i ≡ 0
unfolding octet_at
octet_at_zero [] i h = refl
octet_at_zero (o ∷ os) zero h = h.0
octet_at_zero (o ∷ os) (suc i) h = octet_at_zero os i h.1

pub bit_at_zero : (os : Octets) (i : ℕ) → All IsZero os → bit_at os i ≡ false
unfolding bit_at
bit_at_zero os i h = rw (octet_at_zero os (i / 8) h) (has_bit-zero (i % 8) (omega arith))

pub bit_at-index :
    (os : Octets) (k j : ℕ) → j < 8 → bit_at os (8 * k + j) ≡ has_bit (octet_at os k) j
unfolding bit_at
bit_at-index os k j h =
    let q : (8 * k + j) / 8 ≡ k = omega arith in
    let r : (8 * k + j) % 8 ≡ j = omega arith in rw (q, r) refl

octet_at_past : (os : Octets) (i : ℕ) → length os ≤ i → octet_at os i ≡ 0
unfolding octet_at
octet_at_past [] i h = refl
octet_at_past (o ∷ os) zero h = absurd (omega arith)
octet_at_past (o ∷ os) (suc i) h = octet_at_past os i (omega arith)

pub bit_at_past : (os : Octets) (n : ℕ) → 8 * length os ≤ n → bit_at os n ≡ false
unfolding bit_at
bit_at_past os n h =
    rw (octet_at_past os (n / 8) (omega arith)) (has_bit-zero (n % 8) (omega arith))
