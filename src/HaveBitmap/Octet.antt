-- ===== src/HaveBitmap/Octet.antt =====
-- The bits of an octet, for spsync/core/data/have_bitmap.cpp: checked at every octet.
use spsync.Prelude.{
  ℕ, zero, suc, ◌+◌, ◌-◌, ◌^◌, ◌<◌, ◌≡◌, refl, Bool, true, false, not, ◌&&◌, ◌||◌, arith, ltb, ◌==◌,
  if◌then◌else◌, bit_and, bit_or, Bool-cases, ==_iff, ◌≤◌, inl, inr, subst,
}
use spsync.HaveBitmap.{has_bit, popcount}

all_below : ℕ → (ℕ → Bool) → Bool
all_below zero p = true
all_below (suc n) p = p n && all_below n p

all_below_at : (n : ℕ) (p : ℕ → Bool) (x : ℕ) → all_below n p ≡ true → x < n → p x ≡ true
unfolding all_below
all_below_at zero p x h l = absurd (omega arith)
all_below_at (suc n) p x h l = ground (arith, all_below_at n p x)

all_below_of : (n : ℕ) (p : ℕ → Bool) → ((x : ℕ) → x < n → p x ≡ true) → all_below n p ≡ true
unfolding all_below
all_below_of zero p h = refl
all_below_of (suc n) p h =
    ground (arith, h n (omega arith), all_below_of n p (λ x l. h x (omega arith)))

abbrev same : Bool → Bool → Bool
same true b = b
same false b = not b

same_eq : (a b : Bool) → same a b ≡ true → a ≡ b
same_eq true true h = refl
same_eq true false h = cc
same_eq false true h = cc
same_eq false false h = refl

-- How many numbers below a bound pass a test.
unfoldable pub tally : (ℕ → Bool) → ℕ → ℕ
tally p zero = 0
tally p (suc n) = (if p n then 1 else 0) + tally p n

set_table :
    all_below 256 (λ o.
      all_below 8
        (λ k. all_below 8 (λ j. same (has_bit (bit_or o (2 ^ k)) j) (k == j || has_bit o j))))
    ≡ true
unfolding all_below has_bit
set_table = refl

unset_table :
    all_below 256 (λ o. all_below 8 (λ k.
      all_below 8 (λ j. same (has_bit (bit_and o (255 - 2 ^ k)) j) (not (k == j) && has_bit o j))))
    ≡ true
unfolding all_below has_bit
unset_table = refl

mask_table :
    all_below 256 (λ o.
      all_below 8
        (λ u. all_below 8 (λ j. same (has_bit (bit_and o (2 ^ u - 1)) j) (ltb j u && has_bit o j))))
    ≡ true
unfolding all_below has_bit
mask_table = refl

range_table :
    all_below 256 (λ o. all_below 8 (λ k.
      ltb (bit_or o (2 ^ k)) 256
      && (ltb (bit_and o (255 - 2 ^ k)) 256 && ltb (bit_and o (2 ^ k - 1)) 256)))
    ≡ true
unfolding all_below
range_table = refl

masked_table :
    all_below 256 (λ o.
      all_below 8 (λ u.
        not (all_below 8 (λ j. ltb j u || not (has_bit o j))) || (bit_and o (2 ^ u - 1) == o)))
    ≡ true
unfolding all_below has_bit
masked_table = refl

popcount_table : all_below 256 (λ o. popcount 8 o == tally (has_bit o) 8) ≡ true
unfolding all_below has_bit popcount tally
popcount_table = refl

-- A table over three numbers, read at one entry.
at_three :
    (p : ℕ → ℕ → ℕ → Bool) (o k j : ℕ)
    → all_below 256 (λ o. all_below 8 (λ k. all_below 8 (p o k))) ≡ true
    → o < 256
    → k < 8
    → j < 8
    → p o k j ≡ true
at_three p o k j h ho hk hj =
    all_below_at 8 (p o k) j
      (all_below_at 8 (λ k. all_below 8 (p o k)) k
        (all_below_at 256 (λ o. all_below 8 (λ k. all_below 8 (p o k))) o h ho) hk)
      hj

at_two :
    (p : ℕ → ℕ → Bool) (o k : ℕ)
    → all_below 256 (λ o. all_below 8 (p o)) ≡ true
    → o < 256
    → k < 8
    → p o k ≡ true
at_two p o k h ho hk = all_below_at 8 (p o) k (all_below_at 256 (λ o. all_below 8 (p o)) o h ho) hk

module _ (o k j : ℕ) (ho : o < 256) (hk : k < 8) (hj : j < 8) where
  pub has_bit-set : has_bit (bit_or o (2 ^ k)) j ≡ (k == j || has_bit o j)
  has_bit-set = same_eq _ _ (
      at_three (λ o k j. same (has_bit (bit_or o (2 ^ k)) j) (k == j || has_bit o j)) o k j
        set_table ho hk hj)

  pub has_bit-unset : has_bit (bit_and o (255 - 2 ^ k)) j ≡ (not (k == j) && has_bit o j)
  has_bit-unset = same_eq _ _ (
      at_three (λ o k j. same (has_bit (bit_and o (255 - 2 ^ k)) j) (not (k == j) && has_bit o j)) o
        k j unset_table ho hk hj)

  pub has_bit-mask : has_bit (bit_and o (2 ^ k - 1)) j ≡ (ltb j k && has_bit o j)
  has_bit-mask = same_eq _ _ (
      at_three (λ o k j. same (has_bit (bit_and o (2 ^ k - 1)) j) (ltb j k && has_bit o j)) o k j
        mask_table ho hk hj)

module _ (o k : ℕ) (ho : o < 256) (hk : k < 8) where
  ranges :
      (ltb (bit_or o (2 ^ k)) 256
        && (ltb (bit_and o (255 - 2 ^ k)) 256 && ltb (bit_and o (2 ^ k - 1)) 256))
      ≡ true
  ranges =
      at_two
        (λ o k.
          ltb (bit_or o (2 ^ k)) 256
          && (ltb (bit_and o (255 - 2 ^ k)) 256 && ltb (bit_and o (2 ^ k - 1)) 256))
        o k range_table ho hk

  pub set-lt : bit_or o (2 ^ k) < 256
  set-lt = ground (arith, ranges)

  pub unset-lt : bit_and o (255 - 2 ^ k) < 256
  unset-lt = ground (arith, ranges)

  pub mask-lt : bit_and o (2 ^ k - 1) < 256
  mask-lt = ground (arith, ranges)

  -- An octet without bits from the mask's end on is its own masked octet.
  pub mask_same : ((j : ℕ) → k ≤ j → j < 8 → has_bit o j ≡ false) → bit_and o (2 ^ k - 1) ≡ o
  mask_same h =
      let none_above : all_below 8 (λ j. ltb j k || not (has_bit o j)) ≡ true =
        all_below_of 8 _ (λ j hj. elim (Bool-cases (ltb j k)) [
          | inl e ↦ rw e refl
          | inr e ↦ rw (e, h j (ground arith) hj) refl
        ]) in
      let entry =
        at_two
          (λ o u.
            not (all_below 8 (λ j. ltb j u || not (has_bit o j))) || (bit_and o (2 ^ u - 1) == o))
          o k masked_table ho hk in
      (==_iff _ _).0 (subst (λ b. (not b || (bit_and o (2 ^ k - 1) == o)) ≡ true) none_above entry)

pub popcount-tally : (o : ℕ) → o < 256 → popcount 8 o ≡ tally (has_bit o) 8
popcount-tally o h =
    (==_iff _ _).0 (all_below_at 256 (λ o. popcount 8 o == tally (has_bit o) 8) o popcount_table h)

zero_table : all_below 8 (λ k. not (has_bit 0 k) && has_bit 255 k) ≡ true
unfolding all_below has_bit
zero_table = refl

pub has_bit-zero : (k : ℕ) → k < 8 → has_bit 0 k ≡ false
has_bit-zero k h =
    ground (arith, all_below_at 8 (λ k. not (has_bit 0 k) && has_bit 255 k) k zero_table h)

pub has_bit-full : (k : ℕ) → k < 8 → has_bit 255 k ≡ true
has_bit-full k h =
    ground (arith, all_below_at 8 (λ k. not (has_bit 0 k) && has_bit 255 k) k zero_table h)
