-- ===== src/HaveBitmap/Changes.antt =====
-- How `set`, `set_all` and `clear` of spsync/core/data/have_bitmap.cpp change a valid bitmap.
use spsync.Prelude.{
  ℕ, ◌+◌, ◌-◌, ◌*◌, ◌/◌, ◌%◌, ◌^◌, ◌<◌, ◌≡◌, refl, Bool, true, false, ◌&&◌, [], map, arith, ltb,
  if◌then◌else◌, Bool-cases, inl, inr, ◌==◌, Octets, length, All, All-mono, bit_or, bit_and,
  u64_mod,
}
use spsync.HaveBitmap.{
  HaveBitmap, adjust_at, octet_at, resize, has_bit, normalise, octets_for, nothing_held, of_octets,
  test, set, set_all, clear,
}
use spsync.HaveBitmap.Octet.{has_bit-set, has_bit-unset, set-lt, unset-lt, has_bit-full}
use spsync.HaveBitmap.Bits.{
  IsOctet, bit_at, octet_at-adjust_at, length-adjust_at, All-adjust_at, length-resize, octet_at-lt,
  octet_at-map_const, length-map_const, All-map_const, IsZero, All-resize-IsZero, All-map-IsZero,
  bit_at_zero,
}
use spsync.HaveBitmap.Laws.{IsValid, test-bit_at, ltb_lt, of_octets-IsValid, test-of_octets}

zeros-IsValid :
    (b : HaveBitmap)
    → b.chunk_count + 7 < u64_mod
    → length b.bits ≡ (b.chunk_count + 7) / 8
    → All IsZero b.bits
    → IsValid b
zeros-IsValid b c l z = record {
  counts = c;
  shape = l;
  octets = All-mono (λ o e. omega arith) b.bits z;
  unused = λ i _ _. bit_at_zero b.bits i z;
}

pub nothing_held-IsValid : (n : ℕ) → n + 7 < u64_mod → IsValid (nothing_held n)
unfolding nothing_held
nothing_held-IsValid n c =
    zeros-IsValid (nothing_held n) c (omega (arith, length-resize (octets_for n) []))
      (All-resize-IsZero (octets_for n))

pub test-nothing_held : (n i : ℕ) → test (nothing_held n) i ≡ false
unfolding nothing_held
test-nothing_held n i = ground (
  arith,
  test-bit_at (nothing_held n) i,
  bit_at_zero (resize (octets_for n) []) i (All-resize-IsZero (octets_for n)),
)

pub clear-IsValid : (b : HaveBitmap) → IsValid b → IsValid (clear b)
unfolding clear
clear-IsValid b v =
    zeros-IsValid (clear b) v.counts (omega (arith, v.shape, length-map_const 0 b.bits))
      (All-map-IsZero b.bits)

pub test-clear : (b : HaveBitmap) (i : ℕ) → test (clear b) i ≡ false
unfolding clear
test-clear b i =
    ground
      (arith, test-bit_at (clear b) i, bit_at_zero (map (λ _. 0) b.bits) i (All-map-IsZero b.bits))

set_all_lem : (b : HaveBitmap) → set_all b ≡ of_octets b.chunk_count (map (λ _. 255) b.bits)
unfolding set_all of_octets
set_all_lem b = refl

pub set_all-IsValid : (b : HaveBitmap) → IsValid b → IsValid (set_all b)
set_all-IsValid b v = rw (set_all_lem b) (
    of_octets-IsValid b.chunk_count (map (λ _. 255) b.bits) v.counts
      (All-map_const 255 b.bits (omega arith)))

full_bit : (os : Octets) (i : ℕ) → i < 8 * length os → bit_at (map (λ _. 255) os) i ≡ true
unfolding bit_at
full_bit os i l =
    rw (octet_at-map_const 255 os (i / 8) (omega arith)) (has_bit-full (i % 8) (omega arith))

pub test-set_all : (b : HaveBitmap) (i : ℕ) → IsValid b → test (set_all b) i ≡ ltb i b.chunk_count
test-set_all b i v =
    let h =
      test-of_octets b.chunk_count (map (λ _. 255) b.bits) v.counts
        (All-map_const 255 b.bits (omega arith)) i in
    rw (set_all_lem b, h)
      (elim (Bool-cases (ltb i b.chunk_count)) [
        | inl e ↦
            ground (arith, full_bit b.bits i (omega (arith, v.shape, ltb_lt i b.chunk_count e)))
        | inr e ↦ ground arith
      ])

module _ (b : HaveBitmap) (n : ℕ) (held : Bool) (v : IsValid b) where
  abbrev change : Bool → ℕ → ℕ
  change h o = if h then bit_or o (2 ^ (n % 8)) else bit_and o (255 - 2 ^ (n % 8))

  set_inside :
      ltb n b.chunk_count ≡ true
      → set n held b ≡ record b { bits = adjust_at (n / 8) (change held) b.bits }
  unfolding set
  set_inside e = rw e (go held)
    where
      go :
          (h : Bool)
          → Path HaveBitmap
              (record b {
                bits =
                    adjust_at
                      (n / 8)
                      (if h
                        then (λ o. bit_or o (2 ^ (n % 8)))
                        else (λ o. bit_and o (255 - 2 ^ (n % 8))))
                      b.bits;
              })
              (record b { bits = adjust_at (n / 8) (change h) b.bits })
      go true = refl
      go false = refl

  set_outside : ltb n b.chunk_count ≡ false → set n held b ≡ b
  unfolding set
  set_outside e = rw e refl

  change-IsOctet : (h : Bool) (o : ℕ) → IsOctet o → IsOctet (change h o)
  change-IsOctet true o k = set-lt o (n % 8) k (omega arith)
  change-IsOctet false o k = unset-lt o (n % 8) k (omega arith)

  has_bit-change :
      (h : Bool) (o j : ℕ)
      → IsOctet o
      → j < 8
      → has_bit (change h o) j ≡ (if n % 8 == j then h else has_bit o j)
  has_bit-change true o j k l = ground (arith, has_bit-set o (n % 8) j k (omega arith) l)
  has_bit-change false o j k l = ground (arith, has_bit-unset o (n % 8) j k (omega arith) l)

  bit_at-adjust :
      n / 8 < length b.bits
      → (i : ℕ)
      → bit_at (adjust_at (n / 8) (change held) b.bits) i
        ≡ (if n == i then held else bit_at b.bits i)
  unfolding bit_at
  bit_at-adjust l i =
      rw (octet_at-adjust_at (n / 8) (i / 8) (change held) b.bits l)
        (elim (Bool-cases (n / 8 == i / 8)) [
          | inl e ↦ rw e (
              ground (
                arith,
                has_bit-change held (octet_at b.bits (i / 8)) (i % 8)
                    (octet_at-lt b.bits (i / 8) v.octets) (omega arith),
              ))
          | inr e ↦ rw e (ground arith)
        ])

  pub test-set :
      (i : ℕ) → test (set n held b) i ≡ (if ltb n b.chunk_count && n == i then held else test b i)
  test-set i = elim (Bool-cases (ltb n b.chunk_count)) [
    | inl e ↦
        let l : n / 8 < length b.bits = omega (arith, v.shape, ltb_lt n b.chunk_count e) in
        rw (set_inside e) (
          ground (
            arith,
            test-bit_at (record b { bits = adjust_at (n / 8) (change held) b.bits }) i,
            test-bit_at b i,
            bit_at-adjust l i,
          ))
    | inr e ↦ rw (set_outside e, e) refl
  ]

  pub set-IsValid : IsValid (set n held b)
  set-IsValid = elim (Bool-cases (ltb n b.chunk_count)) [
    | inl e ↦
        let l : n / 8 < length b.bits = omega (arith, v.shape, ltb_lt n b.chunk_count e) in
        let same = length-adjust_at (n / 8) (change held) b.bits in
        rw (set_inside e) (record {
          counts = v.counts;
          shape = omega (arith, v.shape, same);
          octets = All-adjust_at (n / 8) (change held) b.bits (change-IsOctet held) v.octets;
          unused = λ i k m. ground (arith, bit_at-adjust l i, v.unused i k (omega (arith, same)));
        })
    | inr e ↦ rw (set_outside e) v
  ]

-- No change touches the number of chunks.
pub chunk_count-set :
    (b : HaveBitmap) (n : ℕ) (held : Bool) → (set n held b).chunk_count ≡ b.chunk_count
unfolding set
chunk_count-set b n held = ground arith

pub chunk_count-set_all : (b : HaveBitmap) → (set_all b).chunk_count ≡ b.chunk_count
unfolding set_all normalise
chunk_count-set_all b = refl

pub chunk_count-clear : (b : HaveBitmap) → (clear b).chunk_count ≡ b.chunk_count
unfolding clear
chunk_count-clear b = refl
