-- ===== src/HaveBitmap/Chunks.antt =====
-- The bitmap of spsync/core/data/have_bitmap.cpp as a set of chunk numbers.
use spsync.Prelude.{
  ℕ, zero, suc, ◌+◌, ◌-◌, ◌≤◌, ◌<◌, min, ◌≡◌, refl, sym, ◌∙◌, subst, ◌↔◌, Bool, true, false, ◌&&◌,
  List, [], ◌∷◌, arith, ltb, if◌then◌else◌, Bool-cases, inl, inr, ◌==◌, ==_iff, u64_mod, Octets,
  All,
}
use spsync.HaveBitmap.{
  HaveBitmap, nothing_held, of_octets, test, set, set_all, clear, count, complete, missing_after,
  first_missing,
}
use spsync.HaveBitmap.Octet.{tally}
use spsync.HaveBitmap.Tally.{tally-ext, tally_all, tally_full}
use spsync.HaveBitmap.Laws.{
  IsValid, count-tally, of_octets-octets, of_octets-IsValid, test-of_octets, of_octets_size,
}
use spsync.HaveBitmap.Bits.{IsOctet, bit_at}
use spsync.HaveBitmap.Changes.{
  nothing_held-IsValid, test-nothing_held, clear-IsValid, test-clear, set_all-IsValid, test-set_all,
  test-set, set-IsValid, chunk_count-set, chunk_count-set_all, chunk_count-clear,
}

pub data Change : Type 0 where
  mark : ℕ → Bool → Change
  everything nothing : Change

unfoldable pub apply_change : Change → HaveBitmap → HaveBitmap
apply_change (mark n held) b = set n held b
apply_change everything b = set_all b
apply_change nothing b = clear b

unfoldable pub run : List Change → HaveBitmap → HaveBitmap
unfolding apply_change
run [] b = b
run (c ∷ changes) b = run changes (apply_change c b)

-- The same changes of a set.
unfoldable pub apply_set : Change → (ℕ → Bool) → ℕ → Bool
apply_set (mark n held) s i = if n == i then held else s i
apply_set everything s i = true
apply_set nothing s i = false

unfoldable pub run_set : List Change → (ℕ → Bool) → ℕ → Bool
unfolding apply_set
run_set [] s = s
run_set (c ∷ changes) s = run_set changes (apply_set c s)

-- The first number from a start on that is not in the set, or the bound.
pub record IsFirstMissing (s : ℕ → Bool) (n from r : ℕ) : Type 0 where
  pub after : from ≤ r
  pub bounded : r ≤ n
  pub before : (i : ℕ) → from ≤ i → i < r → s i ≡ true
  pub missing : r < n → s r ≡ false

-- A bitmap of `n` chunks answers as the set does.
pub record Represents (b : HaveBitmap) (n : ℕ) (s : ℕ → Bool) : Type 0 where
  pub valid : IsValid b
  pub size : b.chunk_count ≡ n
  pub tests : (i : ℕ) → test b i ≡ (ltb i n && s i)
  pub counted : count b ≡ tally s n
  pub whole : (complete b ≡ true) ↔ ((i : ℕ) → i < n → s i ≡ true)
  pub first : (from : ℕ) → IsFirstMissing s n (min from n) (first_missing b from)
  pub stored : of_octets n b.bits ≡ b

record Holds (b : HaveBitmap) (n : ℕ) (s : ℕ → Bool) : Type 0 where
  valid : IsValid b
  size : b.chunk_count ≡ n
  tests : (i : ℕ) → test b i ≡ (ltb i n && s i)

apply_change-Holds :
    (c : Change) (b : HaveBitmap) (n : ℕ) (s : ℕ → Bool)
    → Holds b n s
    → Holds (apply_change c b) n (apply_set c s)
unfolding apply_change apply_set
apply_change-Holds (mark k held) b n s h = record {
  valid = set-IsValid b k held h.valid;
  size = chunk_count-set b k held ∙ h.size;
  tests = λ i. ground (arith, test-set b k held h.valid i, h.tests i, h.size);
}
apply_change-Holds everything b n s h = record {
  valid = set_all-IsValid b h.valid;
  size = chunk_count-set_all b ∙ h.size;
  tests = λ i. ground (arith, test-set_all b i h.valid, h.size);
}
apply_change-Holds nothing b n s h = record {
  valid = clear-IsValid b h.valid;
  size = chunk_count-clear b ∙ h.size;
  tests = λ i. ground (arith, test-clear b i);
}

run-Holds :
    (changes : List Change) (b : HaveBitmap) (n : ℕ) (s : ℕ → Bool)
    → Holds b n s
    → Holds (run changes b) n (run_set changes s)
unfolding run run_set
run-Holds [] b n s h = h
run-Holds (c ∷ changes) b n s h =
    run-Holds changes (apply_change c b) n (apply_set c s) (apply_change-Holds c b n s h)

missing_after-IsFirstMissing :
    (b : HaveBitmap) (n : ℕ) (s : ℕ → Bool)
    → ((i : ℕ) → test b i ≡ (ltb i n && s i))
    → (left from : ℕ) → from + left ≡ n
    → IsFirstMissing s n from (missing_after b left from)
unfolding missing_after
missing_after-IsFirstMissing b n s h zero from e = record {
  after = omega arith;
  bounded = omega arith;
  before = λ i l m. absurd (omega arith);
  missing = λ l. absurd (omega arith);
}
missing_after-IsFirstMissing b n s h (suc left) from e = elim (Bool-cases (test b from)) [
  | inl held ↦
      let rest = missing_after-IsFirstMissing b n s h left (from + 1) (omega arith) in
      rw held (record {
        after = omega (arith, rest.after);
        bounded = rest.bounded;
        before = λ i l m. elim (Bool-cases (from == i)) [
          | inl at ↦ subst (λ k. s k ≡ true) ((==_iff from i).0 at) (ground (arith, h from))
          | inr next ↦ rest.before i (ground arith) m
        ];
        missing = rest.missing;
      })
  | inr gone ↦ rw gone (record {
    after = omega arith;
    bounded = omega arith;
    before = λ i l m. absurd (omega arith);
    missing = λ l. ground (arith, h from);
  })
]

Holds-Represents : (b : HaveBitmap) (n : ℕ) (s : ℕ → Bool) → Holds b n s → Represents b n s
unfolding complete first_missing
Holds-Represents b n s h =
    let same : tally (test b) b.chunk_count ≡ tally s n =
      subst (λ k. tally (test b) k ≡ tally s n) (sym h.size)
        (tally-ext (test b) s n (λ i l. ground (arith, h.tests i))) in
    let counted = count-tally b h.valid ∙ same in
    record {
      valid = h.valid;
      size = h.size;
      tests = h.tests;
      counted = counted;
      whole = (
        (λ e i l. tally_full s n (ground (arith, counted, h.size)) i l),
        (λ all. ground (arith, counted, h.size, tally_all s n all)),
      );
      first = λ from.
          subst
            (λ k. IsFirstMissing s n (min from n) (missing_after b (k - min from k) (min from k)))
            (sym h.size)
            (missing_after-IsFirstMissing b n s h.tests (n - min from n) (min from n)
              (omega arith));
      stored = subst (λ k. of_octets k b.bits ≡ b) h.size (of_octets-octets b h.valid);
    }

nothing_held_size : (n : ℕ) → (nothing_held n).chunk_count ≡ n
unfolding nothing_held
nothing_held_size n = refl

-- Whatever changes are made to a bitmap that starts with nothing held, it answers as the set of chunks does that the
-- same changes make of the empty set: each test, the count, whether it is complete, and the first chunk that is
-- missing; and it is read back from its octets as it was.
pub run-Represents :
    (changes : List Change) (n : ℕ)
    → n + 7 < u64_mod
    → Represents (run changes (nothing_held n)) n (run_set changes (λ _. false))
run-Represents changes n c =
    Holds-Represents (run changes (nothing_held n)) n (run_set changes (λ _. false)) (
      run-Holds changes (nothing_held n) n (λ _. false)
        (record {
          valid = nothing_held-IsValid n c;
          size = nothing_held_size n;
          tests = λ i. ground (arith, test-nothing_held n i);
        }))

-- What stored octets are read as.
pub record Reads (n : ℕ) (bits : Octets) (b : HaveBitmap) : Type 0 where
  pub valid : IsValid b
  pub tests : (i : ℕ) → test b i ≡ (ltb i n && bit_at bits i)
  pub again : of_octets n b.bits ≡ b

-- Octets of any number, with any bits, are read as a valid bitmap that holds the chunks whose bits are set and no
-- other; its own octets are read back as the same bitmap. This is for a number of chunks that leaves room for the
-- rounding in 64 bits.
pub of_octets-Reads :
    (n : ℕ) (bits : Octets) → n + 7 < u64_mod → All IsOctet bits → Reads n bits (of_octets n bits)
of_octets-Reads n bits c h =
    let v = of_octets-IsValid n bits c h in
    record {
      valid = v;
      tests = test-of_octets n bits c h;
      again =
          subst (λ k. of_octets k (of_octets n bits).bits ≡ of_octets n bits)
            (of_octets_size n bits) (of_octets-octets (of_octets n bits) v);
    }
