-- ===== src/HaveBitmap/Tally.antt =====
-- Counting the numbers below a bound that pass a test.
use spsync.Prelude.{
  ℕ, zero, suc, ◌+◌, ◌≤◌, ◌<◌, ◌≡◌, refl, sym, subst, Bool, true, false, arith, Bool-cases, inl,
  inr, ◌==◌, ==_iff,
}
use spsync.HaveBitmap.Octet.{tally}

pub tally-ext : (p q : ℕ → Bool) (n : ℕ) → ((i : ℕ) → i < n → p i ≡ q i) → tally p n ≡ tally q n
unfolding tally
tally-ext p q zero h = refl
tally-ext p q (suc n) h =
    ground (arith, h n (omega arith), tally-ext p q n (λ i l. h i (omega arith)))

pub tally-add : (p : ℕ → Bool) (n m : ℕ) → tally p (n + m) ≡ tally p n + tally (λ i. p (n + i)) m
unfolding tally
tally-add p n zero = ground arith
tally-add p n (suc m) =
    let e : n + suc m ≡ suc (n + m) = omega arith in rw (e, tally) (ground (arith, tally-add p n m))

pub tally-le : (p : ℕ → Bool) (n : ℕ) → tally p n ≤ n
unfolding tally
tally-le p zero = omega arith
tally-le p (suc n) = ground (arith, tally-le p n)

pub tally_none : (p : ℕ → Bool) (n : ℕ) → ((i : ℕ) → i < n → p i ≡ false) → tally p n ≡ 0
unfolding tally
tally_none p zero h = refl
tally_none p (suc n) h =
    ground (arith, h n (omega arith), tally_none p n (λ i l. h i (omega arith)))

pub tally_all : (p : ℕ → Bool) (n : ℕ) → ((i : ℕ) → i < n → p i ≡ true) → tally p n ≡ n
unfolding tally
tally_all p zero h = refl
tally_all p (suc n) h = ground (arith, h n (omega arith), tally_all p n (λ i l. h i (omega arith)))

pub tally_full : (p : ℕ → Bool) (n : ℕ) → tally p n ≡ n → (i : ℕ) → i < n → p i ≡ true
unfolding tally
tally_full p zero e i l = absurd (omega arith)
tally_full p (suc n) e i l = elim (Bool-cases (i == n)) [
  | inl at ↦ subst (λ k. p k ≡ true) (sym ((==_iff i n).0 at)) (ground (arith, tally-le p n))
  | inr below ↦ tally_full p n (ground (arith, tally-le p n)) i (ground arith)
]
