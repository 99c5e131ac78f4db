-- ===== src/Divergence/Samples.antt =====
-- What the samples of spsync/core/divergence.cpp tell of a fork.
use spsync.Prelude.{
  ℕ, zero, suc, ◌+◌, ◌-◌, ◌*◌, ◌^◌, ◌≤◌, ◌<◌, ◌≡◌, refl, sym, ap, ◌∙◌, subst, ◌≢◌, ◌⊎◌, inl, inr,
  List, [], ◌∷◌, map, arith, ltb, leb, ◌==◌, Bool-cases, ==_iff, u64_mod, All, Any, All-mono,
  All-both, Any-mono, All-Any_meet, All-of-map, Any-of-map, Octets,
}
use native.Mathlib.Nat.{one-le-pow, two-pow-succ}
use spsync.Divergence.{
  ChainBlockId, doubling, back, push_back, with_first, sample_sequences, find_divergence,
}
use spsync.Divergence.Merge.{find_divergence-Finds}

All-push_back {ℓ κ} :
    {A : Type ℓ} (P : A → Type κ) (xs : List A) (a : A) → All P xs → P a → All P (push_back xs a)
unfolding push_back
All-push_back P [] a h p = (p, tt)
All-push_back P (x ∷ xs) a h p = (h.0, All-push_back P xs a h.1 p)

Any-push_back_last {ℓ} :
    {A : Type ℓ} (P : A → Type 0) (xs : List A) (a : A) → P a → Any P (push_back xs a)
unfolding push_back
Any-push_back_last P [] a p = inl p
Any-push_back_last P (x ∷ xs) a p = inr (Any-push_back_last P xs a p)

Any-push_back {ℓ} :
    {A : Type ℓ} (P : A → Type 0) (xs : List A) (a : A) → Any P xs → Any P (push_back xs a)
unfolding push_back
Any-push_back P [] a h = absurd h
Any-push_back P (x ∷ xs) a (inl h) = inl h
Any-push_back P (x ∷ xs) a (inr h) = inr (Any-push_back P xs a h)

-- The last element is one of the elements.
Any-back : (x : ℕ) (xs : List ℕ) → Any (λ b. b ≡ back x xs) (x ∷ xs)
unfolding back
Any-back x [] = inl refl
Any-back x (y ∷ ys) = inr (Any-back y ys)

doubling_bounds :
    (rounds shift head : ℕ)
    → head < u64_mod
    → All (λ b. (0 < b) × (b < head)) (doubling rounds shift head)
unfolding doubling
doubling_bounds zero shift head h = tt
doubling_bounds (suc rounds) shift head h = elim (Bool-cases (ltb (2 ^ shift) head)) [
  | inl e ↦ rw e (
    (ground arith, ground (arith, one-le-pow shift 2 (omega arith))),
    doubling_bounds rounds (suc shift) head h,
  )
  | inr e ↦ rw e tt
]

-- A sample at or below `s` within twice its distance, unless the first record is within it.
doubling_covers :
    (rounds shift k head s : ℕ)
    → head < u64_mod
    → 0 < s
    → s < head
    → k ≡ shift + rounds
    → head ≤ 2 ^ k
    → 2 ^ shift ≤ 2 * (head - s)
    → Any (λ b. (b ≤ s) × (head - b ≤ 2 * (head - s))) (doubling rounds shift head)
      ⊎ (head ≤ 2 * (head - s))
unfolding doubling
doubling_covers zero shift k head s h p l e b m =
    let e' : 2 ^ k ≡ 2 ^ shift = ap (λ (t : ℕ). 2 ^ t) (omega arith) in inr (omega arith)
doubling_covers (suc rounds) shift k head s h p l e b m = elim (Bool-cases (ltb (2 ^ shift) head)) [
  | inl more ↦ rw more (elim (Bool-cases (leb (head - s) (2 ^ shift))) [
    | inl near ↦ inl (inl (ground arith, ground arith))
    | inr far ↦
        elim (doubling_covers rounds (suc shift) k head s h p l (omega arith) b
          (ground (arith, two-pow-succ shift))) [ inl t ↦ inl (inr t) | inr t ↦ inr t ]
  ])
  | inr enough ↦ rw enough (inr (ground arith))
]

with_first-All :
    (P : ℕ → Type 0) (head : ℕ) (ret : List ℕ) → All P ret → P 1 → All P (with_first head ret)
unfolding with_first
with_first-All P head ret h one = elim (Bool-cases (back head ret == 1)) [
  | inl e ↦ rw e h
  | inr e ↦ rw e (All-push_back P ret 1 h one)
]

with_first-Any :
    (P : ℕ → Type 0) (head : ℕ) (ret : List ℕ) → Any P ret → Any P (with_first head ret)
unfolding with_first
with_first-Any P head ret h = elim (Bool-cases (back head ret == 1)) [
  | inl e ↦ rw e h
  | inr e ↦ rw e (Any-push_back P ret 1 h)
]

-- The first record is always a sample.
with_first_one :
    (P : ℕ → Type 0) (head : ℕ) (ret : List ℕ) → P 1 → Any P (head ∷ with_first head ret)
unfolding with_first
with_first_one P head ret p = elim (Bool-cases (back head ret == 1)) [
  | inl e ↦ rw e (
      Any-mono (λ b q. subst P (sym (q ∙ (==_iff (back head ret) 1).0 e)) p) (head ∷ ret)
        (Any-back head ret))
  | inr e ↦ rw e (inr (Any-push_back_last P ret 1 p))
]

pub sample_sequences_pos :
    (head : ℕ) → 0 < head → sample_sequences head ≡ head ∷ with_first head (doubling 63 0 head)
unfolding sample_sequences
sample_sequences_pos head h = ground arith

pub sample_sequences_bounds :
    (head : ℕ) → 0 < head → head < u64_mod → All (λ b. (0 < b) × (b ≤ head)) (sample_sequences head)
sample_sequences_bounds head p h = rw (sample_sequences_pos head p) (
  (p, omega arith),
  with_first-All _ head (doubling 63 0 head)
      (All-mono (λ b q. (q.0, omega arith)) (doubling 63 0 head) (doubling_bounds 63 0 head h))
      (omega arith, p),
)

sample_sequences_covers :
    (head s : ℕ)
    → head ≤ 2 ^ 63
    → 0 < s
    → s ≤ head
    → Any (λ b. (b ≤ s) × (head - b ≤ 2 * (head - s))) (sample_sequences head)
sample_sequences_covers head s h p l =
    rw (sample_sequences_pos head (omega arith)) (elim (Bool-cases (ltb s head)) [
      | inl below ↦
          elim (doubling_covers 63 0 63 head s (omega arith) p (ground arith) refl h
            (ground arith)) [
              | inl near ↦ inr (with_first-Any _ head (doubling 63 0 head) near)
              | inr far ↦ with_first_one _ head (doubling 63 0 head) (p, omega arith)
            ]
      | inr at ↦ inl (ground arith, ground arith)
    ])

abbrev pub sample_of : (ℕ → Octets) → ℕ → ChainBlockId
sample_of peer s = record { sequence = s; hash = peer s }

-- Of two histories that are the same up to a fork and differ behind it, both without gaps up to the head of the one
-- that is sampled, a head of at most 2 ^ 63, the divergence found names a common record at or before the fork, at most
-- twice as far from the head as the fork is, and a divergent record behind the fork, up to the head; of the samples,
-- none up to the fork is newer than that common record, and none behind it is older than that divergent record.
pub find_divergence-brackets_fork :
    (held peer : ℕ → Octets) (head fork : ℕ)
    → head ≤ 2 ^ 63
    → 0 < fork
    → fork < head
    → ((s : ℕ) → 0 < s → s ≤ head → held s ≢ [])
    → ((s : ℕ) → 0 < s → s ≤ fork → held s ≡ peer s)
    → ((s : ℕ) → fork < s → s ≤ head → held s ≢ peer s)
    → let d = find_divergence (map (sample_of peer) (sample_sequences head)) held in
      (d.last_common ≤ fork)
      × (head - d.last_common ≤ 2 * (head - fork))
      × (fork < d.first_divergent)
      × (d.first_divergent ≤ head)
      × All
          (λ b. (b ≤ fork → b ≤ d.last_common) × (fork < b → d.first_divergent ≤ b))
          (sample_sequences head)
find_divergence-brackets_fork held peer head fork l p f full same other =
    let samples = sample_sequences head in
    let d = find_divergence (map (sample_of peer) samples) held in
    let finds = find_divergence-Finds held (map (sample_of peer) samples) in
    let bounds = sample_sequences_bounds head (omega arith) (omega arith) in
    let reaches : head - d.last_common ≤ 2 * (head - fork) =
      All-Any_meet samples
        (All-both _ _ samples bounds (All-of-map (sample_of peer) _ samples finds.common_bound))
        (sample_sequences_covers head fork l p (omega arith))
        (λ b q near. let c = q.1 (q.0.0, full b q.0.0 q.0.1, same b q.0.0 near.0) in omega arith) in
    let low : d.last_common ≤ fork = elim finds.common_found [
      | inl e ↦ omega arith
      | inr c ↦ All-Any_meet samples bounds (Any-of-map (sample_of peer) _ samples c) (λ b q k.
          elim (Bool-cases (leb b fork)) [
            | inl at ↦ ground arith
            | inr above ↦ absurd (other b (ground arith) q.1 k.0.2)
          ])
    ] in
    let seen : (0 < d.first_divergent) × (d.first_divergent ≤ head) =
      All-Any_meet samples
        (All-both _ _ samples bounds (All-of-map (sample_of peer) _ samples finds.divergent_bound))
        (sample_sequences_covers head head l (omega arith) (omega arith))
        (λ b q near.
          let c = q.1 (q.0.0, full b q.0.0 q.0.1, other b (omega arith) q.0.1) in
          (c.0, omega arith)) in
    let high : fork < d.first_divergent = elim finds.divergent_found [
      | inl e ↦ absurd (omega arith)
      | inr c ↦ All-Any_meet samples bounds (Any-of-map (sample_of peer) _ samples c) (λ b q k.
          elim (Bool-cases (leb b fork)) [
            | inl at ↦ absurd (k.0.2 (same b q.0 (ground arith)))
            | inr above ↦ ground arith
          ])
    ] in
    let tight =
      All-mono
        (λ b q. (
          (λ l. q.0.1 (q.0.0.0, full b q.0.0.0 q.0.0.1, same b q.0.0.0 l)),
          (λ l. (q.1 (q.0.0.0, full b q.0.0.0 q.0.0.1, other b l q.0.0.1)).1),
        ))
        samples
        (All-both _ _ samples
          (All-both _ _ samples bounds (All-of-map (sample_of peer) _ samples finds.common_bound))
          (All-of-map (sample_of peer) _ samples finds.divergent_bound)) in
    (low, reaches, high, seen.1, tight)
