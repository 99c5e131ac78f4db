-- ===== src/Divergence/Tests.antt =====
-- Runs of the lemmas on spsync/core/divergence.cpp at small histories.
use spsync.Prelude.{
  ℕ, ◌+◌, ◌-◌, ◌*◌, ◌≤◌, ◌<◌, ◌≡◌, ◌↔◌, false, [], ◌∷◌, map, arith, leb, if◌then◌else◌, Octets, All,
}
use spsync.Divergence.{
  Divergence, diverged, sample_sequences, find_divergence, plan_pull, plan_push,
}
use spsync.Divergence.Pull.{InRange, plan_pull-InRange, plan_push-InRange}
use spsync.Divergence.Merge.{Finds, find_divergence-Finds}
use spsync.Divergence.Samples.{find_divergence-brackets_fork, sample_of}

-- Two histories that part after the third record, and the samples of the second up to its fifth.
abbrev ours : ℕ → Octets
ours s = if leb s 3 then 1 ∷ [] else 2 ∷ []

abbrev theirs : ℕ → Octets
theirs s = 1 ∷ []

find_divergence-brackets_fork_example :
    (let d = find_divergence (map (sample_of theirs) (sample_sequences 5)) ours in
      (d.last_common ≤ 3)
      × (5 - d.last_common ≤ 2 * (5 - 3))
      × (3 < d.first_divergent)
      × (d.first_divergent ≤ 5)
      × All
          (λ b. (b ≤ 3 → b ≤ d.last_common) × (3 < b → d.first_divergent ≤ b))
          (sample_sequences 5))
find_divergence-brackets_fork_example =
    find_divergence-brackets_fork ours theirs 5 3 (omega arith) (omega arith) (omega arith)
      (λ s p l. ground arith) (λ s p l. ground arith) (λ s p l. ground arith)

find_divergence-Finds_example :
    Finds ours
      (record { last_common = 0; first_divergent = 0 })
      (map (sample_of theirs) (5 ∷ 4 ∷ 3 ∷ 1 ∷ []))
      (find_divergence (map (sample_of theirs) (5 ∷ 4 ∷ 3 ∷ 1 ∷ [])) ours)
find_divergence-Finds_example =
    find_divergence-Finds ours (map (sample_of theirs) (5 ∷ 4 ∷ 3 ∷ 1 ∷ []))

abbrev shared_to_two : Divergence
shared_to_two = record { last_common = 2; first_divergent = 0 }

plan_pull-InRange_example :
    InRange (plan_pull 1 5 shared_to_two) 4
    ↔ ((diverged shared_to_two ≡ false) × (1 < 4) × (2 < 4) × (4 ≤ 5))
plan_pull-InRange_example = plan_pull-InRange 1 5 4 shared_to_two (omega arith)

plan_push-InRange_example : InRange (plan_push 1 5) 4 ↔ ((1 + 1 < 5) × (1 < 4) × (4 ≤ 5))
plan_push-InRange_example = plan_push-InRange 1 5 4 (omega arith)
