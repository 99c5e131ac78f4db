-- ===== src/Divergence/Pull.antt =====
-- What the planned ranges of spsync/core/divergence.cpp hold.
use spsync.Prelude.{ℕ, ◌+◌, ◌≤◌, ◌<◌, ◌≡◌, ◌↔◌, true, false, arith, u64_mod}
use spsync.Divergence.{Divergence, PullRange, diverged, wanted, plan_pull, plan_push}

-- A sequence is in a range that is wanted.
abbrev pub InRange : PullRange → ℕ → Type 0
InRange r s = (wanted r ≡ true) × (r.from ≤ s) × (s ≤ r.to)

-- A sequence is in the range that `plan_pull` plans just when there is no divergence and it is behind what is known and
-- what is common, up to the head of the peer.
pub plan_pull-InRange :
    (known peer_head s : ℕ) (div : Divergence)
    → peer_head < u64_mod
    → InRange (plan_pull known peer_head div) s
      ↔ ((diverged div ≡ false) × (known < s) × (div.last_common < s) × (s ≤ peer_head))
unfolding plan_pull wanted
plan_pull-InRange known peer_head s div h = (ground arith, ground arith)

-- A sequence is in the range that `plan_push` plans just when more than one record is missing and it is behind what is
-- known, up to what was pushed.
pub plan_push-InRange :
    (known pushed s : ℕ)
    → known + 1 < u64_mod
    → InRange (plan_push known pushed) s ↔ ((known + 1 < pushed) × (known < s) × (s ≤ pushed))
unfolding plan_push wanted
plan_push-InRange known pushed s h = (ground arith, ground arith)
