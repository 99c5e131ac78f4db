-- ===== src/Divergence.antt =====
-- spsync/core/divergence.hpp and divergence.cpp: where two servers' views of one origin's history
-- part, and what anti-entropy pulls. Sequence numbers are 64 bit words.
pub mod Tests
pub mod Samples
pub mod Merge
pub mod Pull
use spsync.Prelude.{
  ℕ, zero, suc, ◌-◌, ◌^◌, max, Bool, true, false, not, ◌&&◌, ◌||◌, List, [], ◌∷◌, ltb, ◌==◌,
  if◌then◌else◌, Octets, eq_octets, is_empty,
}
use spsync.Sequence.{is_valid, seq_add, seq_sub}

-- spsync/core/chain_block_id.hpp
pub record ChainBlockId : Type 0 where
  pub sequence : ℕ
  pub hash : Octets

pub record Divergence : Type 0 where
  pub last_common : ℕ
  pub first_divergent : ℕ

unfoldable pub diverged : Divergence → Bool
unfolding is_valid
diverged d = is_valid d.first_divergent

pub exact : Divergence → Bool
unfolding diverged seq_add
exact d = diverged d && seq_add d.last_common 1 == d.first_divergent

-- The loop of `sample_sequences` over the shift, with the rounds left; what it pushes.
pub doubling : ℕ → ℕ → ℕ → List ℕ
unfolding seq_sub
doubling zero shift head = []
doubling (suc rounds) shift head =
    let rest = seq_sub head (2 ^ shift) ∷ doubling rounds (suc shift) head in
    if ltb (2 ^ shift) head then rest else []

-- `ret.back()`, of a list with an element before it.
pub back : ℕ → List ℕ → ℕ
back x [] = x
back x (y ∷ ys) = back y ys

-- `ret.push_back`
pub push_back {ℓ} : {A : Type ℓ} → List A → A → List A
push_back [] a = a ∷ []
push_back (x ∷ xs) a = x ∷ push_back xs a

-- The first record behind the samples `head ∷ ret`, when it is not the last of them already.
pub with_first : ℕ → List ℕ → List ℕ
with_first head ret = if back head ret == 1 then ret else push_back ret 1

unfoldable pub sample_sequences : ℕ → List ℕ
unfolding is_valid with_first
sample_sequences head = if is_valid head then head ∷ with_first head (doubling 63 0 head) else []

-- One round of the loop of `find_divergence`: `held` gives the hash the log holds, empty for none.
pub find_step : (ℕ → Octets) → Divergence → ChainBlockId → Divergence
unfolding is_valid eq_octets
find_step held ret sample =
    let hash = if is_valid sample.sequence then held sample.sequence else [] in
    if is_empty hash
    then ret
    else if eq_octets hash sample.hash
    then record ret { last_common = max ret.last_common sample.sequence }
    else if not (is_valid ret.first_divergent) || ltb sample.sequence ret.first_divergent
    then record ret { first_divergent = sample.sequence }
    else ret

pub find_from : (ℕ → Octets) → Divergence → List ChainBlockId → Divergence
unfolding find_step
find_from held ret [] = ret
find_from held ret (sample ∷ samples) = find_from held (find_step held ret sample) samples

unfoldable pub find_divergence : List ChainBlockId → (ℕ → Octets) → Divergence
unfolding find_from
find_divergence samples held =
    find_from held (record { last_common = 0; first_divergent = 0 }) samples

pub record PullRange : Type 0 where
  pub from : ℕ
  pub to : ℕ

pub wanted : PullRange → Bool
unfolding is_valid
wanted r = is_valid r.from

pub plan_pull : ℕ → ℕ → Divergence → PullRange
unfolding diverged is_valid seq_add
plan_pull known peer_head div =
    let held = max known div.last_common in
    if not (diverged div) && (is_valid peer_head && ltb held peer_head)
    then record { from = seq_add held 1; to = peer_head }
    else record { from = 0; to = 0 }

pub plan_push : ℕ → ℕ → PullRange
unfolding is_valid seq_add
plan_push known pushed =
    let next = if is_valid known then seq_add known 1 else 1 in
    if ltb next pushed then record { from = next; to = pushed } else record { from = 0; to = 0 }
