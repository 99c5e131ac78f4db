-- ===== src/ChainLog/Origins.antt =====
-- The view that spsync/server/server_lib/chain_log.cpp and spsync/core/record_storage.cpp have of the records that one
-- server assigned: by the origin of their envelopes and its sequences.
pub mod OwnSamples
use spsync.Prelude.{
  All-Any_meet, ℕ, ◌≡◌, refl, inl, inr, Bool, false, ◌&&◌, Option, none, some, List, [], ◌∷◌, arith,
  leb, ◌==◌, if◌then◌else◌, Bool-cases, take, All, Octets, is_empty, eq_octets,
}
use spsync.Sequence.{is_valid}
use spsync.Divergence.{ChainBlockId, Divergence, sample_sequences, find_divergence, diverged}
use spsync.Divergence.Merge.{find_divergence-Finds}
use spsync.Records.{ChainBlock, BlockEnvelope}
use spsync.RecordStorage.{Row, is_in_sync, id_of}
use spsync.ChainLog.{batch, empty_batch}

-- `state = in_sync AND origin = :o`, and the sequence the origin gave.
abbrev pub assigned_by : Octets → Option (Octets × ℕ) → Bool
assigned_by origin none = false
assigned_by origin (some (o, seq)) = eq_octets origin o

abbrev pub seq_of : Option (Octets × ℕ) → ℕ
seq_of none = 0
seq_of (some (o, seq)) = seq

pub of_origin : Octets → Row → Bool
unfolding is_in_sync
of_origin origin r = is_in_sync r.state && assigned_by origin r.origin

abbrev pub later_of : Row → Option Row → Row
later_of r none = r
later_of r (some s) = if leb (seq_of r.origin) (seq_of s.origin) then s else r

-- `ORDER BY origin_seq DESC LIMIT 1`.
pub newest_of : Octets → List Row → Option Row
unfolding of_origin
newest_of origin [] = none
newest_of origin (r ∷ rows) =
    let rest = newest_of origin rows in if of_origin origin r then some (later_of r rest) else rest

pub last_of_origin : Octets → List Row → ChainBlockId
unfolding newest_of id_of
last_of_origin origin rows = id_of (newest_of origin rows)

abbrev pub seq_of_row : Option Row → ℕ
seq_of_row none = 0
seq_of_row (some r) = seq_of r.origin

pub last_origin_seq : Octets → List Row → ℕ
unfolding newest_of
last_origin_seq origin rows = seq_of_row (newest_of origin rows)

pub insert_by_origin : Row → List Row → List Row
insert_by_origin r [] = r ∷ []
insert_by_origin r (s ∷ rows) =
    let rest = insert_by_origin r rows in
    if leb (seq_of r.origin) (seq_of s.origin) then r ∷ s ∷ rows else s ∷ rest

-- `WHERE origin_seq >= :from AND origin_seq <= :to ORDER BY origin_seq ASC`.
pub select_of_origin : Octets → ℕ → ℕ → List Row → List Row
unfolding of_origin insert_by_origin
select_of_origin origin from to [] = []
select_of_origin origin from to (r ∷ rows) =
    let rest = select_of_origin origin from to rows in
    if of_origin origin r && (leb from (seq_of r.origin) && leb (seq_of r.origin) to)
    then insert_by_origin r rest
    else rest

-- The envelopes of the rows that have one.
pub envelopes : List Row → List BlockEnvelope
envelopes [] = []
envelopes (r ∷ rows) = elim r.envelope [ none ↦ envelopes rows | some env ↦ env ∷ envelopes rows ]

pub get_by_origin : Octets → ℕ → ℕ → ℕ → ℕ → List Row → List BlockEnvelope
unfolding select_of_origin envelopes batch
get_by_origin origin from to limit max_bytes rows =
    (batch max_bytes empty_batch
      (envelopes (take limit (select_of_origin origin from to rows)))).out

module _ (hash : ChainBlock → Octets) where
  abbrev pub envelope_hash : Option BlockEnvelope → Octets
  envelope_hash none = []
  envelope_hash (some env) = hash env.block

  abbrev pub at_seq : ℕ → Option (Octets × ℕ) → Bool
  at_seq seq none = false
  at_seq seq (some (o, n)) = n == seq

  -- The hash of the block that the origin gave a sequence, empty for none.
  pub origin_block_hash : Octets → List Row → ℕ → Octets
  unfolding of_origin
  origin_block_hash origin [] seq = []
  origin_block_hash origin (r ∷ rows) seq =
      let rest = origin_block_hash origin rows seq in
      if of_origin origin r && at_seq seq r.origin then envelope_hash r.envelope else rest

  -- The loop over the sequences; what is not held is no sample.
  pub samples_at : (ℕ → Octets) → List ℕ → List ChainBlockId
  samples_at held [] = []
  samples_at held (seq ∷ seqs) =
      let rest = samples_at held seqs in
      if is_empty (held seq) then rest else record { sequence = seq; hash = held seq } ∷ rest

  pub samples_of : Octets → List Row → List ChainBlockId
  unfolding samples_at origin_block_hash last_origin_seq sample_sequences
  samples_of origin rows =
      samples_at (origin_block_hash origin rows) (sample_sequences (last_origin_seq origin rows))

  pub find_origin_divergence : Octets → List Row → List ChainBlockId → Divergence
  unfolding find_divergence origin_block_hash
  find_origin_divergence origin rows samples =
      find_divergence samples (origin_block_hash origin rows)
