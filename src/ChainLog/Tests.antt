-- ===== src/ChainLog/Tests.antt =====
-- Runs of the lemmas on spsync/server/server_lib/chain_log.cpp at a batch with a large record.
use spsync.Prelude.{ℕ, ◌≤◌, min, ◌≡◌, refl, ◌⊎◌, List, none, some, [], ◌∷◌, arith, length, Octets}
use spsync.Records.{data_change_tag, ChainBlock, BlockEnvelope}
use spsync.ChainLog.{cost_of, batch, empty_batch}
use spsync.RecordStorage.{Row, in_sync}
use spsync.ChainLog.Origins.{samples_of, find_origin_divergence}
use spsync.ChainLog.Origins.OwnSamples.{FindsItself, find_origin_divergence-samples_of}
use spsync.ChainLog.Budget.{Sublist, costs, batch_lem, batch_gap}

abbrev envelope_of : Octets → BlockEnvelope
envelope_of record_bytes = record {
  block = record {
    record_bytes = record_bytes;
    auth = record { tag = []; signature = none };
    sequence = 1;
    parent_hash = [];
  };
  origin = [];
  term = 0;
  signature = none;
}

abbrev small : BlockEnvelope
small = envelope_of []

abbrev large : BlockEnvelope
large = envelope_of (1 ∷ 2 ∷ [])

batch_lem_example :
    Sublist (batch 24577 empty_batch (small ∷ large ∷ small ∷ [])).out (small ∷ large ∷ small ∷ [])
    × ((costs (batch 24577 empty_batch (small ∷ large ∷ small ∷ [])).out ≤ 24577)
        ⊎ (length (batch 24577 empty_batch (small ∷ large ∷ small ∷ [])).out ≤ 2))
    × (min 2 3 ≤ length (batch 24577 empty_batch (small ∷ large ∷ small ∷ [])).out)
batch_lem_example = batch_lem 24577 (small ∷ large ∷ small ∷ [])

batch_gap_example :
    (batch 24577 empty_batch (small ∷ small ∷ large ∷ small ∷ [])).out ≡ small ∷ small ∷ small ∷ []
unfolding cost_of
batch_gap_example = batch_gap 24577 small small large small (omega arith) (omega arith)

-- Two records that a server assigned, the second of which came first.
abbrev row_at : ℕ → ℕ → Row
row_at seq origin_seq = record {
  tag = seq ∷ [];
  seq = seq;
  hash = seq ∷ [];
  state = in_sync;
  block = (envelope_of (seq ∷ [])).block;
  kind = data_change_tag;
  op_id = [];
  objects = [];
  envelope = some (envelope_of (seq ∷ []));
  origin = some (4 ∷ [], origin_seq);
}

abbrev hash_of : ChainBlock → Octets
hash_of block = 1 ∷ block.record_bytes

abbrev two_rows : List Row
two_rows = row_at 1 2 ∷ row_at 2 1 ∷ []

find_origin_divergence-samples_of_example :
    FindsItself hash_of
      (4 ∷ [])
      two_rows
      ((λ _. refl), ((λ _. refl), tt))
      (samples_of hash_of (4 ∷ []) two_rows)
      (find_origin_divergence hash_of (4 ∷ []) two_rows (samples_of hash_of (4 ∷ []) two_rows))
find_origin_divergence-samples_of_example =
    find_origin_divergence-samples_of hash_of (4 ∷ []) two_rows ((λ _. refl), ((λ _. refl), tt))
