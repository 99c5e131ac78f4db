-- ===== src/ChainSync/Tests.antt =====
-- Runs of the lemmas on spsync/server/server_lib/chain_sync.cpp at a chain of one record.
-- Records are decoded from their first octet, and a block is hashed to its sequence and record.
use spsync.Prelude.{ℕ, ◌≡◌, refl, ◌⊎◌, true, Option, none, some, [], ◌∷◌, arith, Octets, eq_octets}
use spsync.Records.{
  user_change_tag, AnyRecord, RecordBase, PlainSegment, data_change_record, segment_record,
  ChainBlock, eq_block_id, eq_tags, is_segment, is_special,
}
use spsync.RecordStorage.{
  truncate_from, drop_rows, is_received, find_row, find_tag, find_op_id, Row, in_sync, last_block,
  id_of, newest, max_seq, is_in_sync, last_data_add_sequence, last_special_sequence, has_add,
  find_last, find_last_segment, names_object, tags_in_range, select_by_seq, insert_by_seq, in_range,
}
use spsync.SyncMode.{is_sign_records, require_all_seen, only_tag, weak}
use spsync.ChainRules.{
  too_big, auth_error, of_type, data_add_remove, special, ChainSyncConfig, ChainSync, check_rules,
  check_rules_data, check_changes, check_next, check_change, continued, check_rules_add,
  check_head_seen, requires_all_seen, requires_special_seen, bad_descriptor, check_rules_of_segment,
  check_rules_segment, backbone, segment_error, classify,
}
use spsync.ChainSync.Restart.{IsKept, truncate_chain-IsValid}
use spsync.ChainLog.{truncate_log, truncated}
use spsync.ChainSync.{
  truncation, truncate_chain, opened, replayed, evaluate, evaluate_by, decoded, commit_block,
  commit_foreign, validate,
}
use spsync.ChainSync.Links.{Links, origin, commit-Links}
use spsync.Sequence.{seq_add}
use spsync.ChainSync.Commit.{Commits, commit_block-Commits, commit_foreign-Commits}
use spsync.ChainSync.Invariant.{IsValid, commit_block-IsValid, commit_foreign-IsValid}
use spsync.ChainSync.Rules.{CoversTruthfully, check_rules-head_seen, check_rules-CoversTruthfully}
use spsync.ChainSync.Validate.{Agrees, commit_block-validate}

abbrev pub config : ChainSyncConfig
config = record {
  mode = require_all_seen;
  auth_mode = only_tag;
  max_record_size = 4096;
  replication = weak;
}

abbrev hash_of : ChainBlock → Octets
hash_of block = block.sequence ∷ block.record_bytes

-- The records saw the first block of the chain.
abbrev pub seen_first : RecordBase
seen_first = record {
  last_seen_block = record { sequence = 1; hash = 1 ∷ 8 ∷ [] };
  op_id = [];
  last_seen_special_tag = [];
}

abbrev pub object : ℕ → Octets
object x = x ∷ 0 ∷ 0 ∷ 0 ∷ 0 ∷ 0 ∷ 0 ∷ 0 ∷ 0 ∷ 0 ∷ 0 ∷ 0 ∷ 0 ∷ 0 ∷ 0 ∷ 0 ∷ []

abbrev pub adding : AnyRecord
adding =
    data_change_record seen_first
      (record { id = object 2; previous_oid_record_tag = []; descriptor = none } ∷ [])

abbrev segment : PlainSegment
segment = record {
  segment_start = 1;
  segment_end = 2;
  tags = (7 ∷ []) ∷ [];
  previous_segment_tag = [];
}

abbrev pub decode_of : Octets → Option AnyRecord
decode_of [] = none
decode_of (x ∷ bytes) = some adding

abbrev pub first_block : ChainBlock
first_block = record {
  record_bytes = 8 ∷ [];
  auth = record { tag = 7 ∷ []; signature = none };
  sequence = 1;
  parent_hash = [];
}

abbrev pub first_row : Row
first_row = record {
  tag = 7 ∷ [];
  seq = 1;
  hash = 1 ∷ 8 ∷ [];
  state = in_sync;
  block = first_block;
  kind = user_change_tag;
  op_id = [];
  objects = [];
  envelope = none;
  origin = none;
}

abbrev pub chain : ChainSync
chain = record {
  log = record { rows = first_row ∷ []; head = record { sequence = 1; hash = 1 ∷ 8 ∷ [] } };
  last_data_add_remove = 0;
  last_user_change_or_segment = 1;
}

pub chain-IsValid : IsValid chain
unfolding last_block id_of newest max_seq is_in_sync is_special has_add last_data_add_sequence
    last_special_sequence
chain-IsValid = record {
  head = refl;
  adds = refl;
  specials = refl;
  below = (omega arith, tt);
  tagged = (refl, tt);
}

abbrev next_block : ChainBlock
next_block = record first_block {
  record_bytes = 9 ∷ [];
  auth = record { tag = 6 ∷ []; signature = none };
}

commit_block-IsValid_example :
    IsValid (commit_block 16 64 hash_of decode_of none config chain next_block).1
commit_block-IsValid_example =
    commit_block-IsValid 16 64 hash_of decode_of none config chain next_block chain-IsValid refl
      (omega arith)

commit_foreign-IsValid_example :
    IsValid (commit_foreign 16 64 hash_of decode_of none config chain next_block).1
commit_foreign-IsValid_example =
    commit_foreign-IsValid 16 64 hash_of decode_of none config chain next_block chain-IsValid refl
      (omega arith)

commit_block-Commits_example :
    Commits 16 64 hash_of decode_of none config chain
      (check_rules 16 64 decode_of none config chain)
      next_block
      (commit_block 16 64 hash_of decode_of none config chain next_block)
commit_block-Commits_example =
    commit_block-Commits 16 64 hash_of decode_of none config chain next_block

commit_foreign-Commits_example :
    Commits 16 64 hash_of decode_of none config chain
      (classify 16 64 decode_of none config chain)
      next_block
      (commit_foreign 16 64 hash_of decode_of none config chain next_block)
commit_foreign-Commits_example =
    commit_foreign-Commits 16 64 hash_of decode_of none config chain next_block

commit_block-validate_example :
    Agrees 16 64 hash_of decode_of none config chain next_block
      (commit_block 16 64 hash_of decode_of none config chain next_block)
commit_block-validate_example =
    commit_block-validate 16 64 hash_of decode_of none config chain next_block

adding-accepted :
    check_rules 16 64 decode_of none config chain adding ≡ some (of_type data_add_remove none)
unfolding check_rules check_rules_data check_changes check_next check_change continued
    check_rules_add check_head_seen requires_all_seen bad_descriptor eq_block_id eq_octets find_last
    newest is_in_sync names_object
adding-accepted = refl

check_rules-head_seen_example :
    (eq_block_id
        (record { sequence = 1; hash = 1 ∷ 8 ∷ [] })
        (record { sequence = 1; hash = 1 ∷ 8 ∷ [] })
      ≡ true)
    ⊎ (adding ≡ data_change_record seen_first [])
unfolding requires_all_seen
check_rules-head_seen_example =
    check_rules-head_seen 16 64 decode_of none config chain adding (of_type data_add_remove none)
      refl adding-accepted refl

segment-accepted :
    check_rules 16 64 decode_of none config chain (segment_record seen_first segment)
    ≡ some (of_type special none)
unfolding check_rules check_rules_of_segment check_rules_segment backbone segment_error
    requires_special_seen eq_block_id eq_octets eq_tags find_last_segment newest is_in_sync
    is_segment tags_in_range select_by_seq insert_by_seq in_range
segment-accepted = refl

check_rules-CoversTruthfully_example :
    CoversTruthfully 16 64 decode_of none config chain seen_first segment
check_rules-CoversTruthfully_example =
    check_rules-CoversTruthfully 16 64 decode_of none config chain seen_first segment
      (of_type special none) segment-accepted refl

next-validated : validate 16 64 hash_of decode_of none config chain next_block ≡ none
unfolding validate evaluate evaluate_by too_big auth_error is_sign_records find_tag find_row decoded
    find_op_id check_rules check_rules_data check_changes check_next check_change continued
    check_rules_add check_head_seen requires_all_seen bad_descriptor eq_block_id eq_octets find_last
    newest is_in_sync names_object
next-validated = refl

chain-Links : Links origin chain.log.rows chain.log.head
unfolding Links seq_add
chain-Links = ((refl, refl), refl)

commit-Links_example :
    (let after = (commit_block 16 64 hash_of decode_of none config chain next_block).1 in
      Links origin after.log.rows after.log.head)
    × (let after = (commit_foreign 16 64 hash_of decode_of none config chain next_block).1 in
        Links origin after.log.rows after.log.head)
commit-Links_example = commit-Links 16 64 hash_of decode_of none config chain next_block chain-Links

first_row-IsKept : IsKept first_row
unfolding IsKept is_in_sync
first_row-IsKept = (refl, refl)

-- The only record is removed.
truncate_chain-accepted :
    truncate_chain chain 1
    ≡ some (
      record {
        log = record { rows = []; head = record { sequence = 0; hash = [] } };
        last_data_add_remove = 0;
        last_user_change_or_segment = 0;
      },
      first_block ∷ [],
    )
unfolding truncate_chain truncate_log truncate_from truncated truncation replayed drop_rows
    select_by_seq insert_by_seq is_received last_block id_of newest max_seq last_data_add_sequence
    last_special_sequence
truncate_chain-accepted = refl

truncate_chain-IsValid_example :
    IsValid (opened chain.log.rows)
    × IsValid (record {
      log = record { rows = []; head = record { sequence = 0; hash = [] } };
      last_data_add_remove = 0;
      last_user_change_or_segment = 0;
    })
truncate_chain-IsValid_example =
    truncate_chain-IsValid chain 1 _ (first_block ∷ []) (first_row-IsKept, tt)
      truncate_chain-accepted
