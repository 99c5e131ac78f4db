-- ===== src/ChainSync.antt =====
-- spsync/server/server_lib/chain_sync.cpp: how a server commits blocks to its chain.
-- A block whose record does not decode, or that the storage refuses, is an exception, of which `thrown_error` stands for
-- the answer of either catch clause.
pub mod Save
pub mod Cursors
pub mod Commit
pub mod Invariant
pub mod Links
pub mod Restart
pub mod Rules
pub mod Validate
pub mod Tests
use spsync.Prelude.{
  ℕ, zero, suc, ◌+◌, ◌-◌, ◌*◌, ◌/◌, ◌%◌, ◌^◌, ◌≤◌, ◌<◌, min, max, ◌≡◌, refl, sym, ap, ◌∙◌, subst,
  ◌≢◌, ◌↔◌, ◌⊎◌, inl, inr, Bool, true, false, not, ◌&&◌, ◌||◌, Option, none, some, List, [], ◌∷◌,
  ◌++◌, map, arith, ltb, leb, ◌==◌, if◌then◌else◌, Bool-cases, Option-cases, ==_iff, u64_mod, add64,
  sub64, length, get_elem?, take, All, Any, length-append, Octets, is_empty, eq_octets, lt_octets,
  eq_octets_iff,
}
use spsync.Sequence.{seq_add}
use spsync.KeyMap.{is_some}
use spsync.Records.{AnyRecord, base_of, ContentAuth, ChainBlock, BlockEnvelope}
use spsync.RecordStorage.{
  Row, find_tag, find_op_id, last_block, last_special_sequence, last_data_add_sequence,
}
use spsync.ChainLog.{ChainLog, append, truncate_log}
use spsync.ChainRules.{
  CommitError, record_too_big, record_already_committed, thrown_error, RecType, none_of_them,
  data_add_remove, special, Verdict, ChainSyncConfig, ChainSync, RuleResult, refused, too_big,
  auth_error, check_rules, classify,
}

-- `crypto` is the tag and the digest size of the descriptors; `verify` is none when the server knows no keys.
module _ (tag_size digest_size : ℕ) (hash : ChainBlock → Octets)
    (decode : Octets → Option AnyRecord) (verify : Option (ContentAuth → Octets → Verdict))
    (config : ChainSyncConfig) where
  module _ (s : ChainSync) where
    unfoldable pub decoded : (AnyRecord → Option RuleResult) → Option AnyRecord → Option RuleResult
    unfolding find_op_id
    decoded rules none = none
    decoded rules (some r) =
        if not (is_empty (base_of r).op_id) && is_some (find_op_id (base_of r).op_id s.log.rows)
        then some (refused record_already_committed)
        else rules r

    abbrev pub signed :
        (AnyRecord → Option RuleResult) → ChainBlock → Option CommitError → Option RuleResult
    signed rules block (some e) = some (refused e)
    signed rules block none = decoded rules (decode block.record_bytes)

    -- The checks that `evaluate` and `evaluate_foreign` share; none is an exception.
    unfoldable pub evaluate_by : (AnyRecord → Option RuleResult) → ChainBlock → Option RuleResult
    unfolding too_big find_tag auth_error decoded
    evaluate_by rules block =
        if too_big tag_size digest_size decode verify config block
        then some (refused record_too_big)
        else if is_some (find_tag block.auth.tag s.log.rows)
        then some (refused record_already_committed)
        else signed rules block (auth_error tag_size digest_size decode verify config block)

    unfoldable pub evaluate : ChainBlock → Option RuleResult
    unfolding evaluate_by check_rules
    evaluate block = evaluate_by (check_rules tag_size digest_size decode verify config s) block

    unfoldable pub evaluate_foreign : ChainBlock → Option RuleResult
    unfolding evaluate_by classify
    evaluate_foreign block =
        evaluate_by (classify tag_size digest_size decode verify config s) block

    abbrev pub add_cursor : RecType → ℕ → ℕ
    add_cursor none_of_them sequence = s.last_data_add_remove
    add_cursor data_add_remove sequence = sequence
    add_cursor special sequence = s.last_data_add_remove

    abbrev pub special_cursor : RecType → ℕ → ℕ
    special_cursor none_of_them sequence = s.last_user_change_or_segment
    special_cursor data_add_remove sequence = s.last_user_change_or_segment
    special_cursor special sequence = sequence

    unfoldable pub placed : ChainBlock → ChainBlock
    unfolding seq_add
    placed block = record block {
      sequence = seq_add s.log.head.sequence 1;
      parent_hash = s.log.head.hash;
    }

    abbrev pub saved : RecType → ℕ → Option ChainLog → Option ChainSync
    saved type sequence none = none
    saved type sequence (some log) = some (record {
      log = log;
      last_data_add_remove = add_cursor type sequence;
      last_user_change_or_segment = special_cursor type sequence;
    })

    -- None is an exception of the log.
    unfoldable pub set_and_save_block : ChainBlock → RecType → Option ChainSync
    unfolding append placed
    set_and_save_block block type =
        let env : BlockEnvelope = record {
          block = placed block;
          origin = [];
          term = 0;
          signature = none;
        } in
        saved type (placed block).sequence (append hash decode s.log env)

    -- The outcome of a commit: the block as it was placed and the state after it, or an error and the state before.
    unfoldable pub outcome :
        ChainBlock → Option ChainSync → (Option CommitError × ChainBlock) × ChainSync
    unfolding placed
    outcome block none = ((some thrown_error, block), s)
    outcome block (some after) = ((none, placed block), after)

    unfoldable pub judged :
        ChainBlock → RecType → Option CommitError → (Option CommitError × ChainBlock) × ChainSync
    unfolding set_and_save_block outcome
    judged block type (some e) = ((some e, block), s)
    judged block type none = outcome block (set_and_save_block block type)

    unfoldable pub committed :
        ChainBlock → Option RuleResult → (Option CommitError × ChainBlock) × ChainSync
    unfolding judged
    committed block none = ((some thrown_error, block), s)
    committed block (some r) = judged block r.type r.err

    unfoldable pub commit_block : ChainBlock → (Option CommitError × ChainBlock) × ChainSync
    unfolding committed evaluate
    commit_block block = committed block (evaluate block)

    unfoldable pub commit_foreign : ChainBlock → (Option CommitError × ChainBlock) × ChainSync
    unfolding committed evaluate_foreign
    commit_foreign block = committed block (evaluate_foreign block)

    abbrev pub applied : ChainBlock → Option RuleResult → Option ChainSync
    applied block none = none
    applied block (some r) = set_and_save_block block r.type

    -- None is an exception.
    unfoldable pub apply : ChainBlock → Option ChainSync
    unfolding evaluate
    apply block = applied block (evaluate block)

    abbrev pub error_of : Option RuleResult → Option CommitError
    error_of none = some thrown_error
    error_of (some r) = r.err

    unfoldable pub validate : ChainBlock → Option CommitError
    unfolding evaluate
    validate block = error_of (evaluate block)

-- The cursors that a server derives from its storage when it starts.
unfoldable pub replayed : ChainLog → ChainSync
unfolding last_data_add_sequence last_special_sequence
replayed log = record {
  log = log;
  last_data_add_remove = last_data_add_sequence log.rows;
  last_user_change_or_segment = last_special_sequence log.rows;
}

unfoldable pub opened : List Row → ChainSync
unfolding last_block replayed
opened rows = replayed (record { rows = rows; head = last_block rows })

unfoldable pub truncation :
    Option (ChainLog × List ChainBlock) → Option (ChainSync × List ChainBlock)
unfolding replayed
truncation none = none
truncation (some (log, removed)) = some (replayed log, removed)

unfoldable pub truncate_chain : ChainSync → ℕ → Option (ChainSync × List ChainBlock)
unfolding truncate_log truncation
truncate_chain s first_removed = truncation (truncate_log s.log first_removed)
