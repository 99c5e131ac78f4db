-- ===== src/ChainRules.antt =====
-- spsync/server/server_lib/chain_sync.cpp: the state of a chain and the rules by which a server judges a record.
-- The signature check, the hash of a block and the decoding of a record are the libraries'. A block whose record does
-- not decode, or that the storage refuses, is an exception. `thrown_error` stands for the answer to it, which is the
-- error itself when an `error` was thrown and exception_occurred for any other exception.
use spsync.Prelude.{
  ℕ, Bool, true, false, not, ◌&&◌, ◌||◌, Option, none, some, List, [], ◌∷◌, ltb, ◌==◌,
  if◌then◌else◌, length, Octets, is_empty, eq_octets,
}
use spsync.Sequence.{is_valid, seq_add, seq_sub}
use spsync.KeyMap.{is_some}
use spsync.Descriptor.{DataDescriptor, valid_data_descriptor}
use spsync.Users.{Users, is_delta}
use spsync.Records.{
  RecordBase, PlainSingleChange, PlainSegment, AnyRecord, user_change_record, data_change_record,
  segment_record, ContentAuth, ChainBlock, is_special, eq_block_id, eq_tags,
}
use spsync.RecordStorage.{Row, find_tag, find_last, find_last_segment, tags_in_range, has_add}
use spsync.ChainLog.{ChainLog}
use spsync.SyncMode.{
  SyncMode, allow_all, require_special_seen, require_data_add_remove_seen, require_all_seen,
  is_sign_records, is_replicated, AuthMode, ReplicationMode,
}

pub data CommitError : Type 0 where
  record_too_big record_already_committed invalid_record unknown_signer : CommitError
  record_out_of_sync thrown_error : CommitError

pub data RecType : Type 0 where
  none_of_them data_add_remove special : RecType

-- What `content_auth::verify` says of a signature.
pub data Verdict : Type 0 where
  authentic no_such_key forged : Verdict

pub record ChainSyncConfig : Type 0 where
  pub mode : SyncMode
  pub auth_mode : AuthMode
  pub max_record_size : ℕ
  pub replication : ReplicationMode

pub record ChainSync : Type 0 where
  pub log : ChainLog
  pub last_data_add_remove : ℕ
  pub last_user_change_or_segment : ℕ

-- No error is none.
pub record RuleResult : Type 0 where
  pub err : Option CommitError
  pub type : RecType

abbrev pub refused : CommitError → RuleResult
refused e = record { err = some e; type = none_of_them }

abbrev pub of_type : RecType → Option CommitError → RuleResult
of_type t e = record { err = e; type = t }

unfoldable pub requires_all_seen : SyncMode → Bool
requires_all_seen allow_all = false
requires_all_seen require_special_seen = false
requires_all_seen require_data_add_remove_seen = false
requires_all_seen require_all_seen = true

unfoldable pub requires_adds_seen : SyncMode → Bool
requires_adds_seen allow_all = false
requires_adds_seen require_special_seen = false
requires_adds_seen require_data_add_remove_seen = true
requires_adds_seen require_all_seen = false

-- `mode >= sync_mode::require_special_seen`.
unfoldable pub requires_special_seen : SyncMode → Bool
requires_special_seen allow_all = false
requires_special_seen require_special_seen = true
requires_special_seen require_data_add_remove_seen = true
requires_special_seen require_all_seen = true

-- `crypto` is the tag and the digest size of the descriptors; `verify` is none when the server knows no keys.
module _ (tag_size digest_size : ℕ) (decode : Octets → Option AnyRecord)
    (verify : Option (ContentAuth → Octets → Verdict)) (config : ChainSyncConfig) where
  unfoldable pub too_big : ChainBlock → Bool
  too_big block =
      not (config.max_record_size == 0) && ltb config.max_record_size (length block.record_bytes)

  abbrev pub verdict_error : Verdict → Option CommitError
  verdict_error authentic = none
  verdict_error no_such_key = some unknown_signer
  verdict_error forged = some invalid_record

  abbrev pub verified : Option (ContentAuth → Octets → Verdict) → ChainBlock → Option CommitError
  verified none block = none
  verified (some check) block = verdict_error (check block.auth block.record_bytes)

  unfoldable pub verify_signature : ChainBlock → Option CommitError
  verify_signature block =
      if is_some block.auth.signature then verified verify block else some invalid_record

  unfoldable pub auth_error : ChainBlock → Option CommitError
  unfolding is_sign_records verify_signature
  auth_error block = if is_sign_records config.auth_mode then verify_signature block else none

  module _ (s : ChainSync) where
    unfoldable pub special_seen : Option Row → Option CommitError
    unfolding is_special
    special_seen none = some record_out_of_sync
    special_seen (some r) =
        if not (is_special r.kind)
        then some invalid_record
        else if ltb r.seq s.last_user_change_or_segment
        then some record_out_of_sync
        else none

    unfoldable pub check_rules_special_seen : Octets → Option CommitError
    unfolding requires_special_seen is_valid find_tag
    check_rules_special_seen last_seen_special =
        if requires_special_seen config.mode && is_valid s.last_user_change_or_segment
        then special_seen (find_tag last_seen_special s.log.rows)
        else none

    -- The position rule of the strict mode.
    unfoldable pub check_head_seen : RecordBase → Option CommitError
    unfolding eq_block_id
    check_head_seen rec =
        if eq_block_id rec.last_seen_block s.log.head then none else some record_out_of_sync

    unfoldable pub adds_seen : RecordBase → Option CommitError → Option CommitError
    unfolding requires_adds_seen is_valid
    adds_seen rec (some e) = some e
    adds_seen rec none =
        if requires_adds_seen config.mode
          && (is_valid s.last_data_add_remove
              && ltb rec.last_seen_block.sequence s.last_data_add_remove)
        then some record_out_of_sync
        else none

    unfoldable pub check_rules_add : RecordBase → Option CommitError
    unfolding requires_all_seen check_head_seen check_rules_special_seen
    check_rules_add rec =
        if requires_all_seen config.mode
        then check_head_seen rec
        else adds_seen rec (check_rules_special_seen rec.last_seen_special_tag)

    unfoldable pub check_rules_existing : RecordBase → Option CommitError
    unfolding requires_all_seen check_head_seen check_rules_special_seen
    check_rules_existing rec =
        if requires_all_seen config.mode
        then check_head_seen rec
        else check_rules_special_seen rec.last_seen_special_tag

    unfoldable pub bad_descriptor : Option DataDescriptor → Bool
    unfolding valid_data_descriptor
    bad_descriptor none = false
    bad_descriptor (some d) = not (valid_data_descriptor tag_size digest_size d)

    unfoldable pub continued : RecordBase → RecType → Octets → Option Row → RuleResult
    unfolding check_rules_add check_rules_existing
    continued rec type previous none =
        if is_empty previous
        then of_type data_add_remove (check_rules_add rec)
        else of_type type (some record_out_of_sync)
    continued rec type previous (some r) =
        of_type type
          (if eq_octets r.tag previous then check_rules_existing rec else some record_out_of_sync)

    -- One round of the loop over the changes; an object id is valid when it is of 16 octets.
    unfoldable pub check_change : RecordBase → RecType → PlainSingleChange → RuleResult
    unfolding find_last valid_data_descriptor
    check_change rec type c =
        if not (length c.id == 16)
        then of_type type (some invalid_record)
        else if bad_descriptor c.descriptor
        then of_type type (some invalid_record)
        else continued rec type c.previous_oid_record_tag (find_last c.id s.log.rows)

    unfoldable pub check_next :
        RecordBase → Option CommitError → RecType → PlainSingleChange → RuleResult
    unfolding check_change
    check_next rec (some e) type c = of_type type (some e)
    check_next rec none type c = check_change rec type c

    -- The loop goes on while there is no error.
    unfoldable pub check_changes : RecordBase → RuleResult → List PlainSingleChange → RuleResult
    unfolding check_change
    check_changes rec r [] = r
    check_changes rec r (c ∷ changes) = check_changes rec (check_next rec r.err r.type c) changes

    unfoldable pub check_rules_data : RecordBase → List PlainSingleChange → RuleResult
    unfolding check_changes
    check_rules_data rec changes = check_changes rec (of_type none_of_them none) changes

    unfoldable pub check_rules_user : RecordBase → Users → RuleResult
    unfolding is_replicated requires_all_seen check_head_seen check_rules_special_seen
    check_rules_user rec access = of_type special (
        if is_replicated config.replication
          && (not (is_delta access.mode) && not (s.log.head.sequence == 0))
        then some invalid_record
        else if requires_all_seen config.mode
        then check_head_seen rec
        else check_rules_special_seen rec.last_seen_special_tag)

    abbrev pub stated_end : Octets → Option AnyRecord → Option (ℕ × Octets)
    stated_end tag none = none
    stated_end tag (some (user_change_record base access)) = none
    stated_end tag (some (data_change_record base changes)) = none
    stated_end tag (some (segment_record base segment)) = some (segment.segment_end, tag)

    -- Where the next segment starts and the tag it names; none is an exception, of a segment that does not decode.
    unfoldable pub backbone : Option Row → Option (ℕ × Octets)
    backbone none = some (1, [])
    backbone (some r) = stated_end r.tag (decode r.block.record_bytes)

    unfoldable pub segment_error : PlainSegment → ℕ × Octets → Option CommitError
    unfolding tags_in_range seq_sub eq_tags
    segment_error segment (expected_start, expected_tag) =
        if not (
          segment.segment_start == expected_start
          && eq_octets segment.previous_segment_tag expected_tag)
        then some record_out_of_sync
        else if eq_tags segment.tags
            (tags_in_range segment.segment_start (seq_sub segment.segment_end 1) s.log.rows)
        then none
        else some invalid_record

    abbrev pub continues : PlainSegment → Option (ℕ × Octets) → Option (Option CommitError)
    continues segment none = none
    continues segment (some expected) = some (segment_error segment expected)

    unfoldable pub check_rules_segment : RecordBase → PlainSegment → Option (Option CommitError)
    unfolding seq_add backbone find_last_segment
    check_rules_segment rec segment =
        if segment.segment_end == seq_add rec.last_seen_block.sequence 1
        then continues segment (backbone (find_last_segment s.log.rows))
        else some (some invalid_record)

    abbrev pub special_result : Option (Option CommitError) → Option RuleResult
    special_result none = none
    special_result (some e) = some (of_type special e)

    unfoldable pub check_rules_of_segment : RecordBase → PlainSegment → Option RuleResult
    unfolding requires_special_seen eq_block_id check_rules_segment
    check_rules_of_segment rec segment =
        if requires_special_seen config.mode && not (eq_block_id rec.last_seen_block s.log.head)
        then some (of_type special (some record_out_of_sync))
        else special_result (check_rules_segment rec segment)

    unfoldable pub check_rules : AnyRecord → Option RuleResult
    unfolding check_rules_user check_rules_data check_rules_of_segment
    check_rules (user_change_record base access) = some (check_rules_user base access)
    check_rules (data_change_record base changes) = some (check_rules_data base changes)
    check_rules (segment_record base segment) = check_rules_of_segment base segment

    -- `std::ranges::any_of` of the changes whose descriptor is out of bounds.
    unfoldable pub any_bad_descriptor : List PlainSingleChange → Bool
    any_bad_descriptor [] = false
    any_bad_descriptor (c ∷ changes) = bad_descriptor c.descriptor || any_bad_descriptor changes

    unfoldable pub classify : AnyRecord → Option RuleResult
    unfolding has_add any_bad_descriptor
    classify (user_change_record base access) = some (of_type special none)
    classify (segment_record base segment) = some (of_type special none)
    classify (data_change_record base changes) = some (
        of_type (if has_add changes then data_add_remove else none_of_them)
          (if any_bad_descriptor changes then some invalid_record else none))
