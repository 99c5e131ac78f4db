-- ===== src/RebasePolicy/Server.antt =====
-- The policy of spsync/engine/rebase_policy.cpp and the rules of spsync/server/server_lib/chain_sync.cpp that it mirrors.
use spsync.Prelude.{
  ℕ, ◌≡◌, refl, sym, ◌∙◌, inl, inr, Bool, true, false, not, ◌&&◌, ◌||◌, Option, none, some, List,
  ltb, ◌==◌, if◌then◌else◌, Bool-cases, Octets,
}
use spsync.Sequence.{is_valid}
use spsync.Users.{Users, is_delta}
use spsync.SyncMode.{
  SyncMode, is_replicated, allow_all, require_special_seen, require_data_add_remove_seen,
  require_all_seen,
}
use spsync.Records.{
  RecordBase, PlainSingleChange, PlainSegment, AnyRecord, user_change_record, data_change_record,
  segment_record, ContentAuth, eq_block_id,
}
use spsync.RecordStorage.{Row, last_block, last_data_add_sequence, has_add}
use spsync.KeyMap.{is_some}
use spsync.ChainRules.{
  ChainSync, ChainSyncConfig, Verdict, CommitError, special, of_type, record_out_of_sync,
  requires_all_seen, requires_adds_seen, requires_special_seen, check_rules_special_seen,
  check_head_seen, adds_seen, check_rules_add, check_rules_existing, check_rules_user,
  check_rules_of_segment, check_rules_segment, special_result,
}
use spsync.RebasePolicy.{is_special_behind, needs_rebase, pending_needs_rebase}
use spsync.RebasePolicy.Replica.{IsReplica, same_decision}
use spsync.RebasePolicy.Special.{IsShared, behind-special_seen}

if_none : (b : Bool) → not b ≡ is_some (if b then none else some record_out_of_sync)
if_none true = refl
if_none false = refl

if_some : (b : Bool) → is_some (if b then some record_out_of_sync else none) ≡ b
if_some true = refl
if_some false = refl

weak_adds :
    (behind adds late : Bool)
    → (if behind then true else if adds && true then late else false) ≡ (behind || (adds && late))
weak_adds true adds late = refl
weak_adds false true late = refl
weak_adds false false late = refl

weak_existing :
    (behind adds late : Bool)
    → (if behind then true else if adds && false then late else false) ≡ behind
weak_existing true adds late = refl
weak_existing false true late = refl
weak_existing false false late = refl

strict_special :
    (mode : SyncMode) → requires_all_seen mode ≡ true → requires_special_seen mode ≡ true
unfolding requires_all_seen requires_special_seen
strict_special allow_all h = cc
strict_special require_special_seen h = refl
strict_special require_data_add_remove_seen h = refl
strict_special require_all_seen h = refl

module _ (tag_size digest_size : ℕ) (decode : Octets → Option AnyRecord)
    (verify : Option (ContentAuth → Octets → Verdict)) (config : ChainSyncConfig) (s : ChainSync)
    (h : IsShared s) where
  abbrev rows : List Row
  rows = s.log.rows

  head_seen :
      (base : RecordBase)
      → not (eq_block_id base.last_seen_block (last_block rows))
        ≡ is_some (check_head_seen tag_size digest_size decode verify config s base)
  unfolding check_head_seen
  head_seen base = rw (sym h.valid.head) (if_none (eq_block_id base.last_seen_block s.log.head))

  adds_error :
      (base : RecordBase) (o : Option CommitError)
      → is_some (adds_seen tag_size digest_size decode verify config s base o) ≡ (
          is_some o
          || (requires_adds_seen config.mode
              && (is_valid (last_data_add_sequence rows)
                  && ltb base.last_seen_block.sequence (last_data_add_sequence rows))))
  unfolding adds_seen
  adds_error base (some e) = refl
  adds_error base none = rw (sym h.valid.adds) (
      if_some (
        requires_adds_seen config.mode
        && (is_valid s.last_data_add_remove
            && ltb base.last_seen_block.sequence s.last_data_add_remove)))

  mirrors_user :
      (base : RecordBase) (access : Users)
      → (is_replicated config.replication
          && (not (is_delta access.mode) && not (s.log.head.sequence == 0)))
        ≡ false
      → pending_needs_rebase config.mode rows (user_change_record base access)
        ≡ is_some (check_rules_user tag_size digest_size decode verify config s base access).err
  unfolding pending_needs_rebase needs_rebase is_special_behind check_rules_user
  mirrors_user base access e = elim (Bool-cases (requires_all_seen config.mode)) [
    | inl strict ↦ rw (e, strict) (head_seen base)
    | inr weak ↦
        rw (e, weak)
          (behind-special_seen tag_size digest_size decode verify config s h
            base.last_seen_special_tag)
  ]

  mirrors_add :
      (base : RecordBase) (changes : List PlainSingleChange)
      → has_add changes ≡ true
      → pending_needs_rebase config.mode rows (data_change_record base changes)
        ≡ is_some (check_rules_add tag_size digest_size decode verify config s base)
  unfolding pending_needs_rebase needs_rebase is_special_behind check_rules_add
  mirrors_add base changes e = elim (Bool-cases (requires_all_seen config.mode)) [
    | inl strict ↦ rw strict (head_seen base)
    | inr weak ↦
        rw
          (
            weak,
            e,
            adds_error base (
                check_rules_special_seen tag_size digest_size decode verify config s
                  base.last_seen_special_tag),
            behind-special_seen tag_size digest_size decode verify config s h
                base.last_seen_special_tag,
          )
          (weak_adds _ (requires_adds_seen config.mode) _)
  ]

  mirrors_existing :
      (base : RecordBase) (changes : List PlainSingleChange)
      → has_add changes ≡ false
      → pending_needs_rebase config.mode rows (data_change_record base changes)
        ≡ is_some (check_rules_existing tag_size digest_size decode verify config s base)
  unfolding pending_needs_rebase needs_rebase is_special_behind check_rules_existing
  mirrors_existing base changes e = elim (Bool-cases (requires_all_seen config.mode)) [
    | inl strict ↦ rw strict (head_seen base)
    | inr weak ↦
        rw
          (
            weak,
            e,
            behind-special_seen tag_size digest_size decode verify config s h
                base.last_seen_special_tag,
          )
          (weak_existing _ (requires_adds_seen config.mode) _)
  ]

  mirrors_segment :
      (base : RecordBase) (segment : PlainSegment)
      → check_rules_of_segment tag_size digest_size decode verify config s base segment ≡ (
          if pending_needs_rebase config.mode rows (segment_record base segment)
          then some (of_type special (some record_out_of_sync))
          else special_result tag_size digest_size decode verify config s
              (check_rules_segment tag_size digest_size decode verify config s base segment))
  unfolding pending_needs_rebase needs_rebase check_rules_of_segment
  mirrors_segment base segment = elim (Bool-cases (requires_all_seen config.mode)) [
    | inl strict ↦ rw (strict, strict_special config.mode strict, sym h.valid.head) refl
    | inr weak ↦ rw (weak, sym h.valid.head) refl
  ]

  -- The engine's answer for each kind of pending record, beside what the server says of the record's position.
  pub record Mirrors (engine : List Row) : Type 0 where
    pub user :
        (base : RecordBase) (access : Users)
        → (is_replicated config.replication
            && (not (is_delta access.mode) && not (s.log.head.sequence == 0)))
          ≡ false
        → pending_needs_rebase config.mode engine (user_change_record base access)
          ≡ is_some (check_rules_user tag_size digest_size decode verify config s base access).err
    pub adding :
        (base : RecordBase) (changes : List PlainSingleChange)
        → has_add changes ≡ true
        → pending_needs_rebase config.mode engine (data_change_record base changes)
          ≡ is_some (check_rules_add tag_size digest_size decode verify config s base)
    pub changing :
        (base : RecordBase) (changes : List PlainSingleChange)
        → has_add changes ≡ false
        → pending_needs_rebase config.mode engine (data_change_record base changes)
          ≡ is_some (check_rules_existing tag_size digest_size decode verify config s base)
    pub segment :
        (base : RecordBase) (segment : PlainSegment)
        → check_rules_of_segment tag_size digest_size decode verify config s base segment ≡ (
            if pending_needs_rebase config.mode engine (segment_record base segment)
            then some (of_type special (some record_out_of_sync))
            else special_result tag_size digest_size decode verify config s
                (check_rules_segment tag_size digest_size decode verify config s base segment))

  -- For an engine whose table has the records of the server's chain, in any order and beside any pending records of its
  -- own, in every mode: the engine rebuilds a pending record exactly when the server would refuse its position: a user
  -- change when the server refuses it (but for a full record under replication, which it refuses anyway), a data change
  -- with an add when the check of an added object fails, one without adds when the check of a changed object fails, and
  -- a segment when it is refused for the head.
  pub pending_needs_rebase-Mirrors : (engine : List Row) → IsReplica engine rows → Mirrors engine
  pending_needs_rebase-Mirrors engine replica =
      let same = same_decision engine rows replica h.distinct config.mode in
      record {
        user = λ base access e. same (user_change_record base access) ∙ mirrors_user base access e;
        adding =
            λ base changes e. same (data_change_record base changes) ∙ mirrors_add base changes e;
        changing = λ base changes e.
            same (data_change_record base changes) ∙ mirrors_existing base changes e;
        segment =
            λ base segment. rw (same (segment_record base segment)) (mirrors_segment base segment);
      }
