-- ===== src/RebasePolicy.antt =====
-- spsync/engine/rebase_policy.cpp, with pending_needs_rebase and last_special_tag of spsync/engine/sync_engine.cpp: when the
-- engine rebuilds a pending record on the head before it commits it.
pub mod Rows
pub mod Special
pub mod Replica
pub mod Server
pub mod Tests
use spsync.Prelude.{
  ℕ, zero, suc, ◌+◌, ◌-◌, ◌*◌, ◌/◌, ◌%◌, ◌^◌, ◌≤◌, ◌<◌, min, max, ◌≡◌, refl, sym, ap, ◌∙◌, subst,
  ◌≢◌, ◌↔◌, ◌⊎◌, inl, inr, Bool, true, false, not, ◌&&◌, ◌||◌, Option, none, some, List, [], ◌∷◌,
  ◌++◌, map, arith, ltb, leb, ◌==◌, if◌then◌else◌, Bool-cases, Option-cases, ==_iff, u64_mod, add64,
  sub64, length, get_elem?, take, All, Any, length-append, Octets, is_empty, eq_octets, lt_octets,
  eq_octets_iff,
}
use spsync.Sequence.{is_valid}
use spsync.Divergence.{ChainBlockId}
use spsync.SyncMode.{
  SyncMode, allow_all, require_special_seen, require_data_add_remove_seen, require_all_seen,
}
use spsync.Records.{
  RecordTypeTag, user_change_tag, data_change_tag, segment_tag, RecordBase, AnyRecord, base_of,
  type_of, changes_of, eq_block_id,
}
use spsync.RecordStorage.{
  Row, is_in_sync, find_row, last_block, last_special_sequence, last_data_add_sequence, has_add,
}
use spsync.ChainRules.{requires_all_seen, requires_adds_seen, requires_special_seen}

pub record RebaseState : Type 0 where
  pub mode : SyncMode
  pub type : RecordTypeTag
  pub has_adds : Bool
  pub last_seen : ChainBlockId
  pub head : ChainBlockId
  pub special_ref : Octets
  pub newest_special : Octets
  pub last_data_add : ℕ

-- The order of the modes is that of their constructors.
unfoldable pub is_special_behind : RebaseState → Bool
is_special_behind s =
    requires_special_seen s.mode
    && (not (is_empty s.newest_special) && not (eq_octets s.special_ref s.newest_special))

unfoldable pub weak_needs_rebase : RebaseState → RecordTypeTag → Bool
weak_needs_rebase s segment_tag =
    requires_special_seen s.mode && not (eq_block_id s.last_seen s.head)
weak_needs_rebase s user_change_tag = is_special_behind s
weak_needs_rebase s data_change_tag =
    if is_special_behind s
    then true
    else if requires_adds_seen s.mode && s.has_adds
    then is_valid s.last_data_add && ltb s.last_seen.sequence s.last_data_add
    else false

unfoldable pub needs_rebase : RebaseState → Bool
unfolding weak_needs_rebase
needs_rebase s =
    if requires_all_seen s.mode
    then not (eq_block_id s.last_seen s.head)
    else weak_needs_rebase s s.type

-- `record_storage::find` of a sequence.
unfoldable pub find_sequence : ℕ → List Row → Option Row
unfolding find_row is_in_sync
find_sequence seq rows = find_row (λ r. r.seq == seq && is_in_sync r.state) rows

abbrev pub tag_or_empty : Option Row → Octets
tag_or_empty none = []
tag_or_empty (some r) = r.tag

unfoldable pub last_special_tag : List Row → Octets
last_special_tag rows =
    let seq = last_special_sequence rows in
    if is_valid seq then tag_or_empty (find_sequence seq rows) else []

unfoldable pub rebase_state_of : SyncMode → List Row → AnyRecord → RebaseState
rebase_state_of mode rows rec = record {
  mode = mode;
  type = type_of rec;
  has_adds = has_add (changes_of rec);
  last_seen = (base_of rec).last_seen_block;
  head = last_block rows;
  special_ref = (base_of rec).last_seen_special_tag;
  newest_special = last_special_tag rows;
  last_data_add = last_data_add_sequence rows;
}

unfoldable pub pending_needs_rebase : SyncMode → List Row → AnyRecord → Bool
unfolding rebase_state_of
pending_needs_rebase mode rows rec = needs_rebase (rebase_state_of mode rows rec)
