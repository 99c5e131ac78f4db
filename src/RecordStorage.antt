-- ===== src/RecordStorage.antt =====
-- spsync/core/record_storage.cpp: the tables of records, the queries on them and their changes.
-- The rows stand in the order of their keys. A row of the table `record` holds its block and envelope decoded, and its
-- rows of the table `record_objects`; the counts of data references are left out.
pub mod Laws
pub mod Select
use spsync.Prelude.{
  ℕ, zero, suc, ◌+◌, ◌-◌, ◌*◌, ◌/◌, ◌%◌, ◌^◌, ◌≤◌, ◌<◌, min, max, ◌≡◌, refl, sym, ap, ◌∙◌, subst,
  ◌≢◌, ◌↔◌, ◌⊎◌, inl, inr, Bool, true, false, not, ◌&&◌, ◌||◌, Option, none, some, List, [], ◌∷◌,
  ◌++◌, map, arith, ltb, leb, ◌==◌, if◌then◌else◌, Bool-cases, Option-cases, ==_iff, u64_mod, add64,
  sub64, length, get_elem?, take, All, Any, length-append, Octets, is_empty, eq_octets, lt_octets,
  eq_octets_iff,
}
use spsync.Sequence.{is_valid}
use spsync.KeyMap.{is_some}
use spsync.Divergence.{ChainBlockId}
use spsync.Records.{
  RecordTypeTag, AnyRecord, ChainBlock, BlockEnvelope, PlainSingleChange, type_of, base_of,
  changes_of, is_special, is_segment,
}

pub data RecordState : Type 0 where
  unknown invalid pending_commit pending_sync in_sync acked : RecordState

unfoldable pub is_server_confirmed : RecordState → Bool
is_server_confirmed unknown = false
is_server_confirmed invalid = false
is_server_confirmed pending_commit = false
is_server_confirmed pending_sync = false
is_server_confirmed in_sync = true
is_server_confirmed acked = true

unfoldable pub is_in_sync : RecordState → Bool
is_in_sync unknown = false
is_in_sync invalid = false
is_in_sync pending_commit = false
is_in_sync pending_sync = false
is_in_sync in_sync = true
is_in_sync acked = false

-- The states that `collect_truncation_rows` selects.
unfoldable pub is_received : RecordState → Bool
is_received unknown = false
is_received invalid = false
is_received pending_commit = false
is_received pending_sync = true
is_received in_sync = true
is_received acked = true

pub record Row : Type 0 where
  pub tag : Octets
  pub seq : ℕ
  pub hash : Octets
  pub state : RecordState
  pub block : ChainBlock
  pub kind : RecordTypeTag
  pub op_id : Octets
  pub objects : List PlainSingleChange
  pub envelope : Option BlockEnvelope
  pub origin : Option (Octets × ℕ)

unfoldable pub find_row : (Row → Bool) → List Row → Option Row
find_row p [] = none
find_row p (r ∷ rows) = if p r then some r else find_row p rows

abbrev pub later : Row → Option Row → Row
later r none = r
later r (some s) = if leb r.seq s.seq then s else r

-- `ORDER BY seq DESC, key DESC LIMIT 1`.
unfoldable pub newest : (Row → Bool) → List Row → Option Row
newest p [] = none
newest p (r ∷ rows) = let rest = newest p rows in if p r then some (later r rest) else rest

-- `SELECT max(seq)`, with `value_or(0)`.
unfoldable pub max_seq : (Row → Bool) → List Row → ℕ
max_seq p [] = 0
max_seq p (r ∷ rows) = let rest = max_seq p rows in if p r then max r.seq rest else rest

unfoldable pub insert_by_seq : Row → List Row → List Row
insert_by_seq r [] = r ∷ []
insert_by_seq r (s ∷ rows) =
    let rest = insert_by_seq r rows in if leb r.seq s.seq then r ∷ s ∷ rows else s ∷ rest

-- `WHERE p ORDER BY seq ASC`.
unfoldable pub select_by_seq : (Row → Bool) → List Row → List Row
select_by_seq p [] = []
select_by_seq p (r ∷ rows) =
    let rest = select_by_seq p rows in if p r then insert_by_seq r rest else rest

unfoldable pub id_of : Option Row → ChainBlockId
id_of none = record { sequence = 0; hash = [] }
id_of (some r) = record { sequence = r.seq; hash = r.hash }

unfoldable pub last_block : List Row → ChainBlockId
unfolding newest id_of is_in_sync
last_block rows = id_of (newest (λ r. is_in_sync r.state) rows)

unfoldable pub find_tag : Octets → List Row → Option Row
unfolding find_row
find_tag tag rows = find_row (λ r. eq_octets tag r.tag) rows

-- An operation id that is not set is NULL, and NULL is found by no comparison.
unfoldable pub find_op_id : Octets → List Row → Option Row
unfolding find_row
find_op_id op_id rows = find_row (λ r. not (is_empty r.op_id) && eq_octets op_id r.op_id) rows

unfoldable pub names_object : Octets → List PlainSingleChange → Bool
names_object oid [] = false
names_object oid (c ∷ objects) = eq_octets oid c.id || names_object oid objects

unfoldable pub find_last : Octets → List Row → Option Row
unfolding newest is_in_sync names_object
find_last oid rows = newest (λ r. is_in_sync r.state && names_object oid r.objects) rows

unfoldable pub last_special_sequence : List Row → ℕ
unfolding max_seq is_in_sync is_special
last_special_sequence rows = max_seq (λ r. is_in_sync r.state && is_special r.kind) rows

unfoldable pub has_add : List PlainSingleChange → Bool
has_add [] = false
has_add (c ∷ objects) = is_empty c.previous_oid_record_tag || has_add objects

unfoldable pub last_data_add_sequence : List Row → ℕ
unfolding max_seq is_in_sync has_add
last_data_add_sequence rows = max_seq (λ r. is_in_sync r.state && has_add r.objects) rows

unfoldable pub find_last_segment : List Row → Option Row
unfolding newest is_in_sync is_segment
find_last_segment rows = newest (λ r. is_in_sync r.state && is_segment r.kind) rows

unfoldable pub in_range : ℕ → ℕ → Row → Bool
unfolding is_in_sync
in_range first last r = is_in_sync r.state && (leb first r.seq && leb r.seq last)

unfoldable pub tags_in_range : ℕ → ℕ → List Row → List Octets
unfolding select_by_seq in_range
tags_in_range first last rows = map (λ r. r.tag) (select_by_seq (in_range first last) rows)

unfoldable pub find_range : ℕ → ℕ → ℕ → List Row → List Row
unfolding select_by_seq in_range
find_range first last limit rows = take limit (select_by_seq (in_range first last) rows)

-- The UNIQUE columns of a row to insert are in no row: its tag, its hash, its operation id when it is set, and its
-- sequence beside another confirmed one.
unfoldable pub clashes : Row → Row → Bool
unfolding is_server_confirmed
clashes r s =
    eq_octets r.tag s.tag
    || (eq_octets r.hash s.hash
        || ((not (is_empty r.op_id) && eq_octets r.op_id s.op_id)
            || (r.seq == s.seq && (is_server_confirmed r.state && is_server_confirmed s.state))))

module _ (hash : ChainBlock → Octets) (decode : Octets → Option AnyRecord) where
  unfoldable pub row_of : ChainBlock → RecordState → AnyRecord → Row
  row_of block state record_in = record {
    tag = block.auth.tag;
    seq = block.sequence;
    hash = hash block;
    state = state;
    block = block;
    kind = type_of record_in;
    op_id = (base_of record_in).op_id;
    objects = changes_of record_in;
    envelope = none;
    origin = none;
  }

  unfoldable pub inserted :
      ChainBlock → RecordState → List Row → Option AnyRecord → Option (List Row)
  unfolding find_row clashes row_of
  inserted block state rows none = none
  inserted block state rows (some r) =
      let row = row_of block state r in
      if is_some (find_row (clashes row) rows) then none else some (rows ++ (row ∷ []))

  -- None is an exception: the record does not decode, or a UNIQUE column has the value.
  unfoldable pub create : ChainBlock → RecordState → List Row → Option (List Row)
  unfolding inserted
  create block state rows = inserted block state rows (decode block.record_bytes)

-- `DELETE FROM record`.
unfoldable pub drop_rows : (Row → Bool) → List Row → List Row
drop_rows p [] = []
drop_rows p (r ∷ rows) = let rest = drop_rows p rows in if p r then rest else r ∷ rest

-- `truncate_from` as the server calls it, without the demotion of acked records: the rows left and the blocks removed.
unfoldable pub truncate_from : ℕ → List Row → Option (List Row × List ChainBlock)
unfolding is_valid select_by_seq is_received
truncate_from first_removed rows =
    let goes = λ (r : Row). is_received r.state && leb first_removed r.seq in
    if is_valid first_removed
    then some (drop_rows goes rows, map (λ r. r.block) (select_by_seq goes rows))
    else none
