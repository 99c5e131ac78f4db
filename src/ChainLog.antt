-- ===== src/ChainLog.antt =====
-- spsync/server/server_lib/chain_log.cpp: the server's log of blocks and its batches.
pub mod Tests
pub mod Budget
pub mod Origins
use spsync.Prelude.{
  ℕ, zero, suc, ◌+◌, ◌-◌, ◌*◌, ◌/◌, ◌%◌, ◌^◌, ◌≤◌, ◌<◌, min, max, ◌≡◌, refl, sym, ap, ◌∙◌, subst,
  ◌≢◌, ◌↔◌, ◌⊎◌, inl, inr, Bool, true, false, not, ◌&&◌, ◌||◌, Option, none, some, List, [], ◌∷◌,
  ◌++◌, map, arith, ltb, leb, ◌==◌, if◌then◌else◌, Bool-cases, Option-cases, ==_iff, u64_mod, add64,
  sub64, length, get_elem?, take, All, Any, length-append, Octets, is_empty, eq_octets, lt_octets,
  eq_octets_iff,
}
use spsync.Sequence.{is_valid, seq_add}
use spsync.Divergence.{ChainBlockId}
use spsync.Records.{AnyRecord, ChainBlock, BlockEnvelope}
use spsync.KeyMap.{is_some}
use spsync.RecordStorage.{
  find_tag, Row, RecordState, in_sync, last_block, create, find_range, truncate_from,
}

abbrev pub record_wire_allowance : ℕ
record_wire_allowance = 8 * 1024

-- What an envelope costs in a batch, and a batch with what is used of its budget.
unfoldable pub cost_of : BlockEnvelope → ℕ
cost_of env = length env.block.record_bytes + record_wire_allowance

pub record Batch : Type 0 where
  pub out : List BlockEnvelope
  pub used : ℕ

unfoldable pub append_within_budget : ℕ → Batch → BlockEnvelope → Batch
unfolding cost_of
append_within_budget max_bytes b env =
    let cost = cost_of env in
    if ltb (length b.out) 2 || leb (b.used + cost) max_bytes
    then record { out = b.out ++ (env ∷ []); used = b.used + cost }
    else b

-- The loop over what the query found.
unfoldable pub batch : ℕ → Batch → List BlockEnvelope → Batch
unfolding append_within_budget
batch max_bytes b [] = b
batch max_bytes b (env ∷ envs) = batch max_bytes (append_within_budget max_bytes b env) envs

abbrev pub empty_batch : Batch
empty_batch = record { out = []; used = 0 }

-- A record without an envelope is served in one that is not signed.
unfoldable pub served : Row → Option BlockEnvelope → BlockEnvelope
served r none = record { block = r.block; origin = []; term = 0; signature = none }
served r (some env) = env

unfoldable pub or_first : ℕ → ℕ
unfolding is_valid
or_first start = if is_valid start then start else 1

unfoldable pub or_head : ChainBlockId → ℕ → ℕ
unfolding is_valid
or_head head end = if is_valid end then end else head.sequence

pub record ChainLog : Type 0 where
  pub rows : List Row
  pub head : ChainBlockId

unfoldable pub get : ChainLog → ℕ → ℕ → ℕ → ℕ → List BlockEnvelope
unfolding batch served find_range or_first or_head
get log start end limit max_bytes =
    let found = find_range (or_first start) (or_head log.head end) limit log.rows in
    (batch max_bytes empty_batch (map (λ r. served r r.envelope) found)).out

module _ (hash : ChainBlock → Octets) (decode : Octets → Option AnyRecord) where
  abbrev pub assign_row : BlockEnvelope → Row → Row
  assign_row env r = record r {
    envelope = some env;
    origin = some (env.origin, env.block.sequence);
  }

  -- `set_assignment` of the row of a tag.
  unfoldable pub assign_tag : Octets → BlockEnvelope → List Row → List Row
  assign_tag tag env [] = []
  assign_tag tag env (r ∷ rows) =
      let rest = assign_tag tag env rows in
      if eq_octets tag r.tag then assign_row env r ∷ rows else r ∷ rest

  -- None is an exception: no record has the tag.
  unfoldable pub store_assignment : ChainLog → Octets → BlockEnvelope → Option ChainLog
  unfolding find_tag assign_tag
  store_assignment log tag env =
      if is_some (find_tag tag log.rows)
      then some (record log { rows = assign_tag tag env log.rows })
      else none

  unfoldable pub signed_rows : BlockEnvelope → Option (List Row) → Option (List Row)
  unfolding assign_tag
  signed_rows env none = none
  signed_rows env (some rows) = elim env.signature [
    | none ↦ some rows
    | some s ↦ some (assign_tag env.block.auth.tag env rows)
  ]

  abbrev pub headed : ChainBlock → Option (List Row) → Option ChainLog
  headed block none = none
  headed block (some rows) =
      some (record { rows = rows; head = record { sequence = block.sequence; hash = hash block } })

  -- None is an exception: the block does not extend the head, or the storage refuses it.
  unfoldable pub append : ChainLog → BlockEnvelope → Option ChainLog
  unfolding seq_add create signed_rows
  append log env =
      if env.block.sequence == seq_add log.head.sequence 1
        && eq_octets env.block.parent_hash log.head.hash
      then headed env.block (signed_rows env (create hash decode env.block in_sync log.rows))
      else none

unfoldable pub truncated : Option (List Row × List ChainBlock) → Option (ChainLog × List ChainBlock)
unfolding last_block
truncated none = none
truncated (some (rows, removed)) = some (record { rows = rows; head = last_block rows }, removed)

unfoldable pub truncate_log : ChainLog → ℕ → Option (ChainLog × List ChainBlock)
unfolding truncate_from last_block truncated
truncate_log log first_removed = truncated (truncate_from first_removed log.rows)
