-- ===== src/ChainSync/Restart.antt =====
-- The state that spsync/server/server_lib/chain_sync.cpp derives from its storage, when it starts and after a truncation.
use spsync.Prelude.{
  ℕ, ◌≤◌, ◌≡◌, refl, sym, ap, subst, inl, inr, Bool, true, false, Option, none, some, List, [], ◌∷◌,
  arith, if◌then◌else◌, Bool-cases, All, is_empty,
}
use mathlib.Core.Option.{some-injective}
use spsync.Sequence.{is_valid}
use spsync.Records.{ChainBlock}
use spsync.RecordStorage.{
  Row, is_in_sync, newest, later, id_of, last_block, drop_rows, truncate_from,
}
use spsync.ChainLog.{truncate_log, truncated}
use spsync.ChainRules.{ChainSync}
use spsync.ChainSync.{opened, replayed, truncation, truncate_chain}
use spsync.ChainSync.Invariant.{IsValid}
use spsync.Prelude.{All-mono}

-- The newest of rows that are all selected is above all of them.
later_lem :
    (r : Row) (o : Option Row)
    → (r.seq ≤ (id_of (some (later r o))).sequence)
      × ((id_of o).sequence ≤ (id_of (some (later r o))).sequence)
unfolding id_of
later_lem r none = (omega arith, omega arith)
later_lem r (some s) = ground arith

newest_selected :
    (p : Row → Bool) (r : Row) (rows : List Row)
    → p r ≡ true
    → newest p (r ∷ rows) ≡ some (later r (newest p rows))
unfolding newest
newest_selected p r rows h = rw (h) refl

newest_above :
    (p : Row → Bool) (rows : List Row)
    → All (λ (x : Row). p x ≡ true) rows
    → All (λ (x : Row). x.seq ≤ (id_of (newest p rows)).sequence) rows
newest_above p [] h = tt
newest_above p (r ∷ rows) h =
    let (here, rest) = later_lem r (newest p rows) in
    subst (λ o. All (λ (x : Row). x.seq ≤ (id_of o).sequence) (r ∷ rows))
      (sym (newest_selected p r rows h.0))
      (here, All-mono (λ x b. omega (arith, b, rest)) rows (newest_above p rows h.1))

-- Rows that a server keeps are in sync and have a tag.
unfoldable pub IsKept : Row → Type 0
IsKept r = (is_in_sync r.state ≡ true) × (is_empty r.tag ≡ false)

opened_lem : (rows : List Row) → All IsKept rows → IsValid (opened rows)
unfolding opened replayed last_block IsKept
opened_lem rows h = record {
  head = refl;
  adds = refl;
  specials = refl;
  below = newest_above (λ x. is_in_sync x.state) rows (All-mono (λ x k. k.0) rows h);
  tagged = All-mono (λ x k. k.1) rows h;
}

opened_kept :
    (rows : List Row)
    → All IsKept rows
    → IsValid (replayed (record { rows = rows; head = last_block rows }))
unfolding opened
opened_kept rows h = opened_lem rows h

drop_rows-All :
    (P : Row → Type 0) (p : Row → Bool) (rows : List Row) → All P rows → All P (drop_rows p rows)
unfolding drop_rows
drop_rows-All P p [] h = tt
drop_rows-All P p (r ∷ rows) h = elim (Bool-cases (p r)) [
  | inl t ↦ rw t (drop_rows-All P p rows h.1)
  | inr f ↦ rw f (h.0, drop_rows-All P p rows h.1)
]

truncated_lem :
    (b : Bool) (rows : List Row) (blocks : List ChainBlock) (after : ChainSync)
    (removed : List ChainBlock)
    → All IsKept rows
    → truncation (truncated (if b then some (rows, blocks) else none)) ≡ some (after, removed)
    → IsValid after
unfolding truncated truncation
truncated_lem true rows blocks after removed h e =
    subst IsValid (ap (λ (p : ChainSync × List ChainBlock). p.0) (some-injective _ _ e))
      (opened_kept rows h)
truncated_lem false rows blocks after removed h e = cc

-- A server that starts on rows in sync with a tag derives a valid state, and so it does when it truncates a chain of
-- such rows from a valid sequence.
pub truncate_chain-IsValid :
    (s : ChainSync) (first_removed : ℕ) (after : ChainSync) (removed : List ChainBlock)
    → All IsKept s.log.rows
    → truncate_chain s first_removed ≡ some (after, removed)
    → IsValid (opened s.log.rows) × IsValid after
unfolding truncate_chain truncate_log truncate_from
truncate_chain-IsValid s first_removed after removed h e = (
  opened_lem s.log.rows h,
  truncated_lem (is_valid first_removed) _ _ after removed (drop_rows-All IsKept _ s.log.rows h) e,
)
