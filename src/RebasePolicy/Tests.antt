-- ===== src/RebasePolicy/Tests.antt =====
-- The policy of spsync/engine/rebase_policy.cpp at a chain of one special record, which the engine has beside a pending one.
use spsync.Prelude.{refl, ap, subst, inl, inr, none, List, [], ◌∷◌}
use spsync.RecordStorage.{Row, pending_commit, is_in_sync}
use spsync.RebasePolicy.Replica.{IsSameRecord, Within, IsReplica}
use spsync.ChainSync.Restart.{IsKept}
use spsync.ChainSync.Tests.{config, first_row, chain, chain-IsValid, decode_of}
use spsync.RebasePolicy.Special.{IsShared}
use spsync.RebasePolicy.Server.{Mirrors, pending_needs_rebase-Mirrors}

chain-IsShared : IsShared chain
unfolding IsKept is_in_sync
chain-IsShared = record { valid = chain-IsValid; kept = ((refl, refl), tt); distinct = (tt, tt) }

-- The pending record of an engine, put in the table before the record of the server came.
abbrev pending_row : Row
pending_row = record first_row { tag = 9 ∷ []; seq = 1; hash = 1 ∷ 9 ∷ []; state = pending_commit }

abbrev engine_rows : List Row
engine_rows = pending_row ∷ first_row ∷ []

first_row-IsSameRecord : IsSameRecord first_row first_row
first_row-IsSameRecord = record { tag = refl; seq = refl; hash = refl; kind = refl; objects = refl }

engine-IsReplica : IsReplica engine_rows (first_row ∷ [])
unfolding Within is_in_sync
engine-IsReplica = record {
  known = λ r i t. elim i [
    | inl pending ↦ absurd (cc (ap (λ (x : Row). is_in_sync x.state) pending, t))
    | inr others ↦ elim others [
      | inl first ↦ (
        first_row,
        inl refl,
        refl,
        subst (λ x. IsSameRecord x first_row) first first_row-IsSameRecord,
      )
      | inr gone ↦ absurd gone
    ]
  ];
  complete = λ r i t. elim i [
    | inl first ↦ (
      first_row,
      inr (inl refl),
      refl,
      subst (λ x. IsSameRecord x first_row) first first_row-IsSameRecord,
    )
    | inr gone ↦ absurd gone
  ];
}

pending_needs_rebase-Mirrors_example :
    Mirrors 16 64 decode_of none config chain chain-IsShared engine_rows
pending_needs_rebase-Mirrors_example =
    pending_needs_rebase-Mirrors 16 64 decode_of none config chain chain-IsShared engine_rows
      engine-IsReplica
