-- ===== src/ChainSync/Links.antt =====
-- The links between the blocks of a chain of spsync/server/server_lib/chain_sync.cpp.
use spsync.Prelude.{ℕ, ◌≡◌, refl, sym, ap, ◌∙◌, subst, Option, List, [], ◌∷◌, ◌++◌, Octets}
use spsync.Sequence.{seq_add}
use spsync.Divergence.{ChainBlockId}
use spsync.Records.{AnyRecord, ContentAuth, ChainBlock}
use spsync.RecordStorage.{Row, in_sync, row_of}
use spsync.ChainRules.{CommitError, RecType, Verdict, ChainSyncConfig, ChainSync, RuleResult}
use spsync.ChainSync.{commit_block, commit_foreign, placed}
use spsync.ChainSync.Save.{Saves}
use spsync.ChainSync.Commit.{Commits, fails, commits, commit_block-Commits, commit_foreign-Commits}

-- The rows lead from a block to another: each names the hash of the one before and has the next sequence.
unfoldable pub Links : ChainBlockId → List Row → ChainBlockId → Type 0
Links from [] to = from ≡ to
Links from (r ∷ rows) to =
    ((r.block.parent_hash ≡ from.hash) × (r.seq ≡ seq_add from.sequence 1))
    × Links (record { sequence = r.seq; hash = r.hash }) rows to

Links-append :
    (from to : ChainBlockId) (rows : List Row) (r : Row)
    → Links from rows to
    → r.block.parent_hash ≡ to.hash
    → r.seq ≡ seq_add to.sequence 1
    → Links from (rows ++ (r ∷ [])) (record { sequence = r.seq; hash = r.hash })
unfolding Links
Links-append from to [] r e p q = (
  (
    p ∙ ap (λ (b : ChainBlockId). b.hash) (sym e),
    q ∙ ap (λ (b : ChainBlockId). seq_add b.sequence 1) (sym e),
  ),
  refl,
)
Links-append from to (x ∷ rows) r h p q = (h.0, Links-append _ to rows r h.1 p q)

-- Before the first block.
abbrev pub origin : ChainBlockId
origin = record { sequence = 0; hash = [] }

module _ (tag_size digest_size : ℕ) (hash : ChainBlock → Octets)
    (decode : Octets → Option AnyRecord) (verify : Option (ContentAuth → Octets → Verdict))
    (config : ChainSyncConfig) (s : ChainSync) where
  Saves-Links :
      (block : ChainBlock) (type : RecType) (after : ChainSync)
      → Saves tag_size digest_size hash decode verify config s block type after
      → Links origin s.log.rows s.log.head
      → Links origin after.log.rows after.log.head
  unfolding placed row_of
  Saves-Links block type after w h =
      subst (λ rows. Links origin rows after.log.head) (sym w.rows)
        (subst
          (Links origin (
            s.log.rows
            ++ (row_of hash decode (placed tag_size digest_size hash decode verify config s block)
                  in_sync w.record_in
                ∷ [])))
          (sym w.head)
          (Links-append origin s.log.head s.log.rows
            (row_of hash decode (placed tag_size digest_size hash decode verify config s block)
              in_sync w.record_in)
            h refl refl))

  Commits-Links :
      (rules : AnyRecord → Option RuleResult) (block : ChainBlock)
      (out : (Option CommitError × ChainBlock) × ChainSync)
      → Commits tag_size digest_size hash decode verify config s rules block out
      → Links origin s.log.rows s.log.head
      → Links origin out.1.log.rows out.1.log.head
  Commits-Links rules block out (fails e same) h =
      subst (λ o. Links origin o.1.log.rows o.1.log.head) (sym same) h
  Commits-Links rules block out (commits result after a w same) h =
      subst (λ o. Links origin o.1.log.rows o.1.log.head) (sym same)
        (Saves-Links block result.type after w h)

  -- Stored blocks that are one chain from the first to the head, each with the hash of the one before and the next
  -- sequence, stay one under a commit of any block, of a client or of another server, whatever its outcome.
  pub commit-Links :
      (block : ChainBlock)
      → Links origin s.log.rows s.log.head
      → (let after = (commit_block tag_size digest_size hash decode verify config s block).1 in
          Links origin after.log.rows after.log.head)
        × (let after = (commit_foreign tag_size digest_size hash decode verify config s block).1 in
            Links origin after.log.rows after.log.head)
  commit-Links block h = (
    Commits-Links _ block _
        (commit_block-Commits tag_size digest_size hash decode verify config s block) h,
    Commits-Links _ block _
        (commit_foreign-Commits tag_size digest_size hash decode verify config s block) h,
  )
