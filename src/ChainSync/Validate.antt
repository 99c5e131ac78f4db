-- ===== src/ChainSync/Validate.antt =====
-- How `validate` and `commit_block` of spsync/server/server_lib/chain_sync.cpp go together.
use spsync.Prelude.{ℕ, ◌≡◌, refl, sym, ap, ◌∙◌, [], Option, none, some, Octets}
use mathlib.Core.Option.{some-injective}
use spsync.Sequence.{seq_add}
use spsync.Records.{AnyRecord, ContentAuth, ChainBlock, BlockEnvelope}
use spsync.ChainLog.{ChainLog, append}
use spsync.ChainRules.{
  CommitError, thrown_error, RecType, Verdict, ChainSyncConfig, ChainSync, RuleResult,
}
use spsync.ChainSync.{
  evaluate, error_of, set_and_save_block, outcome, judged, committed, commit_block, validate,
  placed,
}

module _ (tag_size digest_size : ℕ) (hash : ChainBlock → Octets)
    (decode : Octets → Option AnyRecord) (verify : Option (ContentAuth → Octets → Verdict))
    (config : ChainSyncConfig) (s : ChainSync) where
  -- The envelope that the log of a server gets: the block behind the head.
  abbrev pub behind_head : ChainBlock → BlockEnvelope
  behind_head block = record {
    block = record block {
      sequence = seq_add s.log.head.sequence 1;
      parent_hash = s.log.head.hash;
    };
    origin = [];
    term = 0;
    signature = none;
  }

  -- The answer of a commit and the state after it, from what `validate` finds and what the log does.
  pub record Agrees (block : ChainBlock) (answer : (Option CommitError × ChainBlock) × ChainSync)
      : Type 0 where
    pub refused :
        (e : CommitError)
        → validate tag_size digest_size hash decode verify config s block ≡ some e
        → answer ≡ ((some e, block), s)
    pub stored :
        (log : ChainLog)
        → validate tag_size digest_size hash decode verify config s block ≡ none
        → append hash decode s.log (behind_head block) ≡ some log
        → (answer.0 ≡ (none, (behind_head block).block)) × (answer.1.log ≡ log)
    pub not_stored :
        validate tag_size digest_size hash decode verify config s block ≡ none
        → append hash decode s.log (behind_head block) ≡ none
        → answer ≡ ((some thrown_error, block), s)

  judged-Agrees :
      (block : ChainBlock) (type : RecType) (err : Option CommitError)
      → validate tag_size digest_size hash decode verify config s block ≡ err
      → Agrees block (judged tag_size digest_size hash decode verify config s block type err)
  unfolding judged outcome set_and_save_block placed
  judged-Agrees block type (some e) v = record {
    refused =
        λ e' v'. ap (λ (x : CommitError). ((some x, block), s)) (some-injective _ _ (sym v ∙ v'));
    stored = λ log v' a. cc;
    not_stored = λ v' a. cc;
  }
  judged-Agrees block type none v = record {
    refused = λ e' v'. cc;
    stored = λ log v' a. rw a (refl, refl);
    not_stored = λ v' a. rw a refl;
  }

  committed-Agrees :
      (block : ChainBlock) (o : Option RuleResult)
      → validate tag_size digest_size hash decode verify config s block
        ≡ error_of tag_size digest_size hash decode verify config s o
      → Agrees block (committed tag_size digest_size hash decode verify config s block o)
  unfolding committed
  committed-Agrees block none v = record {
    refused =
        λ e' v'. ap (λ (x : CommitError). ((some x, block), s)) (some-injective _ _ (sym v ∙ v'));
    stored = λ log v' a. cc;
    not_stored = λ v' a. cc;
  }
  committed-Agrees block (some r) v = judged-Agrees block r.type r.err v

  -- A commit answers with the error that `validate` finds and leaves the state. Where `validate` finds none, the log
  -- decides: when it appends the block behind the head, the commit succeeds with that block and that log; when it does
  -- not, the commit answers with the error that was thrown and leaves the state.
  pub commit_block-validate :
      (block : ChainBlock)
      → Agrees block (commit_block tag_size digest_size hash decode verify config s block)
  unfolding commit_block validate
  commit_block-validate block =
      committed-Agrees block (evaluate tag_size digest_size hash decode verify config s block) refl
