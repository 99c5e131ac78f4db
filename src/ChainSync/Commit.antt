-- ===== src/ChainSync/Commit.antt =====
-- What a commit of spsync/server/server_lib/chain_sync.cpp does to the chain.
use spsync.Prelude.{
  ℕ, ◌≡◌, refl, ap, ◌∙◌, ◌⊎◌, Bool, true, false, not, ◌&&◌, Option, none, some, arith,
  if◌then◌else◌, Octets, is_empty,
}
use mathlib.Core.Option.{some-injective}
use spsync.KeyMap.{is_some}
use spsync.Records.{AnyRecord, ContentAuth, ChainBlock, base_of}
use spsync.RecordStorage.{Row, find_tag, find_op_id}
use spsync.ChainRules.{
  CommitError, Verdict, ChainSyncConfig, ChainSync, RuleResult, refused, record_already_committed,
  record_too_big, thrown_error, too_big, auth_error, check_rules, classify,
}
use spsync.ChainSync.{
  decoded, signed, evaluate_by, evaluate, evaluate_foreign, set_and_save_block, outcome, judged,
  committed, commit_block, commit_foreign, placed,
}
use spsync.ChainSync.Save.{Saves, save-Saves}

none_not_some : {A : Type 0} (bad : CommitError) → some bad ≡ none → A
none_not_some bad e = cc

none_not_refused :
    {A : Type 0} (bad : CommitError) (result : RuleResult)
    → refused bad ≡ result
    → result.err ≡ none
    → A
none_not_refused bad result e h = none_not_some bad (ap (λ (r : RuleResult). r.err) e ∙ h)

passed :
    (b : Bool) (bad : CommitError) (x : Option RuleResult) (result : RuleResult)
    → (if b then some (refused bad) else x) ≡ some result
    → result.err ≡ none
    → (b ≡ false) × (x ≡ some result)
passed true bad x result e h = none_not_refused bad result (some-injective _ _ e) h
passed false bad x result e h = (refl, e)

not_found : (o : Option Row) → is_some o ≡ false → o ≡ none
not_found none h = refl
not_found (some r) h = cc

module _ (tag_size digest_size : ℕ) (hash : ChainBlock → Octets)
    (decode : Octets → Option AnyRecord) (verify : Option (ContentAuth → Octets → Verdict))
    (config : ChainSyncConfig) (s : ChainSync) where
  -- What a block passed that no error was found for.
  pub record Accepts (rules : AnyRecord → Option RuleResult) (block : ChainBlock)
      (result : RuleResult) : Type 0 where
    pub small : too_big tag_size digest_size decode verify config block ≡ false
    pub new_tag : find_tag block.auth.tag s.log.rows ≡ none
    pub authentic : auth_error tag_size digest_size decode verify config block ≡ none
    pub record_in : AnyRecord
    pub decodes : decode block.record_bytes ≡ some record_in
    pub new_op_id :
        (is_empty (base_of record_in).op_id ≡ true)
        ⊎ (find_op_id (base_of record_in).op_id s.log.rows ≡ none)
    pub by_rules : rules record_in ≡ some result
    pub no_error : result.err ≡ none

  signed_lem :
      (rules : AnyRecord → Option RuleResult) (block : ChainBlock) (o : Option CommitError)
      (result : RuleResult)
      → signed tag_size digest_size hash decode verify config s rules block o ≡ some result
      → result.err ≡ none
      → (o ≡ none)
        × (decoded tag_size digest_size hash decode verify config s rules
              (decode block.record_bytes)
            ≡ some result)
  signed_lem rules block none result e h = (refl, e)
  signed_lem rules block (some bad) result e h =
      none_not_refused bad result (some-injective _ _ e) h

  decoded_lem :
      (rules : AnyRecord → Option RuleResult) (o : Option AnyRecord) (result : RuleResult)
      → decoded tag_size digest_size hash decode verify config s rules o ≡ some result
      → result.err ≡ none
      → (r : AnyRecord) × (o ≡ some r)
        × ((is_empty (base_of r).op_id ≡ true) ⊎ (find_op_id (base_of r).op_id s.log.rows ≡ none))
        × (rules r ≡ some result)
  unfolding decoded
  decoded_lem rules none result e h = cc
  decoded_lem rules (some r) result e h =
      let (f, g) =
        passed
          (not (is_empty (base_of r).op_id) && is_some (find_op_id (base_of r).op_id s.log.rows))
          record_already_committed (rules r) result e h in
      (r, refl, ground (arith, f), g)

  evaluate_by-Accepts :
      (rules : AnyRecord → Option RuleResult) (block : ChainBlock) (result : RuleResult)
      → evaluate_by tag_size digest_size hash decode verify config s rules block ≡ some result
      → result.err ≡ none
      → Accepts rules block result
  unfolding evaluate_by
  evaluate_by-Accepts rules block result e h =
      let (small, e1) =
        passed (too_big tag_size digest_size decode verify config block) record_too_big _ result e
          h in
      let (new, e2) =
        passed (is_some (find_tag block.auth.tag s.log.rows)) record_already_committed _ result e1
          h in
      let (authentic, e3) = signed_lem rules block _ result e2 h in
      let (r, d, new_op, by) = decoded_lem rules _ result e3 h in
      record {
        small = small;
        new_tag = not_found _ new;
        authentic = authentic;
        record_in = r;
        decodes = d;
        new_op_id = new_op;
        by_rules = by;
        no_error = h;
      }

  -- What a commit did: nothing, with an error, or the block is placed and saved after it was accepted.
  pub data Commits (rules : AnyRecord → Option RuleResult) (block : ChainBlock)
      (out : (Option CommitError × ChainBlock) × ChainSync) : Type 0 where
    fails : (e : CommitError) → out ≡ ((some e, block), s) → Commits rules block out
    commits :
        (result : RuleResult) (after : ChainSync)
        → Accepts rules block result
        → Saves tag_size digest_size hash decode verify config s block result.type after
        → out ≡ ((none, placed tag_size digest_size hash decode verify config s block), after)
        → Commits rules block out

  outcome_lem :
      (rules : AnyRecord → Option RuleResult) (block : ChainBlock) (result : RuleResult)
      (saved_to : Option ChainSync)
      → Accepts rules block result
      → set_and_save_block tag_size digest_size hash decode verify config s block result.type
        ≡ saved_to
      → Commits rules block
          (outcome tag_size digest_size hash decode verify config s block saved_to)
  unfolding outcome
  outcome_lem rules block result none a e = fails thrown_error refl
  outcome_lem rules block result (some after) a e =
      commits result after a
        (save-Saves tag_size digest_size hash decode verify config s block result.type after e) refl

  judged_lem :
      (rules : AnyRecord → Option RuleResult) (block : ChainBlock) (result : RuleResult)
      (err : Option CommitError)
      → evaluate_by tag_size digest_size hash decode verify config s rules block ≡ some result
      → result.err ≡ err
      → Commits rules block
          (judged tag_size digest_size hash decode verify config s block result.type err)
  unfolding judged
  judged_lem rules block result none e h =
      outcome_lem rules block result _ (evaluate_by-Accepts rules block result e h) refl
  judged_lem rules block result (some bad) e h = fails bad refl

  committed_lem :
      (rules : AnyRecord → Option RuleResult) (block : ChainBlock) (o : Option RuleResult)
      → evaluate_by tag_size digest_size hash decode verify config s rules block ≡ o
      → Commits rules block (committed tag_size digest_size hash decode verify config s block o)
  unfolding committed
  committed_lem rules block none e = fails thrown_error refl
  committed_lem rules block (some result) e = judged_lem rules block result result.err e refl

  -- A commit fails with an error and leaves the state as it is, or places the block on the head: the block is no larger
  -- than the limit, its tag and its operation id are new, its signature passed, the rules of the server accept its
  -- record, and the state has one more row, its head at the block and the cursors of its type.
  pub commit_block-Commits :
      (block : ChainBlock)
      → Commits
          (check_rules tag_size digest_size decode verify config s)
          block
          (commit_block tag_size digest_size hash decode verify config s block)
  unfolding commit_block evaluate
  commit_block-Commits block =
      committed_lem (check_rules tag_size digest_size decode verify config s) block _ refl

  -- A commit of a block that another server accepted fails with an error and leaves the state as it is, or places the
  -- block on the head: it is no larger than the limit, its tag and its operation id are new, its signature passed, its
  -- record is classified without an error, and the state has one more row, its head at the block and the cursors of
  -- its type.
  pub commit_foreign-Commits :
      (block : ChainBlock)
      → Commits
          (classify tag_size digest_size decode verify config s)
          block
          (commit_foreign tag_size digest_size hash decode verify config s block)
  unfolding commit_foreign evaluate_foreign
  commit_foreign-Commits block =
      committed_lem (classify tag_size digest_size decode verify config s) block _ refl
