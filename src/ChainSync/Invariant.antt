-- ===== src/ChainSync/Invariant.antt =====
-- The invariant of a chain of spsync/server/server_lib/chain_sync.cpp and that commits keep it.
use spsync.Prelude.{
  ℕ, suc, ◌≤◌, ◌<◌, ◌≡◌, refl, sym, ap, ◌∙◌, subst, inl, inr, false, ◌&&◌, Option, none, some, [],
  ◌∷◌, ◌++◌, arith, if◌then◌else◌, Bool-cases, u64_mod, All, Octets, is_empty,
}
use mathlib.Core.Option.{some-injective}
use spsync.Sequence.{seq_add}
use spsync.Records.{
  AnyRecord, user_change_record, data_change_record, segment_record, ContentAuth, ChainBlock,
  is_special, changes_of, type_of,
}
use spsync.RecordStorage.{
  Row, in_sync, is_in_sync, last_block, id_of, last_data_add_sequence, last_special_sequence,
  has_add, row_of,
}
use spsync.RecordStorage.Laws.{max_seq-last, newest-last}
use spsync.ChainRules.{CommitError, RecType, Verdict, ChainSyncConfig, ChainSync, RuleResult}
use spsync.ChainSync.{commit_block, commit_foreign, placed, add_cursor, special_cursor}
use spsync.ChainSync.Save.{Saves}
use spsync.ChainSync.Cursors.{kind_of, check_rules-kind_of, classify-kind_of}
use spsync.ChainSync.Commit.{Commits, fails, commits, commit_block-Commits, commit_foreign-Commits}
use spsync.Prelude.{All-mono, All-append}

-- The head is the newest record, the cursors are what a replay of the records derives, no record is above the head and
-- every record has a tag.
pub record IsValid (s : ChainSync) : Type 0 where
  pub head : s.log.head ≡ last_block s.log.rows
  pub adds : s.last_data_add_remove ≡ last_data_add_sequence s.log.rows
  pub specials : s.last_user_change_or_segment ≡ last_special_sequence s.log.rows
  pub below : All (λ (r : Row). r.seq ≤ s.log.head.sequence) s.log.rows
  pub tagged : All (λ (r : Row). is_empty r.tag ≡ false) s.log.rows

module _ (tag_size digest_size : ℕ) (hash : ChainBlock → Octets)
    (decode : Octets → Option AnyRecord) (verify : Option (ContentAuth → Octets → Verdict))
    (config : ChainSyncConfig) (s : ChainSync) where
  -- The row of a block that is placed on the head.
  abbrev new_row : ChainBlock → AnyRecord → Row
  unfolding row_of placed
  new_row block r =
      row_of hash decode (placed tag_size digest_size hash decode verify config s block) in_sync r

  add_cursor_lem :
      (r : AnyRecord) (seq : ℕ)
      → add_cursor tag_size digest_size hash decode verify config s (kind_of r) seq
        ≡ (if has_add (changes_of r) then seq else s.last_data_add_remove)
  unfolding kind_of has_add
  add_cursor_lem (user_change_record base access) seq = refl
  add_cursor_lem (data_change_record base changes) seq = elim (Bool-cases (has_add changes)) [
    | inl t ↦ rw (t) refl
    | inr f ↦ rw (f) refl
  ]
  add_cursor_lem (segment_record base segment) seq = refl

  special_cursor_lem :
      (r : AnyRecord) (seq : ℕ)
      → special_cursor tag_size digest_size hash decode verify config s (kind_of r) seq
        ≡ (if is_special (type_of r) then seq else s.last_user_change_or_segment)
  unfolding kind_of is_special
  special_cursor_lem (user_change_record base access) seq = refl
  special_cursor_lem (data_change_record base changes) seq = elim (Bool-cases (has_add changes)) [
    | inl t ↦ rw (t) refl
    | inr f ↦ rw (f) refl
  ]
  special_cursor_lem (segment_record base segment) seq = refl

  -- What the queries find once the row is at the end.
  last_block-new_row :
      (block : ChainBlock) (r : AnyRecord)
      → All (λ (x : Row). x.seq ≤ s.log.head.sequence) s.log.rows
      → s.log.head.sequence < seq_add s.log.head.sequence 1
      → last_block (s.log.rows ++ (new_row block r ∷ [])) ≡ record {
        sequence = seq_add s.log.head.sequence 1;
        hash = hash (placed tag_size digest_size hash decode verify config s block);
      }
  unfolding last_block id_of new_row row_of placed is_in_sync
  last_block-new_row block r below grows = ap id_of (
      newest-last (λ x. is_in_sync x.state) s.log.rows (new_row block r) s.log.head.sequence below
        grows refl)

  adds-new_row :
      (block : ChainBlock) (r : AnyRecord)
      → All (λ (x : Row). x.seq ≤ s.log.head.sequence) s.log.rows
      → s.log.head.sequence < seq_add s.log.head.sequence 1
      → last_data_add_sequence (s.log.rows ++ (new_row block r ∷ [])) ≡ (
          if has_add (changes_of r)
          then seq_add s.log.head.sequence 1
          else last_data_add_sequence s.log.rows)
  unfolding last_data_add_sequence new_row row_of placed is_in_sync
  adds-new_row block r below grows =
      max_seq-last (λ x. is_in_sync x.state && has_add x.objects) s.log.rows (new_row block r)
        s.log.head.sequence below grows

  specials-new_row :
      (block : ChainBlock) (r : AnyRecord)
      → All (λ (x : Row). x.seq ≤ s.log.head.sequence) s.log.rows
      → s.log.head.sequence < seq_add s.log.head.sequence 1
      → last_special_sequence (s.log.rows ++ (new_row block r ∷ [])) ≡ (
          if is_special (type_of r)
          then seq_add s.log.head.sequence 1
          else last_special_sequence s.log.rows)
  unfolding last_special_sequence new_row row_of placed is_in_sync
  specials-new_row block r below grows =
      max_seq-last (λ x. is_in_sync x.state && is_special x.kind) s.log.rows (new_row block r)
        s.log.head.sequence below grows

  -- A block saved under the type that a replay finds.
  Saves-IsValid :
      (block : ChainBlock) (type : RecType) (after : ChainSync)
      → IsValid s
      → is_empty block.auth.tag ≡ false
      → suc s.log.head.sequence < u64_mod
      → (w : Saves tag_size digest_size hash decode verify config s block type after)
      → type ≡ kind_of w.record_in
      → IsValid after
  unfolding placed new_row row_of
  Saves-IsValid block type after v tagged fits w same =
      let r = new_row block w.record_in in
      let grows : s.log.head.sequence < seq_add s.log.head.sequence 1 = ground arith in
      record {
        head =
            w.head
            ∙ sym (ap last_block w.rows ∙ last_block-new_row block w.record_in v.below grows);
        adds =
            w.adds
            ∙ ap
                (λ t.
                  add_cursor tag_size digest_size hash decode verify config s t
                    (seq_add s.log.head.sequence 1))
                same
            ∙ add_cursor_lem w.record_in (seq_add s.log.head.sequence 1)
            ∙ ap
                (λ n. if has_add (changes_of w.record_in) then seq_add s.log.head.sequence 1 else n)
                v.adds
            ∙ sym (ap last_data_add_sequence w.rows ∙ adds-new_row block w.record_in v.below grows);
        specials =
            w.specials
            ∙ ap
                (λ t.
                  special_cursor tag_size digest_size hash decode verify config s t
                    (seq_add s.log.head.sequence 1))
                same
            ∙ special_cursor_lem w.record_in (seq_add s.log.head.sequence 1)
            ∙ ap
                (λ n. if is_special (type_of w.record_in) then seq_add s.log.head.sequence 1 else n)
                v.specials
            ∙ sym (
                ap last_special_sequence w.rows ∙ specials-new_row block w.record_in v.below grows);
        below =
            subst (λ h. All (λ (x : Row). x.seq ≤ h.sequence) after.log.rows) (sym w.head)
              (subst (All (λ (x : Row). x.seq ≤ seq_add s.log.head.sequence 1)) (sym w.rows) (
                All-append (λ (x : Row). x.seq ≤ seq_add s.log.head.sequence 1) s.log.rows (r ∷ [])
                  (All-mono (λ x h. omega (arith, h, grows)) s.log.rows v.below)
                  (omega arith, tt)));
        tagged = subst (All (λ (x : Row). is_empty x.tag ≡ false)) (sym w.rows) (
            All-append (λ (x : Row). is_empty x.tag ≡ false) s.log.rows (r ∷ []) v.tagged
              (tagged, tt));
      }

  -- What a commit leaves is valid when the rules classify as a replay does.
  Commits-IsValid :
      (rules : AnyRecord → Option RuleResult) (block : ChainBlock)
      (out : (Option CommitError × ChainBlock) × ChainSync)
      → ((r : AnyRecord) (result : RuleResult)
          → rules r ≡ some result
          → result.err ≡ none
          → result.type ≡ kind_of r)
      → IsValid s
      → is_empty block.auth.tag ≡ false
      → suc s.log.head.sequence < u64_mod
      → Commits tag_size digest_size hash decode verify config s rules block out
      → IsValid out.1
  Commits-IsValid rules block out kinds v tagged fits (fails e same) =
      subst (λ o. IsValid o.1) (sym same) v
  Commits-IsValid rules block out kinds v tagged fits (commits result after a w same) =
      subst (λ o. IsValid o.1) (sym same)
        (Saves-IsValid block result.type after v tagged fits w (
          kinds a.record_in result a.by_rules a.no_error
          ∙ ap kind_of (some-injective _ _ (sym a.decodes ∙ w.decodes))))

  -- A valid chain stays valid under the commit of a block with a tag, whatever its outcome, while a further sequence
  -- number is left: the head is the newest record and both cursors are what a replay of the stored records derives.
  pub commit_block-IsValid :
      (block : ChainBlock)
      → IsValid s
      → is_empty block.auth.tag ≡ false
      → suc s.log.head.sequence < u64_mod
      → IsValid (commit_block tag_size digest_size hash decode verify config s block).1
  commit_block-IsValid block v tagged fits =
      Commits-IsValid _ block _
        (λ r result e h.
          check_rules-kind_of tag_size digest_size decode verify config s r result v.tagged e h)
        v tagged fits (commit_block-Commits tag_size digest_size hash decode verify config s block)

  -- A valid chain stays valid under the commit of a block with a tag that another server accepted, whatever its outcome,
  -- while a further sequence number is left.
  pub commit_foreign-IsValid :
      (block : ChainBlock)
      → IsValid s
      → is_empty block.auth.tag ≡ false
      → suc s.log.head.sequence < u64_mod
      → IsValid (commit_foreign tag_size digest_size hash decode verify config s block).1
  commit_foreign-IsValid block v tagged fits =
      Commits-IsValid _ block _
        (λ r result e h. classify-kind_of tag_size digest_size decode verify config s r result e) v
        tagged fits (commit_foreign-Commits tag_size digest_size hash decode verify config s block)
