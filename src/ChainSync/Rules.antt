-- ===== src/ChainSync/Rules.antt =====
-- What the rules of spsync/server/server_lib/chain_sync.cpp ask of the records that they accept.
use spsync.Prelude.{
  ℕ, ◌<◌, ◌≤◌, ◌↔◌, sym, u64_mod, All, Any, All-mono, Any-mono, ==_iff, eq_octets_iff, ◌≡◌, refl,
  ap, ◌∙◌, ◌⊎◌, inl, inr, Bool, true, false, not, ◌&&◌, Option, none, some, List, [], ◌∷◌, arith,
  ◌==◌, if◌then◌else◌, Octets, eq_octets,
}
use mathlib.Core.Option.{some-injective}
use spsync.Sequence.{seq_add, seq_sub}
use spsync.Records.{
  AnyRecord, RecordBase, PlainSingleChange, PlainSegment, user_change_record, data_change_record,
  segment_record, base_of, ContentAuth, eq_block_id, eq_tags, is_segment,
}
use spsync.RecordStorage.{Row, is_in_sync, in_range, find_last, tags_in_range, find_last_segment}
use spsync.RecordStorage.Select.{newest-selected, newest-none, tags_in_range-Tags}
use spsync.SyncMode.{
  SyncMode, allow_all, require_special_seen, require_data_add_remove_seen, require_all_seen,
  is_replicated,
}
use spsync.Users.{Users, is_delta}
use spsync.ChainRules.{
  CommitError, invalid_record, record_out_of_sync, RecType, none_of_them, special, Verdict,
  ChainSyncConfig, ChainSync, RuleResult, of_type, requires_all_seen, requires_special_seen,
  check_head_seen, check_rules_add, check_rules_existing, continued, check_change, check_next,
  check_changes, check_rules_data, check_rules_user, check_rules_of_segment, check_rules_segment,
  segment_error, continues, backbone, stated_end, special_result, check_rules,
}
use spsync.ChainSync.Cursors.{check_changes_no_error}

-- A test that adds an error and what is accepted when there is none.
refused_if :
    (b : Bool) (bad : CommitError) (x : Option CommitError)
    → (if b then some bad else x) ≡ none
    → (b ≡ false) × (x ≡ none)
refused_if true bad x e = cc
refused_if false bad x e = (refl, e)

none_is_not : {A : Type 0} {bad : CommitError} → some bad ≡ none → A
none_is_not e = cc

required : (b : Bool) (bad : CommitError) → (if b then none else some bad) ≡ none → b ≡ true
required true bad e = refl
required false bad e = cc

seq_add_wide : (e a b : ℕ) → e ≡ seq_add a b → e < u64_mod
unfolding seq_add
seq_add_wide e a b h = omega (arith, h)

module _ (tag_size digest_size : ℕ) (decode : Octets → Option AnyRecord)
    (verify : Option (ContentAuth → Octets → Verdict)) (config : ChainSyncConfig)
    (s : ChainSync) where
  -- The record saw the head.
  pub SeesHead : RecordBase → Type 0
  SeesHead rec = eq_block_id rec.last_seen_block s.log.head ≡ true

  head_seen :
      (rec : RecordBase)
      → check_head_seen tag_size digest_size decode verify config s rec ≡ none
      → SeesHead rec
  unfolding check_head_seen SeesHead
  head_seen rec e = required _ record_out_of_sync e

  continued_head_seen :
      (rec : RecordBase) (type : RecType) (previous : Octets) (o : Option Row)
      → requires_all_seen config.mode ≡ true
      → (continued tag_size digest_size decode verify config s rec type previous o).err ≡ none
      → SeesHead rec
  unfolding continued check_rules_add check_rules_existing
  continued_head_seen rec type previous none strict e = head_seen rec (ground (arith, strict, e))
  continued_head_seen rec type previous (some r) strict e =
      head_seen rec (ground (arith, strict, e))

  change_head_seen :
      (rec : RecordBase) (type : RecType) (c : PlainSingleChange)
      → requires_all_seen config.mode ≡ true
      → (check_change tag_size digest_size decode verify config s rec type c).err ≡ none
      → SeesHead rec
  unfolding check_change
  change_head_seen rec type c strict e =
      continued_head_seen rec type c.previous_oid_record_tag (find_last c.id s.log.rows) strict
        (ground (arith, e))

  changes_head_seen :
      (rec : RecordBase) (c : PlainSingleChange) (changes : List PlainSingleChange)
      → requires_all_seen config.mode ≡ true
      → (check_rules_data tag_size digest_size decode verify config s rec (c ∷ changes)).err ≡ none
      → SeesHead rec
  unfolding check_rules_data check_changes check_next
  changes_head_seen rec c changes strict e = change_head_seen rec none_of_them c strict (
      check_changes_no_error tag_size digest_size decode verify config s rec
        (check_change tag_size digest_size decode verify config s rec none_of_them c) changes e)

  user_head_seen :
      (rec : RecordBase) (access : Users)
      → requires_all_seen config.mode ≡ true
      → (check_rules_user tag_size digest_size decode verify config s rec access).err ≡ none
      → SeesHead rec
  unfolding check_rules_user
  user_head_seen rec access strict e =
      let (replicated, e1) =
        refused_if
          (is_replicated config.replication
            && (not (is_delta access.mode) && not (s.log.head.sequence == 0)))
          invalid_record _ e in
      head_seen rec (ground (arith, strict, e1))

  requires_special : (m : SyncMode) → requires_all_seen m ≡ true → requires_special_seen m ≡ true
  unfolding requires_all_seen requires_special_seen
  requires_special allow_all h = h
  requires_special require_special_seen h = refl
  requires_special require_data_add_remove_seen h = refl
  requires_special require_all_seen h = refl

  -- Where the segment continues: at the start of the chain, or at the newest committed segment.
  pub data Continues (segment : PlainSegment) : Type 0 where
    from_start :
        All (λ r. is_in_sync r.state ≡ true → is_segment r.kind ≡ false) s.log.rows
        → segment.segment_start ≡ 1
        → segment.previous_segment_tag ≡ []
        → Continues segment
    from_segment :
        (last : Row) (base : RecordBase) (before : PlainSegment)
        → Any (λ r. r ≡ last) s.log.rows
        → is_in_sync last.state ≡ true
        → is_segment last.kind ≡ true
        → All
            (λ r. is_in_sync r.state ≡ true → is_segment r.kind ≡ true → r.seq ≤ last.seq)
            s.log.rows
        → decode last.block.record_bytes ≡ some (segment_record base before)
        → segment.segment_start ≡ before.segment_end
        → segment.previous_segment_tag ≡ last.tag
        → Continues segment

  -- The row of a record that is in sync, of a sequence of the segment: its end is not in it.
  abbrev pub IsCovered : PlainSegment → Row → Type 0
  IsCovered segment r =
      (is_in_sync r.state ≡ true) × (segment.segment_start ≤ r.seq) × (r.seq < segment.segment_end)

  -- What is true of a segment that the rules accept.
  pub record CoversTruthfully (rec : RecordBase) (segment : PlainSegment) : Type 0 where
    pub at_record : segment.segment_end ≡ seq_add rec.last_seen_block.sequence 1
    pub continues_chain : Continues segment
    pub lists_all :
        0 < segment.segment_end
        → All (λ r. IsCovered segment r → Any (λ t. t ≡ r.tag) segment.tags) s.log.rows
    pub lists_only :
        0 < segment.segment_end
        → All (λ t. Any (λ r. IsCovered segment r × (t ≡ r.tag)) s.log.rows) segment.tags

  segment_error_lem :
      (segment : PlainSegment) (start : ℕ) (tag : Octets)
      → segment_error tag_size digest_size decode verify config s segment (start, tag) ≡ none
      → (segment.segment_start ≡ start)
        × (eq_octets segment.previous_segment_tag tag ≡ true)
        × (eq_tags segment.tags
              (tags_in_range segment.segment_start (seq_sub segment.segment_end 1) s.log.rows)
            ≡ true)
  unfolding segment_error
  segment_error_lem segment start tag e =
      let (linked, e1) =
        refused_if
          (not (segment.segment_start == start && eq_octets segment.previous_segment_tag tag))
          record_out_of_sync _ e in
      let tags = required _ invalid_record e1 in ground (arith, linked, tags)

  continues_lem :
      (segment : PlainSegment) (o : Option (ℕ × Octets))
      → continues tag_size digest_size decode verify config s segment o ≡ some none
      → (start : ℕ) × (tag : Octets) × (o ≡ some (start, tag))
        × (segment_error tag_size digest_size decode verify config s segment (start, tag) ≡ none)
  continues_lem segment none e = cc
  continues_lem segment (some (start, tag)) e = (start, tag, refl, some-injective _ _ e)

  at_end :
      (b : Bool) (x : Option (Option CommitError))
      → (if b then x else some (some invalid_record)) ≡ some none
      → (b ≡ true) × (x ≡ some none)
  at_end true x e = (refl, e)
  at_end false x e = none_is_not (some-injective _ _ e)

  no_segment :
      find_last_segment s.log.rows ≡ none
      → All (λ r. is_in_sync r.state ≡ true → is_segment r.kind ≡ false) s.log.rows
  unfolding find_last_segment
  no_segment e = All-mono (λ r h k. ground (arith, h, k)) s.log.rows (newest-none _ s.log.rows e)

  ends_at :
      (tag : Octets) (o : Option AnyRecord) (start : ℕ) (named : Octets)
      → stated_end tag_size digest_size decode verify config s tag o ≡ some (start, named)
      → (base : RecordBase) × (before : PlainSegment) × (o ≡ some (segment_record base before))
        × (before.segment_end ≡ start)
        × (tag ≡ named)
  ends_at tag none start named e = cc
  ends_at tag (some (user_change_record base access)) start named e = cc
  ends_at tag (some (data_change_record base changes)) start named e = cc
  ends_at tag (some (segment_record base before)) start named e =
      let same = some-injective _ _ e in
      (base, before, refl, ap (λ t. t.0) same, ap (λ t. t.1) same)

  continues_chain_lem :
      (segment : PlainSegment) (o : Option Row) (start : ℕ) (tag : Octets)
      → find_last_segment s.log.rows ≡ o
      → backbone tag_size digest_size decode verify config s o ≡ some (start, tag)
      → segment.segment_start ≡ start
      → segment.previous_segment_tag ≡ tag
      → Continues segment
  unfolding backbone find_last_segment
  continues_chain_lem segment none start tag f e a b =
      let same = some-injective _ _ e in
      from_start (no_segment f) (a ∙ sym (ap (λ t. t.0) same)) (b ∙ sym (ap (λ t. t.1) same))
  continues_chain_lem segment (some r) start tag f e a b =
      let (i, t, top) = newest-selected _ s.log.rows r f in
      let (base, before, d, ends, named) =
        ends_at r.tag (decode r.block.record_bytes) start tag e in
      from_segment r base before i (ground (arith, t)) (ground (arith, t))
        (All-mono (λ x h k l. h (rw (k, l) refl)) s.log.rows top) d (a ∙ sym ends) (b ∙ sym named)

  IsCovered-iff :
      (segment : PlainSegment) (r : Row)
      → 0 < segment.segment_end
      → segment.segment_end < u64_mod
      → (in_range segment.segment_start (seq_sub segment.segment_end 1) r ≡ true)
        ↔ IsCovered segment r
  unfolding in_range seq_sub
  IsCovered-iff segment r p w = ground arith

  segment_covers :
      (rec : RecordBase) (segment : PlainSegment)
      → check_rules_segment tag_size digest_size decode verify config s rec segment ≡ some none
      → CoversTruthfully rec segment
  unfolding check_rules_segment
  segment_covers rec segment e =
      let (ends, e1) = at_end (segment.segment_end == seq_add rec.last_seen_block.sequence 1) _ e in
      let (start, tag, found, e2) = continues_lem segment _ e1 in
      let (starts, linked, tags) = segment_error_lem segment start tag e2 in
      let at_end_of =
        (==_iff segment.segment_end (seq_add rec.last_seen_block.sequence 1)).0 ends in
      let w : segment.segment_end < u64_mod =
        seq_add_wide segment.segment_end rec.last_seen_block.sequence 1 at_end_of in
      let listed = tags_in_range-Tags _ _ s.log.rows segment.tags tags in
      record {
        at_record = at_end_of;
        continues_chain =
            continues_chain_lem segment (find_last_segment s.log.rows) start tag refl found starts
              ((eq_octets_iff segment.previous_segment_tag tag).0 linked);
        lists_all = λ p.
            All-mono (λ r h c. h ((IsCovered-iff segment r p w).1 c)) s.log.rows listed.complete;
        lists_only = λ p.
            All-mono
              (λ t h. Any-mono (λ r q. ((IsCovered-iff segment r p w).0 q.0, q.1)) s.log.rows h)
              segment.tags listed.sound;
      }

  segment_rule :
      (b : Bool) (rec : RecordBase) (o : Option (Option CommitError)) (result : RuleResult)
      → (if b
          then some (of_type special (some record_out_of_sync))
          else special_result tag_size digest_size decode verify config s o)
        ≡ some result
      → result.err ≡ none
      → (b ≡ false) × (o ≡ some none)
  segment_rule true rec o result e h =
      none_is_not (ap (λ (r : RuleResult). r.err) (some-injective _ _ e) ∙ h)
  segment_rule false rec none result e h = cc
  segment_rule false rec (some err) result e h =
      (refl, ap some (ap (λ (r : RuleResult). r.err) (some-injective _ _ e) ∙ h))

  -- Under require_all_seen every record that the rules accept saw the head, but for a data change record without a
  -- change.
  pub check_rules-head_seen :
      (r : AnyRecord) (result : RuleResult)
      → requires_all_seen config.mode ≡ true
      → check_rules tag_size digest_size decode verify config s r ≡ some result
      → result.err ≡ none
      → (eq_block_id (base_of r).last_seen_block s.log.head ≡ true)
        ⊎ (r ≡ data_change_record (base_of r) [])
  unfolding check_rules SeesHead check_rules_of_segment
  check_rules-head_seen (user_change_record base access) result strict e h = inl (
      user_head_seen base access strict (ap (λ (x : RuleResult). x.err) (some-injective _ _ e) ∙ h))
  check_rules-head_seen (data_change_record base []) result strict e h = inr refl
  check_rules-head_seen (data_change_record base (c ∷ changes)) result strict e h = inl (
      changes_head_seen base c changes strict
        (ap (λ (x : RuleResult). x.err) (some-injective _ _ e) ∙ h))
  check_rules-head_seen (segment_record base segment) result strict e h =
      let (seen, covers) =
        segment_rule _ base
          (check_rules_segment tag_size digest_size decode verify config s base segment) result e
          h in
      inl (ground (arith, seen, requires_special config.mode strict))

  -- A segment record that the rules accept ends one behind the block that it saw last; it starts at 1 and names no
  -- segment when none is committed, else it starts where the newest committed segment ends and names it by its tag; and,
  -- unless that end has wrapped to 0, it lists the tag of every committed record from its start to before its
  -- end, and only such tags.
  pub check_rules-CoversTruthfully :
      (rec : RecordBase) (segment : PlainSegment) (result : RuleResult)
      → check_rules tag_size digest_size decode verify config s (segment_record rec segment)
        ≡ some result
      → result.err ≡ none
      → CoversTruthfully rec segment
  unfolding check_rules check_rules_of_segment
  check_rules-CoversTruthfully rec segment result e h =
      let (seen, covers) =
        segment_rule _ rec
          (check_rules_segment tag_size digest_size decode verify config s rec segment) result e
          h in
      segment_covers rec segment covers
