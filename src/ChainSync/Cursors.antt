-- ===== src/ChainSync/Cursors.antt =====
-- The classification of a record by spsync/server/server_lib/chain_sync.cpp and what a replay derives from it.
use spsync.Prelude.{
  ℕ, ◌≡◌, refl, sym, ap, ◌∙◌, Bool, true, false, not, Option, none, some, List, [], ◌∷◌, arith,
  ◌==◌, if◌then◌else◌, length, All, Octets, is_empty, eq_octets_iff,
}
use spsync.Records.{
  AnyRecord, RecordBase, PlainSingleChange, user_change_record, data_change_record, segment_record,
  ContentAuth,
}
use spsync.RecordStorage.{Row, find_last, has_add}
use spsync.RecordStorage.Laws.{newest-All}
use spsync.ChainRules.{
  CommitError, invalid_record, record_out_of_sync, bad_descriptor, RecType, none_of_them,
  data_add_remove, special, Verdict, ChainSyncConfig, ChainSync, RuleResult, of_type, check_change,
  check_next, check_changes, check_rules_data, check_rules_of_segment, check_rules_segment,
  check_rules_user, check_rules, classify, continued, special_result,
}
use mathlib.Core.Option.{some-injective}

-- The type that a replay of the record's row finds.
unfoldable pub kind_of : AnyRecord → RecType
kind_of (user_change_record base access) = special
kind_of (data_change_record base changes) =
    if has_add changes then data_add_remove else none_of_them
kind_of (segment_record base segment) = special

module _ (tag_size digest_size : ℕ) (decode : Octets → Option AnyRecord)
    (verify : Option (ContentAuth → Octets → Verdict)) (config : ChainSyncConfig)
    (s : ChainSync) where
  abbrev judge : RecordBase → RecType → PlainSingleChange → RuleResult
  unfolding check_change
  judge rec type c = check_change tag_size digest_size decode verify config s rec type c

  passed_if :
      (b : Bool) (type : RecType) (bad : CommitError) (y : RuleResult) (t : RecType)
      → (y.err ≡ none → y.type ≡ t)
      → (if b then of_type type (some bad) else y).err ≡ none
      → (if b then of_type type (some bad) else y).type ≡ t
  passed_if true type bad y t g e = cc
  passed_if false type bad y t g e = g e

  result_if :
      (b : Bool) (x y : RuleResult) (t : RecType)
      → (b ≡ true → x.err ≡ none → x.type ≡ t)
      → (b ≡ false → y.err ≡ none → y.type ≡ t)
      → (if b then x else y).err ≡ none
      → (if b then x else y).type ≡ t
  result_if true x y t f g e = f refl e
  result_if false x y t f g e = g refl e

  continued_type :
      (rec : RecordBase) (type : RecType) (previous : Octets) (o : Option Row)
      → ((r : Row) → o ≡ some r → is_empty r.tag ≡ false)
      → (continued tag_size digest_size decode verify config s rec type previous o).err ≡ none
      → (continued tag_size digest_size decode verify config s rec type previous o).type
        ≡ (if is_empty previous then data_add_remove else type)
  unfolding continued
  continued_type rec type previous none tagged e =
      result_if (is_empty previous) _ _ (if is_empty previous then data_add_remove else type)
        (λ t h. rw t refl) (λ f h. cc) e
  continued_type rec type previous (some r) tagged e =
      ground (arith, tagged r refl, eq_octets_iff r.tag previous, e)

  -- A change that is accepted is an add when it names no previous record.
  check_change_type :
      (rec : RecordBase) (type : RecType) (c : PlainSingleChange)
      → All (λ (r : Row). is_empty r.tag ≡ false) s.log.rows
      → (check_change tag_size digest_size decode verify config s rec type c).err ≡ none
      → (check_change tag_size digest_size decode verify config s rec type c).type
        ≡ (if is_empty c.previous_oid_record_tag then data_add_remove else type)
  unfolding check_change find_last
  check_change_type rec type c tagged e =
      passed_if (not (length c.id == 16)) type invalid_record
        (if bad_descriptor tag_size digest_size decode verify config s c.descriptor
          then of_type type (some invalid_record)
          else continued tag_size digest_size decode verify config s rec type
              c.previous_oid_record_tag (find_last c.id s.log.rows))
        (if is_empty c.previous_oid_record_tag then data_add_remove else type)
        (passed_if (bad_descriptor tag_size digest_size decode verify config s c.descriptor) type
          invalid_record
          (continued tag_size digest_size decode verify config s rec type c.previous_oid_record_tag
            (find_last c.id s.log.rows))
          (if is_empty c.previous_oid_record_tag then data_add_remove else type)
          (continued_type rec type c.previous_oid_record_tag (find_last c.id s.log.rows)
            (λ r found. newest-All (λ x. is_empty x.tag ≡ false) _ s.log.rows r tagged found)))
        e

  adds_type : RecType → List PlainSingleChange → RecType
  adds_type type changes = if has_add changes then data_add_remove else type

  adds_type-cons :
      (type : RecType) (c : PlainSingleChange) (changes : List PlainSingleChange)
      → adds_type (if is_empty c.previous_oid_record_tag then data_add_remove else type) changes
        ≡ adds_type type (c ∷ changes)
  unfolding adds_type has_add
  adds_type-cons type c changes = ground arith

  adds_type_nil : (type : RecType) → type ≡ adds_type type []
  unfolding adds_type has_add
  adds_type_nil type = refl

  no_error_before :
      (rec : RecordBase) (err : Option CommitError) (type : RecType) (c : PlainSingleChange)
      → (check_next tag_size digest_size decode verify config s rec err type c).err ≡ none
      → err ≡ none
  unfolding check_next
  no_error_before rec none type c h = refl
  no_error_before rec (some bad) type c h = h

  next_type :
      (rec : RecordBase) (err : Option CommitError) (type : RecType) (c : PlainSingleChange)
      → All (λ (r : Row). is_empty r.tag ≡ false) s.log.rows
      → (check_next tag_size digest_size decode verify config s rec err type c).err ≡ none
      → (check_next tag_size digest_size decode verify config s rec err type c).type
        ≡ (if is_empty c.previous_oid_record_tag then data_add_remove else type)
  unfolding check_next
  next_type rec none type c tagged h = check_change_type rec type c tagged h
  next_type rec (some bad) type c tagged h = cc

  -- An error stays, and without one at the end there is none on the way.
  pub check_changes_no_error :
      (rec : RecordBase) (r : RuleResult) (changes : List PlainSingleChange)
      → (check_changes tag_size digest_size decode verify config s rec r changes).err ≡ none
      → r.err ≡ none
  unfolding check_changes
  check_changes_no_error rec r [] h = h
  check_changes_no_error rec r (c ∷ changes) h = no_error_before rec r.err r.type c (
      check_changes_no_error rec
        (check_next tag_size digest_size decode verify config s rec r.err r.type c) changes h)

  check_changes_type :
      (rec : RecordBase) (r : RuleResult) (changes : List PlainSingleChange)
      → All (λ (x : Row). is_empty x.tag ≡ false) s.log.rows
      → (check_changes tag_size digest_size decode verify config s rec r changes).err ≡ none
      → (check_changes tag_size digest_size decode verify config s rec r changes).type
        ≡ adds_type r.type changes
  unfolding check_changes
  check_changes_type rec r [] tagged h = adds_type_nil r.type
  check_changes_type rec r (c ∷ changes) tagged h =
      let next = check_next tag_size digest_size decode verify config s rec r.err r.type c in
      check_changes_type rec next changes tagged h
      ∙ ap (λ t. adds_type t changes)
          (next_type rec r.err r.type c tagged (check_changes_no_error rec next changes h))
      ∙ adds_type-cons r.type c changes

  segment_type :
      (b : Bool) (o : Option (Option CommitError)) (result : RuleResult)
      → (if b
          then some (of_type special (some record_out_of_sync))
          else special_result tag_size digest_size decode verify config s o)
        ≡ some result
      → result.type ≡ special
  segment_type true o result e = sym (ap (λ (x : RuleResult). x.type) (some-injective _ _ e))
  segment_type false none result e = cc
  segment_type false (some err) result e =
      sym (ap (λ (x : RuleResult). x.type) (some-injective _ _ e))

  -- A record that the rules accept is classified as a replay of its row classifies it.
  pub check_rules-kind_of :
      (r : AnyRecord) (result : RuleResult)
      → All (λ (x : Row). is_empty x.tag ≡ false) s.log.rows
      → check_rules tag_size digest_size decode verify config s r ≡ some result
      → result.err ≡ none
      → result.type ≡ kind_of r
  unfolding check_rules check_rules_user check_rules_data check_rules_of_segment adds_type kind_of
  check_rules-kind_of (user_change_record base access) result tagged e h =
      sym (ap (λ (x : RuleResult). x.type) (some-injective _ _ e))
  check_rules-kind_of (data_change_record base changes) result tagged e h =
      let e' = some-injective _ _ e in
      sym (ap (λ (x : RuleResult). x.type) e')
      ∙ check_changes_type base (of_type none_of_them none) changes tagged
          (ap (λ (x : RuleResult). x.err) e' ∙ h)
  check_rules-kind_of (segment_record base segment) result tagged e h =
      segment_type _ (check_rules_segment tag_size digest_size decode verify config s base segment)
        result e

  pub classify-kind_of :
      (r : AnyRecord) (result : RuleResult)
      → classify tag_size digest_size decode verify config s r ≡ some result
      → result.type ≡ kind_of r
  unfolding classify kind_of
  classify-kind_of (user_change_record base access) result e =
      sym (ap (λ (x : RuleResult). x.type) (some-injective _ _ e))
  classify-kind_of (data_change_record base changes) result e =
      sym (ap (λ (x : RuleResult). x.type) (some-injective _ _ e))
  classify-kind_of (segment_record base segment) result e =
      sym (ap (λ (x : RuleResult). x.type) (some-injective _ _ e))
