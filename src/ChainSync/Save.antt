-- ===== src/ChainSync/Save.antt =====
-- What `set_and_save_block` of spsync/server/server_lib/chain_sync.cpp leaves.
use spsync.Prelude.{
  ℕ, ◌≡◌, refl, sym, ◌∙◌, subst, Bool, true, false, ◌&&◌, Option, none, some, List, [], ◌∷◌, ◌++◌,
  arith, ◌==◌, if◌then◌else◌, Octets, eq_octets,
}
use mathlib.Core.Option.{some-injective}
use spsync.Sequence.{seq_add}
use spsync.Records.{AnyRecord, ContentAuth, ChainBlock}
use spsync.RecordStorage.{Row, in_sync, row_of, inserted, create}
use spsync.ChainLog.{append, headed}
use spsync.ChainRules.{RecType, Verdict, ChainSyncConfig, ChainSync}
use spsync.ChainSync.{add_cursor, special_cursor, placed, saved, set_and_save_block}
use spsync.KeyMap.Laws.{eq_octets_refl}

module _ (tag_size digest_size : ℕ) (hash : ChainBlock → Octets)
    (decode : Octets → Option AnyRecord) (verify : Option (ContentAuth → Octets → Verdict))
    (config : ChainSyncConfig) (s : ChainSync) where
  -- The state when a block is appended: one more row at the end, the head at it, and the cursors of its type.
  pub record Saves (block : ChainBlock) (type : RecType) (after : ChainSync) : Type 0 where
    pub record_in : AnyRecord
    pub decodes : decode block.record_bytes ≡ some record_in
    pub rows :
        after.log.rows
        ≡ s.log.rows
          ++ (row_of hash decode
                (placed tag_size digest_size hash decode verify config s block)
                in_sync
                record_in
              ∷ [])
    pub head : after.log.head ≡ record {
      sequence = seq_add s.log.head.sequence 1;
      hash = hash (placed tag_size digest_size hash decode verify config s block);
    }
    pub adds :
        after.last_data_add_remove
        ≡ add_cursor tag_size digest_size hash decode verify config s type
            (seq_add s.log.head.sequence 1)
    pub specials :
        after.last_user_change_or_segment
        ≡ special_cursor tag_size digest_size hash decode verify config s type
            (seq_add s.log.head.sequence 1)

  on_head :
      (seq_add s.log.head.sequence 1 == seq_add s.log.head.sequence 1
        && eq_octets s.log.head.hash s.log.head.hash)
      ≡ true
  on_head = ground (arith, eq_octets_refl s.log.head.hash)

  -- The outcome of `create` decides; the check of the head always holds of a block that is placed on it.
  save_created :
      (block : ChainBlock) (type : RecType) (created : Option (List Row))
      → create hash decode
          (placed tag_size digest_size hash decode verify config s block)
          in_sync
          s.log.rows
        ≡ created
      → set_and_save_block tag_size digest_size hash decode verify config s block type
        ≡ saved tag_size digest_size hash decode verify config s type
            (seq_add s.log.head.sequence 1)
            (headed hash decode
              (placed tag_size digest_size hash decode verify config s block)
              created)
  unfolding set_and_save_block append
  save_created block type none e = rw (on_head, e) refl
  save_created block type (some rows) e = rw (on_head, e) refl

guarded_lem :
    (b : Bool) (rows after : List Row) → (if b then none else some rows) ≡ some after → after ≡ rows
guarded_lem true rows after e = cc
guarded_lem false rows after e = sym (some-injective _ _ e)

module _ (hash : ChainBlock → Octets) (decode : Octets → Option AnyRecord) where
  -- A row that is created stands last.
  inserted_lem :
      (block : ChainBlock) (rows after : List Row) (o : Option AnyRecord)
      → inserted hash decode block in_sync rows o ≡ some after
      → (r : AnyRecord) × (o ≡ some r) × (after ≡ rows ++ (row_of hash decode block in_sync r ∷ []))
  unfolding inserted
  inserted_lem block rows after none e = cc
  inserted_lem block rows after (some r) e =
      (r, refl, guarded_lem _ (rows ++ (row_of hash decode block in_sync r ∷ [])) after e)

  pub create_lem :
      (block : ChainBlock) (rows after : List Row)
      → create hash decode block in_sync rows ≡ some after
      → (r : AnyRecord) × (decode block.record_bytes ≡ some r)
        × (after ≡ rows ++ (row_of hash decode block in_sync r ∷ []))
  unfolding create
  create_lem block rows after e = inserted_lem block rows after (decode block.record_bytes) e

module _ (tag_size digest_size : ℕ) (hash : ChainBlock → Octets)
    (decode : Octets → Option AnyRecord) (verify : Option (ContentAuth → Octets → Verdict))
    (config : ChainSyncConfig) (s : ChainSync) where
  saved_lem :
      (block : ChainBlock) (type : RecType) (after : ChainSync) (created : Option (List Row))
      → create hash decode
          (placed tag_size digest_size hash decode verify config s block)
          in_sync
          s.log.rows
        ≡ created
      → saved tag_size digest_size hash decode verify config s type
          (seq_add s.log.head.sequence 1)
          (headed hash decode
            (placed tag_size digest_size hash decode verify config s block)
            created)
        ≡ some after
      → Saves tag_size digest_size hash decode verify config s block type after
  unfolding placed
  saved_lem block type after none made e = cc
  saved_lem block type after (some rows) made e =
      let (r, d, at_end) =
        create_lem hash decode (placed tag_size digest_size hash decode verify config s block)
          s.log.rows rows made in
      subst (Saves tag_size digest_size hash decode verify config s block type)
        (some-injective _ _ e)
        (record {
          record_in = r;
          decodes = d;
          rows = at_end;
          head = refl;
          adds = refl;
          specials = refl;
        })

  pub save-Saves :
      (block : ChainBlock) (type : RecType) (after : ChainSync)
      → set_and_save_block tag_size digest_size hash decode verify config s block type ≡ some after
      → Saves tag_size digest_size hash decode verify config s block type after
  save-Saves block type after e =
      saved_lem block type after _ refl
        (sym (save_created tag_size digest_size hash decode verify config s block type _ refl) ∙ e)
