-- ===== src/DataStore/Keep.antt =====
-- The operations of spsync/core/data/record_data_store.cpp on a chunk that is held or dropped keep the store consistent.
use spsync.Prelude.{
  ℕ, ◌+◌, ◌≡◌, refl, sym, ◌∙◌, subst, inl, inr, true, false, not, ◌&&◌, some, arith, ltb, ◌==◌,
  Bool-cases, ==_iff, All, Octets,
}
use spsync.KeyMap.Laws.{eq_octets_refl}
use spsync.Descriptor.{chunk_count}
use spsync.HaveBitmap.{HaveBitmap, test, set, clear, complete, of_octets}
use spsync.HaveBitmap.Bits.{bit_at, IsOctet}
use spsync.HaveBitmap.Laws.{test-bit_at, of_octets-IsValid, test-of_octets, of_octets_size}
use spsync.HaveBitmap.Changes.{
  set-IsValid, test-set, chunk_count-set, clear-IsValid, test-clear, chunk_count-clear,
}
use spsync.DataTable.{
  RecordDataState, in_sync, invalid, download_pending, DataRow, find_id, data_id_of, set_have,
}
use spsync.DataTable.Laws.{find_id-id, All-find_id}
use spsync.ChunkFiles.{ChunkFiles, write, remove_chunk}
use spsync.ChunkFiles
use spsync.DataStore.{DataStore, is_upload_pending, mark_held, drop_chunk, drop_chunks}
use spsync.DataStore.Consistent.{
  IsAuthentic, Held, IsSound, IsConsistent, ElseSame, changed-IsConsistent, set_state-IsConsistent,
}

module _ (tag_size digest_size : ℕ) (hash : Octets → Octets) where
  abbrev pub Consistent : DataStore → Type 0
  Consistent = IsConsistent tag_size digest_size hash

  abbrev pub HeldIn : ChunkFiles → Octets → ℕ → Type 0
  HeldIn = Held tag_size digest_size hash

  abbrev pub Sound : ChunkFiles → DataRow → Type 0
  Sound = IsSound tag_size digest_size hash

  pub drops-IsConsistent :
      (s : DataStore) (drops : ℕ) → Consistent s → Consistent (record s { drops = drops })
  drops-IsConsistent s drops v = record { distinct = v.distinct; keys = v.keys; sound = v.sound }

  -- A new bitmap of one data, with its files.
  pub set_have-IsConsistent :
      (s : DataStore) (id : Octets) (r : DataRow) (have : HaveBitmap) (files' : ChunkFiles)
      (drops : ℕ)
      → Consistent s
      → find_id id s.table.rows ≡ some r
      → ElseSame tag_size digest_size hash id s.files files'
      → All IsOctet have.bits
      → ((n : ℕ)
          → (ltb n (chunk_count tag_size r.descriptor) && bit_at have.bits n) ≡ true
          → HeldIn files' id n)
      → Consistent (record {
        table = set_have tag_size r.local_id have s.table;
        files = files';
        drops = drops;
      })
  unfolding set_have
  set_have-IsConsistent s id r have files' drops v e same octets held =
      changed-IsConsistent tag_size digest_size hash s id r
        (λ t. record t { have = of_octets (chunk_count tag_size t.descriptor) have.bits }) files'
        drops v e (λ t. (refl, refl)) same
        (λ h. record {
          counts = h.counts;
          sized = of_octets_size (chunk_count tag_size r.descriptor) have.bits;
          valid = of_octets-IsValid (chunk_count tag_size r.descriptor) have.bits h.counts octets;
          named = h.named;
          held = λ n t.
              subst (λ i. HeldIn files' i n) (sym (find_id-id id s.table.rows r e))
                (held n (
                  sym
                    (test-of_octets (chunk_count tag_size r.descriptor) have.bits h.counts octets n)
                  ∙ t));
        })

  module _ (s : DataStore) (id : Octets) (r : DataRow) (v : Consistent s)
      (e : find_id id s.table.rows ≡ some r) where
    pub found-IsSound : Sound s.files r
    found-IsSound = All-find_id (Sound s.files) id s.table.rows r v.sound e

    -- The bits of a bitmap of as many chunks are its chunks.
    test_of_bit :
        (have : HaveBitmap) (n : ℕ)
        → have.chunk_count ≡ r.have.chunk_count
        → (ltb n (chunk_count tag_size r.descriptor) && bit_at have.bits n) ≡ true
        → test have n ≡ true
    test_of_bit have n c t = ground (arith, test-bit_at have n, found-IsSound.sized)

    -- What is held before, under the id that was looked for.
    pub found-Held : (n : ℕ) → test r.have n ≡ true → HeldIn s.files id n
    found-Held n t =
        subst (λ i. HeldIn s.files i n) (find_id-id id s.table.rows r e) (found-IsSound.held n t)

    pub mark_held-IsConsistent :
        (n : ℕ) (c : Octets)
        → IsAuthentic tag_size digest_size hash id n c
        → Consistent (mark_held tag_size r n (record s { files = write s.files id n c }))
    unfolding mark_held write
    mark_held-IsConsistent n c real =
        let have = set n true r.have in
        let w = found-IsSound in
        let kept : Consistent (record s {
          files = write s.files id n c;
          table = set_have tag_size r.local_id have s.table;
        }) =
          set_have-IsConsistent s id r have (write s.files id n c) s.drops v e
            (λ j m off. rw off refl) (set-IsValid r.have n true w.valid).octets
            (λ m t. held m (test_of_bit have m (chunk_count-set r.have n true) t)) in
        elim (Bool-cases (complete have && not (is_upload_pending r.state))) [
          | inl whole ↦
              rw whole (set_state-IsConsistent tag_size digest_size hash _ r.local_id in_sync kept)
          | inr part ↦ rw part kept
        ]
      where
        held : (m : ℕ) → test (set n true r.have) m ≡ true → HeldIn (write s.files id n c) id m
        held m t = elim (Bool-cases (n == m)) [
          | inl at ↦ (
            c,
            (
              rw (eq_octets_refl id, at) refl,
              subst (λ k. IsAuthentic tag_size digest_size hash id k c) ((==_iff n m).0 at) real,
            ),
          )
          | inr off ↦
              let old : test r.have m ≡ true =
                ground (arith, test-set r.have n true found-IsSound.valid m) in
              let (c', (at, real')) = found-Held m old in
              (c', (rw (eq_octets_refl id, off) at, real'))
        ]

    pub drop_chunk-IsConsistent :
        (n : ℕ) → data_id_of r ≡ id → Consistent (drop_chunk tag_size r n s)
    unfolding drop_chunk remove_chunk
    drop_chunk-IsConsistent n same = elim (Bool-cases (is_upload_pending r.state)) [
      | inl up ↦ rw up (
          drops-IsConsistent _ (s.drops + 1)
            (set_state-IsConsistent tag_size digest_size hash s r.local_id invalid v))
      | inr down ↦
          rw (down, same)
            (set_state-IsConsistent tag_size digest_size hash _ r.local_id download_pending (
              set_have-IsConsistent s id r (set n false r.have) (remove_chunk s.files id n)
                (s.drops + 1) v e (λ j m off. rw off refl)
                (set-IsValid r.have n false found-IsSound.valid).octets
                (λ m t.
                  left m (test_of_bit (set n false r.have) m (chunk_count-set r.have n false) t))))
    ]
      where
        left :
            (m : ℕ) → test (set n false r.have) m ≡ true → HeldIn (remove_chunk s.files id n) id m
        left m t =
            let old : test r.have m ≡ true =
              ground (arith, test-set r.have n false found-IsSound.valid m) in
            let off : (n == m) ≡ false =
              ground (arith, test-set r.have n false found-IsSound.valid m, test-bit_at r.have m) in
            let (c, (at, real)) = found-Held m old in (c, (rw (eq_octets_refl id, off) at, real))

    pub drop_chunks-IsConsistent :
        (state : RecordDataState) → data_id_of r ≡ id → Consistent (drop_chunks tag_size r state s)
    unfolding drop_chunks ChunkFiles.remove
    drop_chunks-IsConsistent state same = rw same (
        set_state-IsConsistent tag_size digest_size hash _ r.local_id state (
          set_have-IsConsistent s id r (clear r.have) (ChunkFiles.remove s.files id) (s.drops + 1) v
            e (λ j m off. rw off refl) (clear-IsValid r.have found-IsSound.valid).octets
            (λ m t.
              cc (test_of_bit (clear r.have) m (chunk_count-clear r.have) t, test-clear r.have m))))
