-- ===== src/DataStore/Operations.antt =====
-- Each operation of spsync/core/data/record_data_store.cpp keeps the store consistent.
use spsync.Prelude.{
  ℕ, ◌≡◌, inl, inr, Bool, true, false, ◌&&◌, some, if◌then◌else◌, Bool-cases, Option-cases, Octets,
}
use spsync.Descriptor.{chunk_holds_range}
use spsync.HaveBitmap.{test}
use spsync.DataTable.{RecordDataState, pruned, DataRow, find_id}
use spsync.DataTable.Laws.{find_id-id}
use spsync.ChunkFiles.{read, read_piece}
use spsync.DataStore.{
  DataStore, is_upload_pending, set_data_state, evict, prune, adopt_chunk, add_chunk, drop_chunk,
  drop_if_lost, read_chunk, read_chunk_piece,
}
use spsync.DataStore.Consistent.{IsAuthentic, set_state-IsConsistent}
use spsync.DataStore.Keep.{
  Consistent, mark_held-IsConsistent, drop_chunk-IsConsistent, drop_chunks-IsConsistent,
}

module _ (tag_size digest_size : ℕ) (hash : Octets → Octets) where
  abbrev Ok : DataStore → Type 0
  Ok = Consistent tag_size digest_size hash

  pub set_data_state-IsConsistent :
      (s : DataStore) (id : Octets) (state : RecordDataState)
      → Ok s
      → Ok (set_data_state id state s)
  unfolding set_data_state
  set_data_state-IsConsistent s id state v = elim (Option-cases (find_id id s.table.rows)) [
    | inl gone ↦ rw (gone, set_data_state) v
    | inr (r, e) ↦
        rw (e, set_data_state)
          (set_state-IsConsistent tag_size digest_size hash s r.local_id state v)
  ]

  pub evict-IsConsistent : (s : DataStore) (id : Octets) → Ok s → Ok (evict tag_size id s).0
  unfolding evict
  evict-IsConsistent s id v = elim (Option-cases (find_id id s.table.rows)) [
    | inl gone ↦ rw (gone, evict) v
    | inr (r, e) ↦ elim (Bool-cases (is_upload_pending r.state)) [
      | inl up ↦ rw (e, up, evict) v
      | inr down ↦
          rw (e, down, evict)
            (drop_chunks-IsConsistent tag_size digest_size hash s id r v e _
              (find_id-id id s.table.rows r e))
    ]
  ]

  pub prune-IsConsistent : (s : DataStore) (id : Octets) → Ok s → Ok (prune tag_size id s).0
  unfolding prune
  prune-IsConsistent s id v = elim (Option-cases (find_id id s.table.rows)) [
    | inl gone ↦ rw (gone, prune) v
    | inr (r, e) ↦
        rw (e, prune)
          (drop_chunks-IsConsistent tag_size digest_size hash s id r v e pruned
            (find_id-id id s.table.rows r e))
  ]

  drop_if_lost-IsConsistent :
      (s : DataStore) (id : Octets) (r : DataRow) (n : ℕ)
      → Ok s
      → find_id id s.table.rows ≡ some r
      → Ok (drop_if_lost tag_size r n s)
  unfolding drop_if_lost
  drop_if_lost-IsConsistent s id r n v e = go _
    where
      go : (lost : Bool) → Ok (if lost then drop_chunk tag_size r n s else s)
      go true =
          drop_chunk-IsConsistent tag_size digest_size hash s id r v e n
            (find_id-id id s.table.rows r e)
      go false = v

  pub read_chunk-IsConsistent :
      (s : DataStore) (id : Octets) (n : ℕ) (readable : Bool)
      → Ok s
      → Ok (read_chunk tag_size id n readable s).0
  unfolding read_chunk
  read_chunk-IsConsistent s id n readable v = elim (Option-cases (find_id id s.table.rows)) [
    | inl gone ↦ rw (gone, read_chunk) v
    | inr (r, e) ↦ elim (Bool-cases (test r.have n)) [
      | inr off ↦ rw (e, off, read_chunk) v
      | inl held ↦ elim (Option-cases (read s.files id readable n)) [
        | inl failed ↦ rw (e, held, failed, read_chunk) (drop_if_lost-IsConsistent s id r n v e)
        | inr (c, at) ↦ rw (e, held, at, read_chunk) v
      ]
    ]
  ]

  pub read_chunk_piece-IsConsistent :
      (s : DataStore) (id : Octets) (n offset count : ℕ) (readable : Bool)
      → Ok s
      → Ok (read_chunk_piece tag_size id n offset count readable s).0
  unfolding read_chunk_piece
  read_chunk_piece-IsConsistent s id n offset count readable v =
      elim (Option-cases (find_id id s.table.rows)) [
        | inl gone ↦ rw (gone, read_chunk_piece) v
        | inr (r, e) ↦
            elim (Bool-cases
              (test r.have n && chunk_holds_range tag_size r.descriptor n offset count)) [
                | inr off ↦ rw (e, off, read_chunk_piece) v
                | inl held ↦ elim (Option-cases (read_piece s.files id readable n offset count)) [
                  | inl failed ↦
                      rw (e, held, failed, read_chunk_piece)
                        (drop_if_lost-IsConsistent s id r n v e)
                  | inr (c, at) ↦ rw (e, held, at, read_chunk_piece) v
                ]
              ]
      ]

  pub add_chunk-IsConsistent :
      (s : DataStore) (id : Octets) (r : DataRow) (n : ℕ) (c : Octets)
      → Ok s
      → find_id id s.table.rows ≡ some r
      → IsAuthentic tag_size digest_size hash id n c
      → Ok (add_chunk tag_size r n c s)
  unfolding add_chunk
  add_chunk-IsConsistent s id r n c v e real = elim (Bool-cases (test r.have n)) [
    | inl held ↦ rw (held, add_chunk) v
    | inr off ↦
        rw (off, find_id-id id s.table.rows r e, add_chunk)
          (mark_held-IsConsistent tag_size digest_size hash s id r v e n c real)
  ]

  pub adopt_chunk-IsConsistent :
      (s : DataStore) (id : Octets) (n : ℕ) (c : Octets)
      → Ok s
      → IsAuthentic tag_size digest_size hash id n c
      → Ok (adopt_chunk tag_size id n c s).0
  unfolding adopt_chunk
  adopt_chunk-IsConsistent s id n c v real = elim (Option-cases (find_id id s.table.rows)) [
    | inl gone ↦ rw (gone, adopt_chunk) v
    | inr (r, e) ↦ elim (Bool-cases (test r.have n)) [
      | inl held ↦ rw (e, held, adopt_chunk) v
      | inr off ↦
          rw (e, off, adopt_chunk)
            (mark_held-IsConsistent tag_size digest_size hash s id r v e n c real)
    ]
  ]
