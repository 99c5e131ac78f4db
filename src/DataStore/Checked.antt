-- ===== src/DataStore/Checked.antt =====
-- What spsync/core/data/record_data_store.cpp checks against the digests of a data before it keeps it. The hash and
-- the size of a digest are the crypto library's.
use spsync.Prelude.{
  ℕ, Bool, true, false, not, ◌&&◌, Option, none, some, List, [], ◌++◌, ltb, leb, ◌==◌,
  if◌then◌else◌, add64, sub64, length, Octets, is_empty, eq_octets,
}
use spsync.Descriptor.{DataDescriptor, chunk_count, chunk_enc_size}
use spsync.HaveBitmap.{nothing_held, set_all}
use spsync.Manifest.{joined, matches, verify_chunk, from_octets}
use spsync.Manifest.Laws.{digest_at}
use spsync.DataTable.{
  RecordDataState, invalid, DataRow, find_id, find_key, set_state, set_have, set_digests,
  set_header, ensure,
}
use spsync.ChunkFiles.{commit_staging}
use spsync.DataStore.{DataStore, Encrypted, eq_descriptor, drop_chunk, add_chunk, adopt_chunk}

-- A chunk that arrives in pieces, with the octets that went to its file and to its hash.
pub record IncomingChunk : Type 0 where
  pub id : Octets
  pub chunk_no : ℕ
  pub expected_size : ℕ
  pub expected_digest : Octets
  pub staged : Octets
  pub hashed : Octets
  pub received : ℕ
  pub is_open : Bool

unfoldable pub discard : IncomingChunk → IncomingChunk
discard c = record c { is_open = false; staged = [] }

-- The constructor.
unfoldable pub begun_chunk : Octets → ℕ → ℕ → Octets → IncomingChunk
begun_chunk id n expected_size expected_digest = record {
  id = id;
  chunk_no = n;
  expected_size = expected_size;
  expected_digest = expected_digest;
  staged = [];
  hashed = [];
  received = 0;
  is_open = true;
}

-- The next piece, and no more than is left.
unfoldable pub fits : ℕ → Octets → IncomingChunk → Bool
fits offset piece c =
    c.is_open
    && (offset == c.received
        && (not (is_empty piece) && leb (length piece) (sub64 c.expected_size c.received)))

-- `append`: none when the file could not be written.
unfoldable pub append_piece : ℕ → Octets → Bool → IncomingChunk → IncomingChunk × Option Bool
unfolding discard fits
append_piece offset piece written c =
    if fits offset piece c
    then (if written
        then (
          record c {
            staged = c.staged ++ piece;
            hashed = c.hashed ++ piece;
            received = add64 c.received (length piece);
          },
          some true,
        )
        else (discard c, none))
    else (discard c, some false)

-- All octets came, with the digest, and they are what is in the file; a file without octets was never made.
unfoldable pub is_whole : (Octets → Octets) → IncomingChunk → Bool
is_whole hash c =
    c.is_open
    && (c.received == c.expected_size
        && (eq_octets (hash c.hashed) c.expected_digest
            && (not (is_empty c.staged) && (length c.staged == c.expected_size))))

module _ (tag_size digest_size : ℕ) (hash : Octets → Octets) where
  unfoldable pub manifest : Octets → DataStore → Option (List Octets)
  unfolding find_id from_octets
  manifest id s = elim (find_id id s.table.rows) [
    | none ↦ none
    | some row ↦ elim row.digests [ none ↦ none | some blob ↦ from_octets digest_size blob ]
  ]

  unfoldable pub store_chunk : Octets → ℕ → Octets → DataStore → DataStore × Bool
  unfolding manifest verify_chunk find_id add_chunk
  store_chunk id n encrypted s = elim (manifest id s) [
    | none ↦ (s, false)
    | some digests ↦
        if verify_chunk hash digests n encrypted
        then elim (find_id id s.table.rows) [
          | none ↦ (s, false)
          | some row ↦ (add_chunk tag_size row n encrypted s, true)
        ]
        else (s, false)
  ]

  -- A chunk that was held did not decrypt.
  unfoldable pub chunk_failed : Octets → ℕ → Octets → DataStore → DataStore
  unfolding manifest verify_chunk find_id drop_chunk set_state
  chunk_failed id n encrypted s = elim (find_id id s.table.rows) [
    | none ↦ s
    | some row ↦
        let rotten : Bool = elim (manifest id s) [
          | none ↦ false
          | some digests ↦ not (verify_chunk hash digests n encrypted)
        ] in
        if rotten
        then drop_chunk tag_size row n s
        else record s { table = set_state row.local_id invalid s.table }
  ]

  unfoldable pub set_manifest : Octets → List Octets → DataStore → DataStore × Bool
  unfolding find_id matches set_digests joined
  set_manifest id digests s = elim (find_id id s.table.rows) [
    | none ↦ (s, false)
    | some row ↦
        if matches tag_size hash digests row.descriptor
        then (record s { table = set_digests row.local_id (joined digests) s.table }, true)
        else (s, false)
  ]

  unfoldable pub register_data :
      DataDescriptor → List Octets → DataStore → DataStore × Option DataRow
  unfolding matches ensure find_key eq_descriptor set_digests joined
  register_data d digests s =
      let registered : DataStore × Option DataRow = elim (ensure tag_size d s.table) [
        | none ↦ (s, none)
        | some (table, k) ↦ elim (find_key k table.rows) [
          | none ↦ (record s { table = table }, none)
          | some row ↦
              if eq_descriptor row.descriptor d
              then (record s { table = set_digests k (joined digests) table }, some row)
              else (record s { table = table }, none)
        ]
      ] in
      if matches tag_size hash digests d then registered else (s, none)

  -- The staged chunks of a whole data become the data; none for an error of `ensure`.
  unfoldable pub register_held :
      (ℕ → Option Octets) → Encrypted → RecordDataState → Bool → DataStore → Option DataStore
  unfolding ensure set_digests joined set_header commit_staging set_have nothing_held set_all
      set_state
  register_held staged result state replace s =
      let d = result.descriptor in
      elim (ensure tag_size d s.table) [
        | none ↦ none
        | some (table, k) ↦
            let named = set_header k result.header (set_digests k (joined result.digests) table) in
            let have = set_all (nothing_held (chunk_count tag_size d)) in
            some (record s {
              files = commit_staging s.files staged d.manifest_digest replace;
              table = set_state k state (set_have tag_size k have named);
            })
      ]

  unfoldable pub begin_chunk : Octets → ℕ → DataStore → Option IncomingChunk
  unfolding find_id chunk_count chunk_enc_size digest_at begun_chunk
  begin_chunk id n s = elim (find_id id s.table.rows) [
    | none ↦ none
    | some row ↦ elim row.digests [
      | none ↦ none
      | some blob ↦
          let digest = digest_at digest_size blob n in
          if ltb n (chunk_count tag_size row.descriptor) && (length digest == digest_size)
          then some (begun_chunk id n (chunk_enc_size tag_size row.descriptor n) digest)
          else none
    ]
  ]

  unfoldable pub finish : IncomingChunk → DataStore → IncomingChunk × (DataStore × Bool)
  unfolding adopt_chunk discard is_whole
  finish c s =
      if is_whole hash c
      then (record c { is_open = false }, adopt_chunk tag_size c.id c.chunk_no c.staged s)
      else (discard c, (s, false))
