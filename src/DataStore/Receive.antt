-- ===== src/DataStore/Receive.antt =====
-- What an incoming chunk of spsync/core/data/record_data_store.cpp accepts.
use spsync.Prelude.{
  ℕ, ◌<◌, ◌≡◌, Bool, true, false, not, is_empty, eq_octets, ◌&&◌, some, List, ◌==◌, if◌then◌else◌,
  length, Octets,
}
use spsync.Manifest.Laws.{digest_at}
use spsync.DataStore.Keep.{Consistent}
use spsync.Descriptor.{chunk_count, chunk_enc_size}
use spsync.HaveBitmap.{test}
use spsync.DataTable.{DataRow, find_id}
use spsync.KeyMap.{is_some}
use spsync.DataStore.{DataStore}
use spsync.DataStore.Checked.{IncomingChunk, begin_chunk, finish}
use spsync.DataStore.Feed.{feed, in_order, contents}

module _ (hash : Octets → Octets) where
  -- The octets have the size and the digest of a chunk of a data, given the row and the digests of the data.
  unfoldable pub is_chunk_of : ℕ → ℕ → DataRow → Octets → ℕ → Octets → Bool
  is_chunk_of tag_size digest_size r blob n os =
      length os == chunk_enc_size tag_size r.descriptor n
      && (eq_octets (hash os) (digest_at digest_size blob n) && not (is_empty os))

  module _ (tag_size digest_size : ℕ) (s₀ : DataStore) (id : Octets) (n : ℕ) (c : IncomingChunk)
      (r₀ : DataRow) (blob : Octets)
      (begins : begin_chunk tag_size digest_size hash id n s₀ ≡ some c)
      (found : find_id id s₀.table.rows ≡ some r₀) (known : r₀.digests ≡ some blob) where
    -- The pieces are in order, and together the chunk of that number.
    abbrev pub accepted : List (ℕ × Octets) → Bool
    accepted pieces =
        in_order 0 pieces && is_chunk_of tag_size digest_size r₀ blob n (contents pieces)

    -- What `finish` makes of the pieces in a store: its answer, and the file of the chunk.
    pub record Receives (s : DataStore) (pieces : List (ℕ × Octets)) : Type 0 where
      pub answer :
          (finish tag_size digest_size hash (feed pieces c) s).1.1
          ≡ (accepted pieces && is_some (find_id id s.table.rows))
      pub refused :
          accepted pieces ≡ false → (finish tag_size digest_size hash (feed pieces c) s).1.0 ≡ s
      pub kept :
          (r : DataRow)
          → find_id id s.table.rows ≡ some r
          → accepted pieces ≡ true
          → (finish tag_size digest_size hash (feed pieces c) s).1.0.files.chunk id n
            ≡ (if test r.have n then s.files.chunk id n else some (contents pieces))
      pub held :
          (r : DataRow)
          → Consistent tag_size digest_size hash s
          → find_id id s.table.rows ≡ some r
          → n < chunk_count tag_size r.descriptor
          → accepted pieces ≡ true
          → (r' : DataRow) × (find_id id
                (finish tag_size digest_size hash (feed pieces c) s).1.0.table.rows
              ≡ some r')
            × (test r'.have n ≡ true)
