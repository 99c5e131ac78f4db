-- ===== src/Cursor/Tests.antt =====
-- A run of the lemma on spsync/transfer/piece_cursor.hpp at a data of three chunks.
use spsync.Prelude.{◌<◌, ◌≤◌, max, ◌≡◌, [], ◌∷◌, arith, All}
use spsync.Descriptor.{DataDescriptor, chunk_count, chunk_enc_size}
use spsync.Cursor.{new_cursor}
use spsync.Cursor.Cover.{octets_at, octets_of_chunks}
use spsync.Cursor.Cover.Drain.{
  octets_of_pieces, drain, add_all, after_rounds, Ends, drain-octets_of_chunks,
}

abbrev three_chunks : DataDescriptor
three_chunks = record { enc_size = 50; chunk_size = 4; manifest_digest = 1 ∷ [] }

drain-octets_of_chunks_example :
    let c = add_all 16 (new_cursor three_chunks) (2 ∷ 0 ∷ []) in
    (octets_of_pieces 16 (drain 16 31 c 8) ≡ octets_of_chunks 16 three_chunks (2 ∷ 0 ∷ []))
    × All (λ p. (0 < p.size) × (p.size ≤ max 8 1)) (drain 16 31 c 8)
    × Ends 16 (after_rounds 16 31 c 8) 8
unfolding octets_of_chunks octets_at chunk_enc_size chunk_count
drain-octets_of_chunks_example =
    drain-octets_of_chunks 16 three_chunks (2 ∷ 0 ∷ []) 8 31
      (record { enc = omega arith; chunk = omega arith; cut = omega arith; tag = omega arith })
      (omega arith, (omega arith, tt)) (omega arith) (omega arith)
