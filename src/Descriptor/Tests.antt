-- ===== src/Descriptor/Tests.antt =====
-- Runs of the lemmas on spsync/core/data/data_descriptor.cpp at a data of three chunks.
use spsync.Prelude.{◌+◌, ◌≤◌, ◌≡◌, ◌↔◌, true, [], ◌∷◌, arith}
use spsync.Descriptor.{DataDescriptor, chunk_count, chunk_enc_size, chunk_holds_range}
use spsync.Descriptor.Sizes.{
  IsWide, total_enc_size, total_enc_size-eq, chunk_enc_size_full, chunk_holds_range_iff,
}

abbrev three_chunks : DataDescriptor
three_chunks = record { enc_size = 50; chunk_size = 4; manifest_digest = 1 ∷ [] }

three_chunks-IsWide : IsWide 16 three_chunks
three_chunks-IsWide = record {
  enc = omega arith;
  chunk = omega arith;
  cut = omega arith;
  tag = omega arith;
}

total_enc_size-eq_example : total_enc_size 16 three_chunks (chunk_count 16 three_chunks) ≡ 50
total_enc_size-eq_example = total_enc_size-eq 16 three_chunks three_chunks-IsWide

chunk_enc_size_full_example : chunk_enc_size 16 three_chunks 1 ≡ 4 + 16
unfolding chunk_count
chunk_enc_size_full_example =
    chunk_enc_size_full 16 three_chunks 1 three_chunks-IsWide (omega arith)

chunk_holds_range_iff_example :
    (chunk_holds_range 16 three_chunks 2 3 7 ≡ true) ↔ (3 + 7 ≤ chunk_enc_size 16 three_chunks 2)
chunk_holds_range_iff_example =
    chunk_holds_range_iff 16 three_chunks 2 3 7 three_chunks-IsWide (omega arith)
