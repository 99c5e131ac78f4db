-- ===== src/Descriptor.antt =====
-- spsync/core/data/data_descriptor.hpp and data_descriptor.cpp: what a descriptor says of its chunks.
-- The octets that AES-GCM adds to a chunk and the size of a digest are the crypto library's.
pub mod Tests
pub mod Sizes
use spsync.Prelude.{
  ℕ, zero, suc, ◌+◌, ◌-◌, ◌*◌, ◌/◌, ◌%◌, ◌^◌, ◌≤◌, ◌<◌, min, max, ◌≡◌, refl, sym, ap, ◌∙◌, subst,
  ◌≢◌, ◌↔◌, ◌⊎◌, inl, inr, Bool, true, false, not, ◌&&◌, ◌||◌, Option, none, some, List, [], ◌∷◌,
  ◌++◌, map, arith, ltb, leb, ◌==◌, if◌then◌else◌, Bool-cases, Option-cases, ==_iff, u64_mod, add64,
  sub64, length, get_elem?, take, All, Any, length-append, Octets, is_empty, eq_octets, lt_octets,
  eq_octets_iff,
}

pub record DataDescriptor : Type 0 where
  pub enc_size : ℕ
  pub chunk_size : ℕ
  pub manifest_digest : Octets

abbrev pub max_data_chunks : ℕ
max_data_chunks = 200000

-- `chunk_size_range` of spsync/core/sync_mode.hpp.
abbrev pub chunk_size_lowest : ℕ
chunk_size_lowest = 256 * 1024

abbrev pub chunk_size_highest : ℕ
chunk_size_highest = 8 * 1024 * 1024

-- `crypto::aes_gcm_tag_size()` and `crypto::hash_digest_size()`.
module _ (tag_size : ℕ) where
  abbrev pub per_chunk : DataDescriptor → ℕ
  per_chunk d = add64 d.chunk_size tag_size

  unfoldable pub chunk_count : DataDescriptor → ℕ
  chunk_count d =
      if d.chunk_size == 0
      then 0
      else d.enc_size / per_chunk d + (if d.enc_size % per_chunk d == 0 then 0 else 1)

  unfoldable pub chunk_enc_size : DataDescriptor → ℕ → ℕ
  chunk_enc_size d chunk_no =
      if ltb chunk_no (chunk_count d)
      then min (per_chunk d) (sub64 d.enc_size ((chunk_no * per_chunk d) % u64_mod))
      else 0

  unfoldable pub chunk_holds_range : DataDescriptor → ℕ → ℕ → ℕ → Bool
  chunk_holds_range d chunk_no offset size =
      let chunk = chunk_enc_size d chunk_no in leb offset chunk && leb size (sub64 chunk offset)

  unfoldable pub usable_data_descriptor : DataDescriptor → Bool
  usable_data_descriptor d =
      let chunks = chunk_count d in
      not (is_empty d.manifest_digest)
      && (leb 1 chunks
          && (leb chunks max_data_chunks && ltb tag_size (chunk_enc_size d (sub64 chunks 1))))

  unfoldable pub valid_data_descriptor : ℕ → DataDescriptor → Bool
  valid_data_descriptor digest_size d =
      (leb chunk_size_lowest d.chunk_size && leb d.chunk_size chunk_size_highest)
      && (length d.manifest_digest == digest_size && usable_data_descriptor d)
