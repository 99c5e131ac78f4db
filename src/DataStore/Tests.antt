-- ===== src/DataStore/Tests.antt =====
-- Runs of spsync/core/data/record_data_store.cpp at a data of two chunks of three octets. The hash is the octets
-- themselves, so the id of the data is the digests of its chunks.
use spsync.Prelude.{
  ℕ, zero, suc, ◌<◌, ◌≡◌, refl, ◌⊎◌, inl, inr, true, false, none, some, List, [], ◌∷◌, arith, All,
  Any, Octets, eq_octets,
}
use spsync.Descriptor.{DataDescriptor, chunk_enc_size}
use spsync.HaveBitmap.{test, complete}
use spsync.Manifest.{from_octets, verify_chunk}
use spsync.DataTable.{deferred, DataRow, find_id}
use spsync.DataStore.{DataStore, is_upload_pending}
use spsync.DataStore.Checked.{register_data, store_chunk}
use spsync.DataStore.Runs.{Reach, start, registered, stored, empty_store, Reach-IsConsistent}
use spsync.DataStore.Serves.{Serves, Reach-Serves}
use spsync.DataStore.Complete.{Downloads, Done, store_all, store_all-Done}

abbrev same_octets : Octets → Octets
same_octets os = os

abbrev first_chunk : Octets
first_chunk = 1 ∷ 2 ∷ 3 ∷ []

abbrev second_chunk : Octets
second_chunk = 4 ∷ 5 ∷ 6 ∷ []

abbrev blob : Octets
blob = 1 ∷ 2 ∷ 3 ∷ 4 ∷ 5 ∷ 6 ∷ []

abbrev two_chunks : DataDescriptor
two_chunks = record { enc_size = 6; chunk_size = 2; manifest_digest = blob }

abbrev digests : List Octets
digests = first_chunk ∷ second_chunk ∷ []

abbrev known_store : DataStore
known_store = (register_data 1 3 same_octets two_chunks digests empty_store).0

known_store-Reach : Reach 1 3 same_octets known_store
known_store-Reach = registered start two_chunks digests

Reach-Serves_example :
    Serves 1 3 same_octets (store_chunk 1 3 same_octets blob 0 first_chunk known_store).0 blob 0
Reach-Serves_example =
    Reach-Serves 1 3 same_octets (stored known_store-Reach blob 0 first_chunk) blob 0

abbrev wanted_row : DataRow
wanted_row = record {
  local_id = 1;
  descriptor = two_chunks;
  state = deferred;
  have = record { bits = 0 ∷ []; chunk_count = 2 };
  digests = some blob;
  header = none;
}

wanted_row_found : find_id blob known_store.table.rows ≡ some wanted_row
unfolding register_data find_id eq_octets chunk_enc_size
wanted_row_found = refl

blob_decoded : from_octets 3 blob ≡ some digests
unfolding from_octets
blob_decoded = refl

not_uploading : is_upload_pending wanted_row.state ≡ false
unfolding is_upload_pending
not_uploading = refl

not_whole : complete wanted_row.have ≡ false
unfolding complete
not_whole = refl

to_store :
    All
      (λ (e : ℕ × Octets). verify_chunk same_octets digests e.0 e.1 ≡ true)
      ((1, second_chunk) ∷ (0, first_chunk) ∷ [])
unfolding verify_chunk eq_octets
to_store = (refl, (refl, tt))

to_cover :
    (m : ℕ)
    → m < 2
    → (test wanted_row.have m ≡ true)
      ⊎ Any (λ (e : ℕ × Octets). e.0 ≡ m) ((1, second_chunk) ∷ (0, first_chunk) ∷ [])
to_cover zero h = inr (inr (inl refl))
to_cover (suc zero) h = inr (inl refl)
to_cover (suc (suc m)) h = absurd (omega arith)

wanted_row-Downloads :
    Downloads 1 3 same_octets blob blob digests blob_decoded known_store wanted_row
wanted_row-Downloads = record {
  consistent = Reach-IsConsistent 1 3 same_octets known_store-Reach;
  found = wanted_row_found;
  known = refl;
  downloading = not_uploading;
  whole = λ h. cc (not_whole, h);
}

store_all-Done_example :
    Done 1 3 same_octets blob blob digests blob_decoded
      (store_all 1 3 same_octets blob ((1, second_chunk) ∷ (0, first_chunk) ∷ []) known_store)
store_all-Done_example =
    store_all-Done 1 3 same_octets blob blob digests blob_decoded
      ((1, second_chunk) ∷ (0, first_chunk) ∷ []) known_store wanted_row wanted_row-Downloads
      to_store to_cover
