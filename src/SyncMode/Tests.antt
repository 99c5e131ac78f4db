-- ===== src/SyncMode/Tests.antt =====
-- Runs of the lemmas on spsync/core/sync_mode.hpp.
use spsync.Prelude.{◌≡◌, ◌↔◌, true}
use spsync.SyncMode.{
  StorageLimits, StorageModes, require_all_seen, sign_records, not_replicated, weak, modes_match,
  mode_number, auth_number,
}
use spsync.SyncMode.Laws.{Agrees, modes_match_iff}

abbrev only_chunks : StorageLimits
only_chunks = record { max_record_size = 0; chunk_size = 262144; kept_data_versions = 0 }

abbrev default_limits : StorageLimits
default_limits = record { max_record_size = 1048576; chunk_size = 1048576; kept_data_versions = 1 }

abbrev stated : StorageModes
stated = record {
  mode = require_all_seen;
  auth = sign_records;
  replication = not_replicated;
  limits = only_chunks;
}

abbrev actual : StorageModes
actual = record {
  mode = require_all_seen;
  auth = sign_records;
  replication = weak;
  limits = default_limits;
}

modes_match_iff_example : (modes_match stated actual ≡ true) ↔ (
    (mode_number require_all_seen ≡ mode_number require_all_seen)
    × ((auth_number sign_records ≡ auth_number sign_records)
        × (Agrees 0 1 × (Agrees 0 1048576 × (Agrees 262144 1048576 × Agrees 0 1)))))
modes_match_iff_example = modes_match_iff stated actual
