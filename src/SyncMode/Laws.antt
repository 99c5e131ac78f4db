-- ===== src/SyncMode/Laws.antt =====
-- What the limits and modes of spsync/core/sync_mode.hpp mean.
use spsync.Prelude.{ℕ, ◌≡◌, refl, ◌↔◌, ◌⊎◌, Bool, true, false, ◌&&◌, arith, ◌==◌, ==_iff}
use spsync.SyncMode.{
  ReplicationMode, not_replicated, weak, strict, StorageModes, limits_or, mode_number, auth_number,
  replication_number, eq_limits, eq_modes, replication_or, stated_or, modes_match,
}

-- A limit that is not stated, or is the actual one.
pub Agrees : ℕ → ℕ → Type 0
Agrees stated actual = (stated ≡ 0) ⊎ (stated ≡ actual)

-- A test of two parts, each of which decides its half.
and_iff : {P Q : Type 0} (b c : Bool) → (b ≡ true) ↔ P → (c ≡ true) ↔ Q → (b && c ≡ true) ↔ (P × Q)
and_iff true c f g = (λ h. (f.0 refl, g.0 h), λ pq. g.1 pq.1)
and_iff false c f g = (λ h. cc, λ pq. f.1 pq.0)

Agrees-iff : (stated actual : ℕ) → (stated_or stated actual == actual ≡ true) ↔ Agrees stated actual
unfolding Agrees
Agrees-iff stated actual = ground arith

replication_iff :
    (stated actual : ReplicationMode)
    → (replication_number (replication_or stated actual) == replication_number actual ≡ true)
      ↔ Agrees (replication_number stated) (replication_number actual)
unfolding Agrees
replication_iff not_replicated actual = ground arith
replication_iff weak actual = ground arith
replication_iff strict actual = ground arith

-- Stated modes match actual ones just when the sync and auth modes are the same, and the replication and each limit
-- are not stated or the same.
pub modes_match_iff :
    (stated actual : StorageModes)
    → (modes_match stated actual ≡ true) ↔ (
        (mode_number stated.mode ≡ mode_number actual.mode)
        × ((auth_number stated.auth ≡ auth_number actual.auth)
            × (Agrees
                  (replication_number stated.replication)
                  (replication_number actual.replication)
                × (Agrees stated.limits.max_record_size actual.limits.max_record_size
                    × (Agrees stated.limits.chunk_size actual.limits.chunk_size
                        × Agrees stated.limits.kept_data_versions
                            actual.limits.kept_data_versions)))))
unfolding modes_match eq_modes eq_limits limits_or
modes_match_iff stated actual =
    and_iff _ _ (==_iff (mode_number stated.mode) (mode_number actual.mode)) (
      and_iff _ _ (==_iff (auth_number stated.auth) (auth_number actual.auth)) (
        and_iff _ _ (replication_iff stated.replication actual.replication) (
          and_iff _ _ (Agrees-iff stated.limits.max_record_size actual.limits.max_record_size) (
            and_iff _ _ (Agrees-iff stated.limits.chunk_size actual.limits.chunk_size)
              (Agrees-iff stated.limits.kept_data_versions actual.limits.kept_data_versions)))))
