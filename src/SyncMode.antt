-- ===== src/SyncMode.antt =====
-- spsync/core/sync_mode.hpp: the modes of a storage and its limits.
pub mod Laws
pub mod Tests
use spsync.Prelude.{
  ℕ, zero, suc, ◌+◌, ◌-◌, ◌*◌, ◌/◌, ◌%◌, ◌^◌, ◌≤◌, ◌<◌, min, max, ◌≡◌, refl, sym, ap, ◌∙◌, subst,
  ◌≢◌, ◌↔◌, ◌⊎◌, inl, inr, Bool, true, false, not, ◌&&◌, ◌||◌, Option, none, some, List, [], ◌∷◌,
  ◌++◌, map, arith, ltb, leb, ◌==◌, if◌then◌else◌, Bool-cases, Option-cases, ==_iff, u64_mod, add64,
  sub64, length, get_elem?, take, All, Any, length-append, Octets, is_empty, eq_octets, lt_octets,
  eq_octets_iff,
}

pub data SyncMode : Type 0 where
  allow_all require_special_seen require_data_add_remove_seen require_all_seen : SyncMode

pub data AuthMode : Type 0 where
  only_tag sign_records : AuthMode

pub data ReplicationMode : Type 0 where
  not_replicated weak strict : ReplicationMode

pub record StorageLimits : Type 0 where
  pub max_record_size : ℕ
  pub chunk_size : ℕ
  pub kept_data_versions : ℕ

pub record StorageModes : Type 0 where
  pub mode : SyncMode
  pub auth : AuthMode
  pub replication : ReplicationMode
  pub limits : StorageLimits

unfoldable pub is_sign_records : AuthMode → Bool
is_sign_records only_tag = false
is_sign_records sign_records = true

unfoldable pub is_replicated : ReplicationMode → Bool
is_replicated not_replicated = false
is_replicated weak = true
is_replicated strict = true

abbrev pub in_range : ℕ → ℕ → ℕ → Bool
in_range lowest highest value = leb lowest value && leb value highest

-- `keep_all_data_versions`.
abbrev pub keep_all_data_versions : ℕ
keep_all_data_versions = 4294967295

unfoldable pub valid_storage_limits : StorageLimits → Bool
valid_storage_limits l =
    let record_ok =
      l.max_record_size == 0 || in_range (4 * 1024) (2 * 1024 * 1024) l.max_record_size in
    let chunk_ok = l.chunk_size == 0 || in_range (256 * 1024) (8 * 1024 * 1024) l.chunk_size in
    let kept_ok =
      l.kept_data_versions == 0 || in_range 1 keep_all_data_versions l.kept_data_versions in
    record_ok && (chunk_ok && kept_ok)

abbrev pub stated_or : ℕ → ℕ → ℕ
stated_or stated other = if stated == 0 then other else stated

unfoldable pub limits_or : StorageLimits → StorageLimits → StorageLimits
limits_or stated others = record {
  max_record_size = stated_or stated.max_record_size others.max_record_size;
  chunk_size = stated_or stated.chunk_size others.chunk_size;
  kept_data_versions = stated_or stated.kept_data_versions others.kept_data_versions;
}

unfoldable pub valid_storage_modes : StorageModes → Bool
unfolding is_replicated is_sign_records valid_storage_limits
valid_storage_modes m =
    (not (is_replicated m.replication) || is_sign_records m.auth) && valid_storage_limits m.limits

abbrev pub mode_number : SyncMode → ℕ
mode_number allow_all = 0
mode_number require_special_seen = 1
mode_number require_data_add_remove_seen = 2
mode_number require_all_seen = 3

abbrev pub auth_number : AuthMode → ℕ
auth_number only_tag = 0
auth_number sign_records = 1

abbrev pub replication_number : ReplicationMode → ℕ
replication_number not_replicated = 0
replication_number weak = 1
replication_number strict = 2

unfoldable pub eq_limits : StorageLimits → StorageLimits → Bool
eq_limits a b =
    a.max_record_size == b.max_record_size
    && (a.chunk_size == b.chunk_size && a.kept_data_versions == b.kept_data_versions)

unfoldable pub eq_modes : StorageModes → StorageModes → Bool
unfolding eq_limits
eq_modes a b =
    mode_number a.mode == mode_number b.mode
    && (auth_number a.auth == auth_number b.auth
        && (replication_number a.replication == replication_number b.replication
            && eq_limits a.limits b.limits))

abbrev pub replication_or : ReplicationMode → ReplicationMode → ReplicationMode
replication_or not_replicated other = other
replication_or weak other = weak
replication_or strict other = strict

unfoldable pub modes_match : StorageModes → StorageModes → Bool
unfolding limits_or eq_modes
modes_match stated actual =
    eq_modes
      (record stated {
        replication = replication_or stated.replication actual.replication;
        limits = limits_or stated.limits actual.limits;
      })
      actual
