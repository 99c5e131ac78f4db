-- ===== src/DataTable.antt =====
-- spsync/core/data/data_state_table.cpp, with the states of spsync/core/record_data.hpp: the table of the datas.
-- A row stands under the manifest digest of its descriptor, and under a key that is given once. The columns of
-- the manifest and of the header are none until they are known.

pub mod Laws
use spsync.Prelude.{
  ℕ, zero, suc, ◌+◌, ◌-◌, ◌*◌, ◌/◌, ◌%◌, ◌^◌, ◌≤◌, ◌<◌, min, max, ◌≡◌, refl, sym, ap, ◌∙◌, subst,
  ◌≢◌, ◌↔◌, ◌⊎◌, inl, inr, Bool, true, false, not, ◌&&◌, ◌||◌, Option, none, some, List, [], ◌∷◌,
  ◌++◌, map, arith, ltb, leb, ◌==◌, if◌then◌else◌, Bool-cases, Option-cases, ==_iff, u64_mod, add64,
  sub64, length, get_elem?, take, All, Any, length-append, Octets, is_empty, eq_octets, lt_octets,
  eq_octets_iff,
}
use spsync.Descriptor.{DataDescriptor, chunk_count, usable_data_descriptor}
use spsync.HaveBitmap.{HaveBitmap, nothing_held, of_octets}

pub data RecordDataState : Type 0 where
  unknown deferred remote_not_complete upload_pending download_pending in_sync removed invalid
        pruned :
      RecordDataState

-- The fields that the store reads.
pub record DataHeader : Type 0 where
  pub plain_size : ℕ
  pub content_digest : Octets
  pub nonce : Octets

pub record DataRow : Type 0 where
  pub local_id : ℕ
  pub descriptor : DataDescriptor
  pub state : RecordDataState
  pub have : HaveBitmap
  pub digests : Option Octets
  pub header : Option DataHeader

abbrev pub data_id_of : DataRow → Octets
data_id_of r = r.descriptor.manifest_digest

pub record DataTable : Type 0 where
  pub rows : List DataRow
  pub next_key : ℕ

unfoldable pub find_id : Octets → List DataRow → Option DataRow
find_id id [] = none
find_id id (r ∷ rows) = if eq_octets id (data_id_of r) then some r else find_id id rows

unfoldable pub find_key : ℕ → List DataRow → Option DataRow
find_key k [] = none
find_key k (r ∷ rows) = if k == r.local_id then some r else find_key k rows

-- `UPDATE record_data SET ... WHERE key = :k`.
unfoldable pub update : ℕ → (DataRow → DataRow) → List DataRow → List DataRow
update k f [] = []
update k f (r ∷ rows) = (if k == r.local_id then f r else r) ∷ update k f rows

unfoldable pub set_state : ℕ → RecordDataState → DataTable → DataTable
unfolding update
set_state k state t = record t { rows = update k (λ r. record r { state = state }) t.rows }

-- The octets are stored; a row is read with as many chunks as its descriptor has.
unfoldable pub set_have : ℕ → ℕ → HaveBitmap → DataTable → DataTable
unfolding update of_octets chunk_count
set_have tag_size k have t = record t {
  rows =
      update k (λ r. record r { have = of_octets (chunk_count tag_size r.descriptor) have.bits })
        t.rows;
}

unfoldable pub set_digests : ℕ → Octets → DataTable → DataTable
unfolding update
set_digests k blob t = record t { rows = update k (λ r. record r { digests = some blob }) t.rows }

unfoldable pub set_header : ℕ → DataHeader → DataTable → DataTable
unfolding update
set_header k header t = record t { rows = update k (λ r. record r { header = some header }) t.rows }

unfoldable pub delete : ℕ → List DataRow → List DataRow
delete k [] = []
delete k (r ∷ rows) = if k == r.local_id then delete k rows else r ∷ delete k rows

unfoldable pub remove : ℕ → DataTable → DataTable
unfolding delete
remove k t = record t { rows = delete k t.rows }

-- Ordered by their keys, which grow.
unfoldable pub find_by_content : Octets → List DataRow → List DataRow
find_by_content content_digest [] = []
find_by_content content_digest (r ∷ rows) =
    let rest = find_by_content content_digest rows in
    elim r.header [
      | none ↦ rest
      | some h ↦ if eq_octets h.content_digest content_digest then r ∷ rest else rest
    ]

unfoldable pub new_row : ℕ → ℕ → DataDescriptor → DataRow
unfolding nothing_held chunk_count
new_row tag_size k d = record {
  local_id = k;
  descriptor = d;
  state = deferred;
  have = nothing_held (chunk_count tag_size d);
  digests = none;
  header = none;
}

-- The row of a descriptor's data, made when there is none; none for the error that the descriptor is not usable.
unfoldable pub ensure : ℕ → DataDescriptor → DataTable → Option (DataTable × ℕ)
unfolding usable_data_descriptor find_id new_row
ensure tag_size d t =
    let made : DataTable × ℕ = elim (find_id d.manifest_digest t.rows) [
      | some r ↦ (t, r.local_id)
      | none ↦ (
        record { rows = t.rows ++ (new_row tag_size t.next_key d ∷ []); next_key = t.next_key + 1 },
        t.next_key,
      )
    ] in
    if usable_data_descriptor tag_size d then some made else none
