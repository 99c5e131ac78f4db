-- ===== src/DataStore.antt =====
-- spsync/core/data/record_data_store.cpp: what is held of each data, in the table and in the files. A lock makes each
-- operation one step. The chunks that an encryptor made come as an argument, `Encrypted`; the decryption of a handle is
-- not modelled. A call that throws gives none.
use spsync.Prelude.{
  ℕ, zero, suc, ◌+◌, ◌-◌, ◌*◌, ◌/◌, ◌%◌, ◌^◌, ◌≤◌, ◌<◌, min, max, ◌≡◌, refl, sym, ap, ◌∙◌, subst,
  ◌≢◌, ◌↔◌, ◌⊎◌, inl, inr, Bool, true, false, not, ◌&&◌, ◌||◌, Option, none, some, List, [], ◌∷◌,
  ◌++◌, map, arith, ltb, leb, ◌==◌, if◌then◌else◌, Bool-cases, Option-cases, ==_iff, u64_mod, add64,
  sub64, length, get_elem?, take, All, Any, length-append, Octets, is_empty, eq_octets, lt_octets,
  eq_octets_iff,
}
pub mod Checked
pub mod Consistent
pub mod Keep
pub mod Register
pub mod Staging
pub mod Whole
pub mod Operations
pub mod Verified
pub mod Expected
pub mod Runs
pub mod Serves
pub mod Feed
pub mod Receive
pub mod Marked
pub mod Complete
pub mod Tests
use spsync.Descriptor.{
  DataDescriptor, chunk_count, chunk_enc_size, chunk_holds_range, usable_data_descriptor,
}
use spsync.HaveBitmap.{HaveBitmap, nothing_held, test, set, set_all, clear, complete}
use spsync.Manifest.{joined, matches, verify_chunk, from_octets}
use spsync.DataTable.{
  RecordDataState, deferred, upload_pending, download_pending, in_sync, removed, invalid, pruned,
  unknown, remote_not_complete, DataHeader, DataRow, DataTable, find_id, find_key, set_state,
  set_have, set_digests, set_header, find_by_content, ensure, data_id_of,
}
use spsync.DataTable
use spsync.ChunkFiles.{ChunkFiles, write, read, size, remove_chunk, read_piece, commit_staging}
use spsync.ChunkFiles
use spsync.Manifest.Laws.{digest_at}

pub record DataStore : Type 0 where
  pub table : DataTable
  pub files : ChunkFiles
  pub drops : ℕ

-- `encrypted_data_result`
pub record Encrypted : Type 0 where
  pub descriptor : DataDescriptor
  pub header : DataHeader
  pub digests : List Octets

unfoldable pub is_upload_pending : RecordDataState → Bool
is_upload_pending upload_pending = true
is_upload_pending _ = false

unfoldable pub is_held_state : RecordDataState → Bool
is_held_state in_sync = true
is_held_state removed = true
is_held_state _ = false

unfoldable pub is_invalid : RecordDataState → Bool
is_invalid invalid = true
is_invalid _ = false

unfoldable pub is_pruned : RecordDataState → Bool
is_pruned pruned = true
is_pruned _ = false

unfoldable pub eq_descriptor : DataDescriptor → DataDescriptor → Bool
eq_descriptor d e =
    (d.enc_size == e.enc_size && d.chunk_size == e.chunk_size)
    && eq_octets d.manifest_digest e.manifest_digest

unfoldable pub mark_held : ℕ → DataRow → ℕ → DataStore → DataStore
unfolding set complete is_upload_pending set_have set_state
mark_held tag_size row n s =
    let have = set n true row.have in
    let kept = set_have tag_size row.local_id have s.table in
    let whole = complete have && not (is_upload_pending row.state) in
    record s { table = if whole then set_state row.local_id in_sync kept else kept }

unfoldable pub drop_chunk : ℕ → DataRow → ℕ → DataStore → DataStore
unfolding set is_upload_pending set_have set_state remove_chunk
drop_chunk tag_size row n s =
    if is_upload_pending row.state
    then record s { drops = s.drops + 1; table = set_state row.local_id invalid s.table }
    else record {
      drops = s.drops + 1;
      files = remove_chunk s.files (data_id_of row) n;
      table =
          set_state row.local_id download_pending
            (set_have tag_size row.local_id (set n false row.have) s.table);
    }

unfoldable pub set_data_state : Octets → RecordDataState → DataStore → DataStore
unfolding find_id set_state
set_data_state id state s = elim (find_id id s.table.rows) [
  | none ↦ s
  | some row ↦ record s { table = set_state row.local_id state s.table }
]

unfoldable pub drop_chunks : ℕ → DataRow → RecordDataState → DataStore → DataStore
unfolding clear set_have set_state ChunkFiles.remove
drop_chunks tag_size row state s = record {
  drops = s.drops + 1;
  files = ChunkFiles.remove s.files (data_id_of row);
  table = set_state row.local_id state (set_have tag_size row.local_id (clear row.have) s.table);
}

unfoldable pub evict : ℕ → Octets → DataStore → DataStore × Bool
unfolding find_id drop_chunks is_upload_pending is_held_state
evict tag_size id s = elim (find_id id s.table.rows) [
  | none ↦ (s, false)
  | some row ↦ if is_upload_pending row.state then (s, false) else (
    drop_chunks tag_size row (if is_held_state row.state then removed else row.state) s,
    true,
  )
]

unfoldable pub prune : ℕ → Octets → DataStore → DataStore × Bool
unfolding find_id drop_chunks
prune tag_size id s = elim (find_id id s.table.rows) [
  | none ↦ (s, false)
  | some row ↦ (drop_chunks tag_size row pruned s, true)
]

unfoldable pub remove_one : Octets → DataStore → DataStore × ℕ
unfolding find_id DataTable.remove ChunkFiles.remove
remove_one id s = elim (find_id id s.table.rows) [
  | none ↦ (s, 0)
  | some row ↦ (
    record {
      drops = s.drops + 1;
      files = ChunkFiles.remove s.files id;
      table = DataTable.remove row.local_id s.table;
    },
    1,
  )
]

unfoldable pub remove : List Octets → DataStore → DataStore × ℕ
unfolding remove_one
remove [] s = (s, 0)
remove (id ∷ ids) s =
    let (one, k) = remove_one id s in let (all, n) = remove ids one in (all, k + n)

unfoldable pub adopt_chunk : ℕ → Octets → ℕ → Octets → DataStore → DataStore × Bool
unfolding find_id test mark_held write
adopt_chunk tag_size id n staged s = elim (find_id id s.table.rows) [
  | none ↦ (s, false)
  | some row ↦
      if test row.have n
      then (s, true)
      else (mark_held tag_size row n (record s { files = write s.files id n staged }), true)
]

unfoldable pub add_chunk : ℕ → DataRow → ℕ → Octets → DataStore → DataStore
unfolding test mark_held write
add_chunk tag_size row n encrypted s =
    if test row.have n
    then s
    else mark_held tag_size row n (record s { files = write s.files (data_id_of row) n encrypted })

module _ (tag_size : ℕ) where
  unfoldable pub drop_if_lost : DataRow → ℕ → DataStore → DataStore
  unfolding size drop_chunk chunk_enc_size
  drop_if_lost row n s =
      let lost : Bool = elim (size s.files (data_id_of row) n) [
        | none ↦ true
        | some k ↦ ltb k (chunk_enc_size tag_size row.descriptor n)
      ] in
      if lost then drop_chunk tag_size row n s else s

  unfoldable pub read_chunk : Octets → ℕ → Bool → DataStore → DataStore × Option Octets
  unfolding find_id test read drop_if_lost
  read_chunk id n readable s = elim (find_id id s.table.rows) [
    | none ↦ (s, none)
    | some row ↦
        if test row.have n
        then elim (read s.files id readable n) [
          | none ↦ (drop_if_lost row n s, none)
          | some c ↦ (s, some c)
        ]
        else (s, none)
  ]

  unfoldable pub read_chunk_piece :
      Octets → ℕ → ℕ → ℕ → Bool → DataStore → DataStore × Option Octets
  unfolding find_id test read_piece drop_if_lost chunk_holds_range
  read_chunk_piece id n offset count readable s = elim (find_id id s.table.rows) [
    | none ↦ (s, none)
    | some row ↦
        if test row.have n && chunk_holds_range tag_size row.descriptor n offset count
        then elim (read_piece s.files id readable n offset count) [
          | none ↦ (drop_if_lost row n s, none)
          | some c ↦ (s, some c)
        ]
        else (s, none)
  ]

  unfoldable pub register_descriptor : DataDescriptor → DataStore → DataStore × Option DataRow
  unfolding ensure find_id eq_descriptor
  register_descriptor d s = elim (ensure tag_size d s.table) [
    | none ↦ (s, none)
    | some (table, k) ↦ (
      record s { table = table },
      elim (find_key k table.rows) [
        | none ↦ none
        | some row ↦ if eq_descriptor row.descriptor d then some row else none
      ],
    )
  ]

  -- `data_index::reference`
  unfoldable pub reference : DataDescriptor → DataTable → Option (DataTable × ℕ)
  unfolding ensure find_key is_pruned set_state
  reference d t = elim (ensure tag_size d t) [
    | none ↦ none
    | some (table, k) ↦ elim (find_key k table.rows) [
      | none ↦ some (table, k)
      | some row ↦ some (if is_pruned row.state then set_state k deferred table else table, k)
    ]
  ]

-- The loop of `find_content`, over the rows with the content.
unfoldable pub first_usable : Octets → List DataRow → Option (DataDescriptor × DataHeader)
unfolding complete is_invalid
first_usable other [] = none
first_usable other (r ∷ rows) =
    let rest = first_usable other rows in
    elim r.header [
      | none ↦ rest
      | some h ↦
          if complete r.have && (not (eq_octets (data_id_of r) other) && not (is_invalid r.state))
          then some (r.descriptor, h)
          else rest
    ]

unfoldable pub find_content : Octets → Octets → List DataRow → Option (DataDescriptor × DataHeader)
unfolding find_by_content first_usable
find_content content_digest other rows = first_usable other (find_by_content content_digest rows)
