-- ===== src/DataStore/Runs.antt =====
-- The histories of a store of spsync/core/data/record_data_store.cpp: its operations in any order, with chunks that
-- arrive in pieces meanwhile. A file that is there may fail to be read; no file is lost or changed from outside, and no
-- write fails but that of a piece. A whole data that is entered replaces what is held of it, finds no folder of it, or
-- finds one with all its chunks, which stays: a folder that stays with chunks missing is not among the histories.
use spsync.Prelude.{ℕ, ◌≡◌, Bool, false, Option, none, some, List, [], Octets}
use spsync.Descriptor.{DataDescriptor, chunk_count}
use spsync.DataTable.{RecordDataState}
use spsync.DataStore.{
  DataStore, Encrypted, set_data_state, evict, prune, remove, read_chunk, read_chunk_piece,
  register_descriptor,
}
use spsync.DataStore.Checked.{
  IncomingChunk, append_piece, store_chunk, chunk_failed, set_manifest, register_data,
  register_held, begin_chunk, finish,
}
use spsync.DataStore.Keep.{Consistent}
use spsync.DataStore.Staging.{TakesPlace}
use spsync.DataStore.Whole.{IsWhole, register_held-IsConsistent, remove-IsConsistent}
use spsync.DataStore.Operations.{
  set_data_state-IsConsistent, evict-IsConsistent, prune-IsConsistent, read_chunk-IsConsistent,
  read_chunk_piece-IsConsistent,
}
use spsync.DataStore.Verified.{
  store_chunk-IsConsistent, chunk_failed-IsConsistent, set_manifest-IsConsistent,
  register_descriptor-IsConsistent, register_data-IsConsistent,
}
use spsync.DataStore.Expected.{
  IsExpected, append_piece-IsExpected, begin_chunk-IsExpected, finish-IsConsistent,
}

abbrev pub empty_store : DataStore
empty_store = record {
  table = record { rows = []; next_key = 1 };
  files = record { chunk = λ id n. none; folder = λ id. false };
  drops = 0;
}

module _ (tag_size digest_size : ℕ) (hash : Octets → Octets) where
  mutual
    pub data Reach : DataStore → Type 0 where
      start : Reach empty_store
      stored :
          {s : DataStore}
          → Reach s
          → (id : Octets) (n : ℕ) (c : Octets)
          → Reach (store_chunk tag_size digest_size hash id n c s).0
      chunk_read :
          {s : DataStore}
          → Reach s
          → (id : Octets) (n : ℕ) (readable : Bool) → Reach (read_chunk tag_size id n readable s).0
      piece_read :
          {s : DataStore}
          → Reach s
          → (id : Octets) (n offset count : ℕ) (readable : Bool)
          → Reach (read_chunk_piece tag_size id n offset count readable s).0
      failed :
          {s : DataStore}
          → Reach s
          → (id : Octets) (n : ℕ) (c : Octets)
          → Reach (chunk_failed tag_size digest_size hash id n c s)
      evicted : {s : DataStore} → Reach s → (id : Octets) → Reach (evict tag_size id s).0
      cut : {s : DataStore} → Reach s → (id : Octets) → Reach (prune tag_size id s).0
      deleted : {s : DataStore} → Reach s → (ids : List Octets) → Reach (remove ids s).0
      labelled :
          {s : DataStore}
          → Reach s
          → (id : Octets) (state : RecordDataState) → Reach (set_data_state id state s)
      described :
          {s : DataStore}
          → Reach s
          → (d : DataDescriptor) → Reach (register_descriptor tag_size d s).0
      registered :
          {s : DataStore}
          → Reach s
          → (d : DataDescriptor) (digests : List Octets)
          → Reach (register_data tag_size digest_size hash d digests s).0
      listed :
          {s : DataStore}
          → Reach s
          → (id : Octets) (digests : List Octets)
          → Reach (set_manifest tag_size digest_size hash id digests s).0
      entered :
          {s s' : DataStore}
          → Reach s
          → (staged : ℕ → Option Octets) (result : Encrypted) (state : RecordDataState)
            (replace : Bool)
          → IsWhole tag_size digest_size hash staged result
          → TakesPlace tag_size digest_size hash s.files result.descriptor.manifest_digest
              (chunk_count tag_size result.descriptor)
              replace
          → register_held tag_size digest_size hash staged result state replace s ≡ some s'
          → Reach s'
      finished :
          {s : DataStore} {c : IncomingChunk}
          → Reach s
          → Receiving c
          → Reach (finish tag_size digest_size hash c s).1.0

    -- A chunk that was begun at some store of the history, with the pieces it was given since.
    pub data Receiving : IncomingChunk → Type 0 where
      begun :
          {s : DataStore} {c : IncomingChunk}
          → Reach s
          → (id : Octets) (n : ℕ) → begin_chunk tag_size digest_size hash id n s ≡ some c
          → Receiving c
      appended :
          {c : IncomingChunk}
          → Receiving c
          → (offset : ℕ) (piece : Octets) (written : Bool)
          → Receiving (append_piece offset piece written c).0

  mutual
    pub Reach-IsConsistent : {s : DataStore} → Reach s → Consistent tag_size digest_size hash s
    Reach-IsConsistent start = record { distinct = tt; keys = tt; sound = tt }
    Reach-IsConsistent (stored r id n c) =
        store_chunk-IsConsistent tag_size digest_size hash _ id n c (Reach-IsConsistent r)
    Reach-IsConsistent (chunk_read r id n readable) =
        read_chunk-IsConsistent tag_size digest_size hash _ id n readable (Reach-IsConsistent r)
    Reach-IsConsistent (piece_read r id n offset count readable) =
        read_chunk_piece-IsConsistent tag_size digest_size hash _ id n offset count readable
          (Reach-IsConsistent r)
    Reach-IsConsistent (failed r id n c) =
        chunk_failed-IsConsistent tag_size digest_size hash _ id n c (Reach-IsConsistent r)
    Reach-IsConsistent (evicted r id) =
        evict-IsConsistent tag_size digest_size hash _ id (Reach-IsConsistent r)
    Reach-IsConsistent (cut r id) =
        prune-IsConsistent tag_size digest_size hash _ id (Reach-IsConsistent r)
    Reach-IsConsistent (deleted r ids) =
        remove-IsConsistent tag_size digest_size hash ids _ (Reach-IsConsistent r)
    Reach-IsConsistent (labelled r id state) =
        set_data_state-IsConsistent tag_size digest_size hash _ id state (Reach-IsConsistent r)
    Reach-IsConsistent (described r d) =
        register_descriptor-IsConsistent tag_size digest_size hash _ d (Reach-IsConsistent r)
    Reach-IsConsistent (registered r d digests) =
        register_data-IsConsistent tag_size digest_size hash _ d digests (Reach-IsConsistent r)
    Reach-IsConsistent (listed r id digests) =
        set_manifest-IsConsistent tag_size digest_size hash _ id digests (Reach-IsConsistent r)
    Reach-IsConsistent (entered r staged result state replace w p e) =
        register_held-IsConsistent tag_size digest_size hash staged result state replace _ _
          (Reach-IsConsistent r) w p e
    Reach-IsConsistent (finished r c) =
        finish-IsConsistent tag_size digest_size hash _ _ (Reach-IsConsistent r)
          (Receiving-IsExpected c)

    Receiving-IsExpected :
        {c : IncomingChunk} → Receiving c → IsExpected tag_size digest_size hash c
    Receiving-IsExpected (begun r id n e) =
        begin_chunk-IsExpected tag_size digest_size hash _ id n _ (Reach-IsConsistent r) e
    Receiving-IsExpected (appended c offset piece written) =
        append_piece-IsExpected tag_size digest_size hash _ offset piece written
          (Receiving-IsExpected c)
