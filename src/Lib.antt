-- ===== src/Lib.antt =====
-- A model of spsync, a library and server for storages of signed records that clients and servers
-- synchronise, with the theorems that it keeps.
--
-- A storage is a chain of blocks. Each block has one record of a client, that changes the users, changes
-- objects, or covers a segment of the chain. A server commits blocks by rules that depend on the modes of
-- the storage, keeps them in a log over a database, serves batches of them, and compares its log with
-- those of other servers. Data too large for a record goes beside the chain, in chunks that are moved
-- piece by piece.
--
-- Files and the code they model, paths from the root of the repository:
-- Sequence: spsync/util/sequence_number.hpp, with the wrap of 64 bit numbers.
-- KeyMap: the maps of the standard library whose keys are octets, as their entries in order.
-- Divergence: spsync/core/divergence.cpp: sample_sequences, find_divergence, plan_pull, plan_push. The hash that
-- a log holds at a sequence is a function.
-- Descriptor: spsync/core/data/data_descriptor.cpp. The sizes of a tag and of a digest are parameters.
-- Cursor: spsync/transfer/piece_cursor.cpp.
-- Transfer: spsync/transfer/transfer_queue.hpp. The state behind the lock is a record, a function of the class
-- is a function of the state, and the calls and callbacks it makes are a list of actions. What the class
-- leaves to its subclasses is a record, Direction, and a section parameter; in a history each step has its own, since the
-- store that the subclasses read changes.
-- HaveBitmap: spsync/core/data/have_bitmap.cpp.
-- Manifest: spsync/core/data/data_manifest.cpp. The hash and the size of a digest are parameters.
-- DataTable: spsync/core/data/data_state_table.cpp, with data_index::reference of data_index.cpp in DataStore.
-- ChunkFiles: spsync/core/data/chunk_files.cpp. The files are a function of the data and the chunk number.
-- DataStore: spsync/core/data/record_data_store.cpp: what is held of each data. The lock makes an operation one step;
-- DataStore/Checked has the operations that check digests, and the chunks that arrive in pieces, and DataStore/Runs
-- the histories in which these meet.
-- TransferRetry: spsync/transfer/transfer_retry.cpp: the waits of ended transfers. A wait that ends is a call of fire, of
-- any data and generation, so that late timers are among the histories of TransferRetry/Histories.
-- RebasePolicy: spsync/engine/rebase_policy.cpp, with the state that spsync/engine/sync_engine.cpp gives it.
-- Users: spsync/core/users.cpp.
-- UserMerge: spsync/core/user_merge.cpp.
-- SyncMode: spsync/core/sync_mode.hpp.
-- Records: spsync/core/records. Serialisation, hashes and signatures are parameters where they are used.
-- RecordStorage: spsync/core/record_storage.cpp. A table is a list of rows in the order of the keys, an SQL query
-- is a function of it, and the UNIQUE columns are a test at an insertion.
-- ChainLog: spsync/server/server_lib/chain_log.cpp, with its queries by origin in ChainLog/Origins.
-- ChainRules and ChainSync: spsync/server/server_lib/chain_sync.cpp: the rules, and the commits that apply them.
-- StorageHeads: spsync/server/server_lib/storage_heads.cpp.
-- Prelude: names and lemmas that the others share.
--
-- Bounds and fuel: a 64 bit number is a natural number with its wrap written out. The loop of sample_sequences
-- has 63 rounds, as the code bounds its shift. The walk of saw has one round more than the map has entries,
-- which is the guard of the code. The loop of fill_window has two rounds more than the window: each but the
-- last sends a piece. An exception is a none of the function that throws it, and a commit
-- answers it with the error thrown_error, which stands for the error that was thrown or exception_occurred.
--
-- Not modelled: encryption, serialisation, the network, logging, threads beyond the order of the locked
-- steps, the encryption of chunks and the handles that read a data, the data servers, the sync engine but for its
-- rebase policy, and the group chat application. In the data store a file that is written is there until the store
-- removes it, and a write succeeds, but for that of a piece; that a file cannot be read for a while is modelled.
pub mod Prelude
pub mod Sequence
pub mod KeyMap
pub mod HaveBitmap
pub mod Manifest
pub mod DataTable
pub mod ChunkFiles
pub mod DataStore
pub mod RebasePolicy
pub mod TransferRetry
pub mod Divergence
pub mod Descriptor
pub mod Cursor
pub mod Transfer
pub mod Users
pub mod UserMerge
pub mod Records
pub mod RecordStorage
pub mod ChainLog
pub mod ChainRules
pub mod ChainSync
pub mod SyncMode
pub mod StorageHeads
