-- ===== src/ChunkFiles.antt =====
-- spsync/core/data/chunk_files.cpp: the files of the chunks of each data, and which datas have a folder. The file
-- system is outside the model: a write succeeds, and whether a file that is there can be read is an argument.
use spsync.Prelude.{
  ℕ, ◌+◌, Bool, true, false, ◌&&◌, Option, none, some, leb, ◌==◌, if◌then◌else◌, length, take,
  Octets, eq_octets,
}
use spsync.Manifest.{skip}

pub record ChunkFiles : Type 0 where
  pub chunk : Octets → ℕ → Option Octets
  pub folder : Octets → Bool

module _ (files : ChunkFiles) (id : Octets) where
  unfoldable pub write : ℕ → Octets → ChunkFiles
  write n encrypted = record {
    chunk = λ j m. if eq_octets id j && n == m then some encrypted else files.chunk j m;
    folder = λ j. if eq_octets id j then true else files.folder j;
  }

  unfoldable pub read : Bool → ℕ → Option Octets
  read readable n = if readable then files.chunk id n else none

  unfoldable pub size : ℕ → Option ℕ
  size n = elim (files.chunk id n) [ none ↦ none | some c ↦ some (length c) ]

  unfoldable pub remove_chunk : ℕ → ChunkFiles
  remove_chunk n = record files {
    chunk = λ j m. if eq_octets id j && n == m then none else files.chunk j m;
  }

  unfoldable pub remove : ChunkFiles
  remove = record {
    chunk = λ j m. if eq_octets id j then none else files.chunk j m;
    folder = λ j. if eq_octets id j then false else files.folder j;
  }

-- The staged chunks become the chunks of the data; without `replace` a data that has a folder keeps it.
unfoldable pub commit_staging : ChunkFiles → (ℕ → Option Octets) → Octets → Bool → ChunkFiles
unfolding remove
commit_staging files staged id replace =
    let cleared = if replace then remove files id else files in
    if cleared.folder id then cleared else record {
      chunk = λ j m. if eq_octets id j then staged m else cleared.chunk j m;
      folder = λ j. if eq_octets id j then true else cleared.folder j;
    }

-- A part of a file; none when it is not inside the file.
unfoldable pub read_piece : ChunkFiles → Octets → Bool → ℕ → ℕ → ℕ → Option Octets
unfolding read
read_piece files id readable n offset size = elim (read files id readable n) [
  | none ↦ none
  | some c ↦ if leb (offset + size) (length c) then some (take size (skip offset c)) else none
]
