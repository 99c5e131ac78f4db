-- ===== src/DataStore/Serves.antt =====
-- What the store of spsync/core/data/record_data_store.cpp answers to a reader.
use spsync.Prelude.{
  ℕ, ◌≡◌, refl, sym, ◌∙◌, subst, inl, inr, Bool, true, none, some, arith, Option-cases, take,
  Octets,
}
use mathlib.Core.Option.{some-injective}
use spsync.HaveBitmap.{test}
use spsync.Manifest.{skip}
use spsync.DataTable.{DataRow, find_id}
use spsync.ChunkFiles.{read, read_piece}
use spsync.DataStore.{DataStore, read_chunk, read_chunk_piece}
use spsync.DataStore.Consistent.{IsAuthentic}
use spsync.DataStore.Keep.{Consistent, found-Held}
use spsync.DataStore.Runs.{Reach, Reach-IsConsistent}

module _ (tag_size digest_size : ℕ) (hash : Octets → Octets) where
  -- What a store answers to a reader.
  pub record Serves (s : DataStore) (id : Octets) (n : ℕ) : Type 0 where
    pub chunk :
        (readable : Bool) (c : Octets)
        → (read_chunk tag_size id n readable s).1 ≡ some c
        → IsAuthentic tag_size digest_size hash id n c
    pub piece :
        (offset count : ℕ) (readable : Bool) (p : Octets)
        → (read_chunk_piece tag_size id n offset count readable s).1 ≡ some p
        → (c : Octets) × (IsAuthentic tag_size digest_size hash id n c
            × (p ≡ take count (skip offset c)))
    pub held :
        (r : DataRow)
        → find_id id s.table.rows ≡ some r
        → test r.have n ≡ true
        → (c : Octets) × ((read_chunk tag_size id n true s) ≡ (s, some c))

  module _ (s : DataStore) (id : Octets) (n : ℕ) (v : Consistent tag_size digest_size hash s) where
    held_file :
        (r : DataRow)
        → find_id id s.table.rows ≡ some r
        → test r.have n ≡ true
        → (c : Octets) × ((s.files.chunk id n ≡ some c)
            × IsAuthentic tag_size digest_size hash id n c)
    held_file r e h = found-Held tag_size digest_size hash s id r v e n h

    read_held :
        (r : DataRow) (c : Octets) (readable : Bool)
        → find_id id s.table.rows ≡ some r
        → test r.have n ≡ true
        → read s.files id readable n ≡ some c
        → read_chunk tag_size id n readable s ≡ (s, some c)
    unfolding read_chunk
    read_held r c readable e h f = rw (e, h, f, read_chunk) refl

    read_gone :
        (readable : Bool) (c : Octets)
        → find_id id s.table.rows ≡ none
        → (read_chunk tag_size id n readable s).1 ≡ some c
        → ⊥
    unfolding read_chunk
    read_gone readable c e h = ground arith

    read_found :
        (r : DataRow) (readable : Bool) (c : Octets)
        → find_id id s.table.rows ≡ some r
        → (read_chunk tag_size id n readable s).1 ≡ some c
        → (test r.have n ≡ true) × (s.files.chunk id n ≡ some c)
    unfolding read_chunk read
    read_found r readable c e h = (ground arith, ground arith)

    piece_gone :
        (offset count : ℕ) (readable : Bool) (p : Octets)
        → find_id id s.table.rows ≡ none
        → (read_chunk_piece tag_size id n offset count readable s).1 ≡ some p
        → ⊥
    unfolding read_chunk_piece
    piece_gone offset count readable p e h = ground arith

    piece_found :
        (r : DataRow) (offset count : ℕ) (readable : Bool) (p : Octets)
        → find_id id s.table.rows ≡ some r
        → (read_chunk_piece tag_size id n offset count readable s).1 ≡ some p
        → (test r.have n ≡ true)
          × ((c : Octets) × ((s.files.chunk id n ≡ some c) × (p ≡ take count (skip offset c))))
    unfolding read_chunk_piece read_piece read
    piece_found r offset count readable p e h = elim (Option-cases (s.files.chunk id n)) [
      | inl none_there ↦ absurd (ground arith)
      | inr (c, at) ↦ (ground arith, (c, (at, ground arith)))
    ]

    serves_chunk :
        (readable : Bool) (c : Octets)
        → (read_chunk tag_size id n readable s).1 ≡ some c
        → IsAuthentic tag_size digest_size hash id n c
    serves_chunk readable c h = elim (Option-cases (find_id id s.table.rows)) [
      | inl gone ↦ absurd (read_gone readable c gone h)
      | inr (r, e) ↦
          let (held, at) = read_found r readable c e h in
          let (c', (at', real)) = held_file r e held in
          subst (IsAuthentic tag_size digest_size hash id n) (some-injective _ _ (sym at' ∙ at))
            real
    ]

    serves_piece :
        (offset count : ℕ) (readable : Bool) (p : Octets)
        → (read_chunk_piece tag_size id n offset count readable s).1 ≡ some p
        → (c : Octets) × (IsAuthentic tag_size digest_size hash id n c
            × (p ≡ take count (skip offset c)))
    serves_piece offset count readable p h = elim (Option-cases (find_id id s.table.rows)) [
      | inl gone ↦ absurd (piece_gone offset count readable p gone h)
      | inr (r, e) ↦
          let (held, (c, (at, cut_out))) = piece_found r offset count readable p e h in
          let (c', (at', real)) = held_file r e held in
          (
            c,
            (
              subst (IsAuthentic tag_size digest_size hash id n) (some-injective _ _ (sym at' ∙ at))
                  real,
              cut_out,
            ),
          )
    ]

  -- In every history of a store in which no file is lost or changed from outside, no write fails but that of a piece,
  -- and a whole data that is entered has the chunks that its digests name and replaces what is held, finds no folder of
  -- the data, or finds one that has all its chunks: whatever is read of a data at a chunk number, a chunk or a piece, is
  -- the chunk whose digest the id of the data names at that place, or the piece of it that was asked for; and every
  -- chunk that the table says is held is read when its file can be, with nothing changed.
  pub Reach-Serves :
      {s : DataStore} → Reach tag_size digest_size hash s → (id : Octets) (n : ℕ) → Serves s id n
  unfolding read
  Reach-Serves {s} r id n =
      let v = Reach-IsConsistent tag_size digest_size hash r in
      record {
        chunk = serves_chunk s id n v;
        piece = serves_piece s id n v;
        held = λ row e h.
            let (c, (at, real)) = held_file s id n v row e h in
            (c, read_held s id n v row c true e h at);
      }
