-- ===== src/DataStore/Expected.antt =====
-- A chunk of spsync/core/data/record_data_store.cpp that arrives in pieces is checked against a digest that the id of its
-- data names.
use spsync.Prelude.{
  ℕ, ◌≡◌, refl, sym, ap, ◌∙◌, subst, inl, inr, Bool, true, false, ◌&&◌, none, some, ◌++◌, arith,
  ltb, ◌==◌, Bool-cases, Option-cases, length, Octets, eq_octets_iff,
}
use mathlib.Core.Option.{some-injective}
use spsync.Descriptor.{chunk_count, chunk_enc_size}
use spsync.Manifest.Laws.{digest_at}
use spsync.DataTable.{DataRow, find_id}
use spsync.DataTable.Laws.{find_id-id}
use spsync.DataStore.{DataStore}
use spsync.DataStore.Checked.{
  IncomingChunk, discard, append_piece, begin_chunk, finish, fits, is_whole, begun_chunk,
}
use spsync.DataStore.Keep.{Consistent, found-IsSound}
use spsync.DataStore.Operations.{adopt_chunk-IsConsistent}

module _ (tag_size digest_size : ℕ) (hash : Octets → Octets) where
  -- A chunk that arrives is checked against a digest that the id names.
  pub record IsExpected (c : IncomingChunk) : Type 0 where
    pub blob : Octets
    pub named : hash blob ≡ c.id
    pub digest : digest_at digest_size blob c.chunk_no ≡ c.expected_digest
    pub same : c.is_open ≡ true → c.staged ≡ c.hashed

  pub append_piece-IsExpected :
      (c : IncomingChunk) (offset : ℕ) (piece : Octets) (written : Bool)
      → IsExpected c
      → IsExpected (append_piece offset piece written c).0
  unfolding append_piece discard
  append_piece-IsExpected c offset piece written h = elim (Bool-cases (fits offset piece c)) [
    | inr off ↦
        rw (off, append_piece)
          (record { blob = h.blob; named = h.named; digest = h.digest; same = λ e. cc })
    | inl on ↦ elim (Bool-cases written) [
      | inr lost ↦
          rw (on, lost, append_piece)
            (record { blob = h.blob; named = h.named; digest = h.digest; same = λ e. cc })
      | inl kept ↦
          rw (on, kept, append_piece)
            (record {
              blob = h.blob;
              named = h.named;
              digest = h.digest;
              same = λ e. ap (λ t. t ++ piece) (h.same e);
            })
    ]
  ]

  begin_absent :
      (s : DataStore) (id : Octets) (n : ℕ)
      → find_id id s.table.rows ≡ none
      → begin_chunk tag_size digest_size hash id n s ≡ none
  unfolding begin_chunk
  begin_absent s id n e = rw (e, begin_chunk) refl

  begin_unknown :
      (s : DataStore) (id : Octets) (n : ℕ) (r : DataRow)
      → find_id id s.table.rows ≡ some r
      → r.digests ≡ none
      → begin_chunk tag_size digest_size hash id n s ≡ none
  unfolding begin_chunk
  begin_unknown s id n r e k = rw (e, k, begin_chunk) refl

  begin_past :
      (s : DataStore) (id : Octets) (n : ℕ) (r : DataRow) (blob : Octets)
      → find_id id s.table.rows ≡ some r
      → r.digests ≡ some blob
      → (ltb n (chunk_count tag_size r.descriptor)
          && (length (digest_at digest_size blob n) == digest_size))
        ≡ false
      → begin_chunk tag_size digest_size hash id n s ≡ none
  unfolding begin_chunk
  begin_past s id n r blob e k f = rw (e, k, f, begin_chunk) refl

  begin_at :
      (s : DataStore) (id : Octets) (n : ℕ) (r : DataRow) (blob : Octets)
      → find_id id s.table.rows ≡ some r
      → r.digests ≡ some blob
      → (ltb n (chunk_count tag_size r.descriptor)
          && (length (digest_at digest_size blob n) == digest_size))
        ≡ true
      → begin_chunk tag_size digest_size hash id n s
        ≡ some (
            begun_chunk id n
              (chunk_enc_size tag_size r.descriptor n)
              (digest_at digest_size blob n))
  unfolding begin_chunk
  begin_at s id n r blob e k f = rw (e, k, f, begin_chunk) refl

  -- A chunk that begins is that of a row whose digests are known.
  pub record Begun (s : DataStore) (id : Octets) (n : ℕ) (c : IncomingChunk) : Type 0 where
    pub row : DataRow
    pub blob : Octets
    pub found : find_id id s.table.rows ≡ some row
    pub known : row.digests ≡ some blob
    pub form :
        begun_chunk id n (chunk_enc_size tag_size row.descriptor n) (digest_at digest_size blob n)
        ≡ c

  pub begin_chunk-Begun :
      (s : DataStore) (id : Octets) (n : ℕ) (c : IncomingChunk)
      → begin_chunk tag_size digest_size hash id n s ≡ some c
      → Begun s id n c
  begin_chunk-Begun s id n c e = elim (Option-cases (find_id id s.table.rows)) [
    | inl gone ↦ cc (begin_absent s id n gone)
    | inr (r, at) ↦ elim (Option-cases r.digests) [
      | inl unknown ↦ cc (begin_unknown s id n r at unknown)
      | inr (blob, known) ↦
          elim (Bool-cases (
            ltb n (chunk_count tag_size r.descriptor)
            && (length (digest_at digest_size blob n) == digest_size))) [
              | inr past ↦ cc (begin_past s id n r blob at known past)
              | inl inside ↦ record {
                row = r;
                blob = blob;
                found = at;
                known = known;
                form = some-injective _ _ (sym (begin_at s id n r blob at known inside) ∙ e);
              }
            ]
    ]
  ]

  pub begin_chunk-IsExpected :
      (s : DataStore) (id : Octets) (n : ℕ) (c : IncomingChunk)
      → Consistent tag_size digest_size hash s
      → begin_chunk tag_size digest_size hash id n s ≡ some c
      → IsExpected c
  unfolding begun_chunk
  begin_chunk-IsExpected s id n c v e =
      let b = begin_chunk-Begun s id n c e in
      subst IsExpected b.form (record {
        blob = b.blob;
        named =
            (found-IsSound tag_size digest_size hash s id b.row v b.found).named b.blob b.known
            ∙ find_id-id id s.table.rows b.row b.found;
        digest = refl;
        same = λ _. refl;
      })

  whole_digest : (c : IncomingChunk) → is_whole hash c ≡ true → hash c.hashed ≡ c.expected_digest
  unfolding is_whole
  whole_digest c h = (eq_octets_iff (hash c.hashed) c.expected_digest).0 (ground arith)

  whole_open : (c : IncomingChunk) → is_whole hash c ≡ true → c.is_open ≡ true
  unfolding is_whole
  whole_open c h = ground arith

  pub finish-IsConsistent :
      (s : DataStore) (c : IncomingChunk)
      → Consistent tag_size digest_size hash s
      → IsExpected c
      → Consistent tag_size digest_size hash (finish tag_size digest_size hash c s).1.0
  unfolding finish
  finish-IsConsistent s c v h = elim (Bool-cases (is_whole hash c)) [
    | inr part ↦ rw (part, finish) v
    | inl whole ↦
        rw (whole, finish)
          (adopt_chunk-IsConsistent tag_size digest_size hash s c.id c.chunk_no c.staged v (record {
            blob = h.blob;
            named = h.named;
            digest =
                h.digest ∙ sym (whole_digest c whole) ∙ ap hash (sym (h.same (whole_open c whole)));
          }))
  ]
