-- ===== src/DataStore/Complete.antt =====
-- When the chunks that spsync/core/data/record_data_store.cpp stores make a data whole.
use spsync.Prelude.{
  ℕ, ◌<◌, ◌≡◌, refl, sym, ◌∙◌, subst, ◌⊎◌, inl, inr, Bool, true, false, ◌||◌, some, List, [], ◌∷◌,
  arith, ◌==◌, if◌then◌else◌, Bool-cases, ==_iff, All, Any, Octets,
}
use spsync.HaveBitmap.{test, set, complete}
use spsync.HaveBitmap.Laws.{IsValid}
use spsync.HaveBitmap.Changes.{test-set, chunk_count-set}
use spsync.Manifest.{verify_chunk, from_octets}
use spsync.DataTable.{in_sync, DataRow, find_id, data_id_of}
use spsync.ChunkFiles.{write}
use spsync.DataStore.{DataStore, is_upload_pending, add_chunk}
use spsync.DataStore.Checked.{store_chunk}
use spsync.DataStore.Keep.{Consistent, found-IsSound}
use spsync.DataStore.Verified.{store_chunk-IsConsistent, manifest_known}
use spsync.DataStore.Marked.{
  marked, mark_held-marked, complete_of_all, not_pending, in_if, or_true, or_false,
}

module _ (tag_size digest_size : ℕ) (hash : Octets → Octets) where
  -- The chunks given one after the other.
  unfoldable pub store_all : Octets → List (ℕ × Octets) → DataStore → DataStore
  store_all id [] s = s
  store_all id ((n, c) ∷ chunks) s =
      store_all id chunks (store_chunk tag_size digest_size hash id n c s).0

  module _ (id blob : Octets) (digests : List Octets)
      (decoded : from_octets digest_size blob ≡ some digests) where
    -- A data that is downloaded: it is in sync once it is whole.
    pub record Downloads (s : DataStore) (r : DataRow) : Type 0 where
      pub consistent : Consistent tag_size digest_size hash s
      pub found : find_id id s.table.rows ≡ some r
      pub known : r.digests ≡ some blob
      pub downloading : is_upload_pending r.state ≡ false
      pub whole : complete r.have ≡ true → r.state ≡ in_sync

    -- The chunk is held, or it is among those to store.
    abbrev pub Has : DataRow → List (ℕ × Octets) → ℕ → Type 0
    Has r chunks m = (test r.have m ≡ true) ⊎ Any (λ e. e.0 ≡ m) chunks

    abbrev pub Verifies : ℕ × Octets → Type 0
    Verifies e = verify_chunk hash digests e.0 e.1 ≡ true

    stored_row : DataRow → ℕ → DataRow
    stored_row r n = if test r.have n then r else marked tag_size digest_size hash r n

    store_step :
        (s : DataStore) (r : DataRow) (n : ℕ) (c : Octets)
        → Downloads s r
        → Verifies (n, c)
        → find_id id (store_chunk tag_size digest_size hash id n c s).0.table.rows
          ≡ some (stored_row r n)
    unfolding store_chunk add_chunk stored_row
    store_step s r n c d h =
        let kept = manifest_known tag_size digest_size hash s id r blob d.found d.known ∙ decoded in
        let w = found-IsSound tag_size digest_size hash s id r d.consistent d.found in
        elim (Bool-cases (test r.have n)) [
          | inl held ↦ rw (kept, h, d.found, store_chunk) (rw (held, add_chunk) d.found)
          | inr off ↦
              rw (kept, h, d.found, store_chunk)
                (rw (off, add_chunk)
                  (mark_held-marked tag_size digest_size hash
                    (record s { files = write s.files (data_id_of r) n c }) id r n w.valid w.sized
                    d.found))
        ]

    stored_digests : (r : DataRow) (n : ℕ) → (stored_row r n).digests ≡ r.digests
    unfolding stored_row marked
    stored_digests r n = ground arith

    stored_count : (r : DataRow) (n : ℕ) → (stored_row r n).have.chunk_count ≡ r.have.chunk_count
    unfolding stored_row marked
    stored_count r n = ground (arith, chunk_count-set r.have n true)

    stored_wanted :
        (r : DataRow) (n : ℕ)
        → is_upload_pending r.state ≡ false
        → is_upload_pending (stored_row r n).state ≡ false
    unfolding stored_row marked
    stored_wanted r n h = elim (Bool-cases (test r.have n)) [
      | inl held ↦ rw held h
      | inr off ↦ elim (Bool-cases (complete (set n true r.have))) [
        | inl all ↦ rw (off, all, h) not_pending
        | inr some_left ↦ rw (off, some_left) h
      ]
    ]

    stored_whole :
        (r : DataRow) (n : ℕ)
        → is_upload_pending r.state ≡ false
        → (complete r.have ≡ true → r.state ≡ in_sync)
        → complete (stored_row r n).have ≡ true
        → (stored_row r n).state ≡ in_sync
    unfolding stored_row marked
    stored_whole r n u h e = elim (Bool-cases (test r.have n)) [
      | inl held ↦ rw held (
          h (
            subst
              (λ (b : Bool).
                complete (if b then r else marked tag_size digest_size hash r n).have ≡ true)
              held e))
      | inr off ↦
          let all : complete (set n true r.have) ≡ true =
            subst
              (λ (b : Bool).
                complete (if b then r else marked tag_size digest_size hash r n).have ≡ true)
              off e in
          rw (off, all, u) refl
    ]

    stored_test :
        (r : DataRow) (n m : ℕ)
        → IsValid r.have
        → m < r.have.chunk_count
        → test (stored_row r n).have m ≡ (test r.have m || n == m)
    unfolding stored_row marked
    stored_test r n m v l = elim (Bool-cases (test r.have n)) [
      | inl held ↦ elim (Bool-cases (n == m)) [
        | inl at ↦ rw (held, at, subst (λ k. test r.have k ≡ true) ((==_iff n m).0 at) held) refl
        | inr away ↦ rw (held, away) (sym (or_false (test r.have m)))
      ]
      | inr off ↦
          rw (off, test-set r.have n true v m) (in_if n m r.have.chunk_count (test r.have m) l)
    ]

    stored_row-Downloads :
        (s : DataStore) (r : DataRow) (n : ℕ) (c : Octets)
        → Downloads s r
        → Verifies (n, c)
        → Downloads (store_chunk tag_size digest_size hash id n c s).0 (stored_row r n)
    stored_row-Downloads s r n c d h = record {
      consistent = store_chunk-IsConsistent tag_size digest_size hash s id n c d.consistent;
      found = store_step s r n c d h;
      known = stored_digests r n ∙ d.known;
      downloading = stored_wanted r n d.downloading;
      whole = stored_whole r n d.downloading d.whole;
    }

    stored-Has :
        (s : DataStore) (r : DataRow) (n : ℕ) (c : Octets) (chunks : List (ℕ × Octets)) (m : ℕ)
        → Downloads s r
        → m < r.have.chunk_count
        → Has r ((n, c) ∷ chunks) m
        → Has (stored_row r n) chunks m
    stored-Has s r n c chunks m d l (inl held) = inl (
        stored_test r n m
          (found-IsSound tag_size digest_size hash s id r d.consistent d.found).valid l
        ∙ rw held refl)
    stored-Has s r n c chunks m d l (inr (inl at)) = inl (
        stored_test r n m
          (found-IsSound tag_size digest_size hash s id r d.consistent d.found).valid l
        ∙ rw ((==_iff n m).1 at) (or_true (test r.have m)))
    stored-Has s r n c chunks m d l (inr (inr later)) = inr later

    -- Where a data is in the end.
    pub record Done (s : DataStore) : Type 0 where
      pub row : DataRow
      pub found : find_id id s.table.rows ≡ some row
      pub whole : complete row.have ≡ true
      pub state : row.state ≡ in_sync

    -- When chunks that verify against the manifest of a data, all that are missing among them, are stored one after the
    -- other in any order, the data is whole and in sync in the end. Before, its manifest is known, it is not one that
    -- is still to be uploaded, and it is in sync if it is whole.
    pub store_all-Done :
        (chunks : List (ℕ × Octets)) (s : DataStore) (r : DataRow)
        → Downloads s r
        → All Verifies chunks
        → ((m : ℕ) → m < r.have.chunk_count → Has r chunks m)
        → Done (store_all id chunks s)
    unfolding store_all
    store_all-Done [] s r d h all =
        let w = found-IsSound tag_size digest_size hash s id r d.consistent d.found in
        let whole =
          complete_of_all tag_size digest_size hash r.have w.valid
            (λ m l. elim (all m l) [ inl t ↦ t | inr k ↦ absurd k ]) in
        record { row = r; found = d.found; whole = whole; state = d.whole whole }
    store_all-Done ((n, c) ∷ chunks) s r d h all =
        store_all-Done chunks (store_chunk tag_size digest_size hash id n c s).0 (stored_row r n)
          (stored_row-Downloads s r n c d h.0) h.1
          (λ m l.
            let l' : m < r.have.chunk_count = subst (λ k. m < k) (stored_count r n) l in
            stored-Has s r n c chunks m d l' (all m l'))
