-- ===== src/DataStore/Verified.antt =====
-- What spsync/core/data/record_data_store.cpp checks against the digests is authentic, and the store stays consistent.
use spsync.Prelude.{
  ℕ, ◌≡◌, refl, sym, ◌∙◌, subst, inl, inr, Bool, true, false, none, some, List, arith,
  if◌then◌else◌, Bool-cases, Option-cases, Octets, eq_octets_iff,
}
use spsync.Descriptor.{DataDescriptor}
use spsync.Manifest.{joined, matches, verify_chunk, from_octets}
use spsync.Manifest.Laws.{verify_chunk-digest_at}
use spsync.DataTable.{invalid, DataRow, find_id, find_key, set_state, set_digests, ensure}
use spsync.DataTable.Laws.{find_id-id}
use spsync.DataStore.{DataStore, eq_descriptor, drop_chunk, register_descriptor}
use spsync.DataStore.Checked.{manifest, store_chunk, chunk_failed, set_manifest, register_data}
use spsync.DataStore.Consistent.{IsAuthentic, set_state-IsConsistent}
use spsync.DataStore.Keep.{Consistent, found-IsSound, drop_chunk-IsConsistent}
use spsync.DataStore.Register.{ensure-Ensured, set_digests-IsConsistent}
use spsync.DataStore.Operations.{add_chunk-IsConsistent}

module _ (tag_size digest_size : ℕ) (hash : Octets → Octets) where
  abbrev Ok : DataStore → Type 0
  Ok = Consistent tag_size digest_size hash

  manifest_absent :
      (s : DataStore) (id : Octets)
      → find_id id s.table.rows ≡ none
      → manifest tag_size digest_size hash id s ≡ none
  unfolding manifest
  manifest_absent s id e = rw (e, manifest) refl

  manifest_unknown :
      (s : DataStore) (id : Octets) (r : DataRow)
      → find_id id s.table.rows ≡ some r
      → r.digests ≡ none
      → manifest tag_size digest_size hash id s ≡ none
  unfolding manifest
  manifest_unknown s id r e k = rw (e, k, manifest) refl

  pub manifest_known :
      (s : DataStore) (id : Octets) (r : DataRow) (blob : Octets)
      → find_id id s.table.rows ≡ some r
      → r.digests ≡ some blob
      → manifest tag_size digest_size hash id s ≡ from_octets digest_size blob
  unfolding manifest
  manifest_known s id r blob e k = rw (e, k, manifest) refl

  -- What verifies against the manifest that the store keeps is authentic.
  verified-IsAuthentic :
      (s : DataStore) (id : Octets) (digests : List Octets) (n : ℕ) (c : Octets)
      → Ok s
      → manifest tag_size digest_size hash id s ≡ some digests
      → verify_chunk hash digests n c ≡ true
      → IsAuthentic tag_size digest_size hash id n c
  verified-IsAuthentic s id digests n c v e h = elim (Option-cases (find_id id s.table.rows)) [
    | inl gone ↦ cc (manifest_absent s id gone)
    | inr (r, at) ↦ elim (Option-cases r.digests) [
      | inl unknown ↦ cc (manifest_unknown s id r at unknown)
      | inr (blob, known) ↦ record {
        blob = blob;
        named =
            (found-IsSound tag_size digest_size hash s id r v at).named blob known
            ∙ find_id-id id s.table.rows r at;
        digest =
            verify_chunk-digest_at digest_size hash blob digests n c
              (sym (manifest_known s id r blob at known) ∙ e) h;
      }
    ]
  ]

  pub store_chunk-IsConsistent :
      (s : DataStore) (id : Octets) (n : ℕ) (c : Octets)
      → Ok s
      → Ok (store_chunk tag_size digest_size hash id n c s).0
  unfolding store_chunk
  store_chunk-IsConsistent s id n c v =
      elim (Option-cases (manifest tag_size digest_size hash id s)) [
        | inl unknown ↦ rw (unknown, store_chunk) v
        | inr (digests, known) ↦ elim (Bool-cases (verify_chunk hash digests n c)) [
          | inr false_chunk ↦ rw (known, false_chunk, store_chunk) v
          | inl verified ↦ elim (Option-cases (find_id id s.table.rows)) [
            | inl gone ↦ rw (known, verified, gone, store_chunk) v
            | inr (r, e) ↦
                rw (known, verified, e, store_chunk)
                  (add_chunk-IsConsistent tag_size digest_size hash s id r n c v e
                    (verified-IsAuthentic s id digests n c v known verified))
          ]
        ]
      ]

  pub chunk_failed-IsConsistent :
      (s : DataStore) (id : Octets) (n : ℕ) (c : Octets)
      → Ok s
      → Ok (chunk_failed tag_size digest_size hash id n c s)
  unfolding chunk_failed
  chunk_failed-IsConsistent s id n c v = elim (Option-cases (find_id id s.table.rows)) [
    | inl gone ↦ rw (gone, chunk_failed) v
    | inr (r, e) ↦ rw (e, chunk_failed) (go r e _)
  ]
    where
      go :
          (r : DataRow)
          → find_id id s.table.rows ≡ some r
          → (rotten : Bool)
          → Ok (
              if rotten
              then drop_chunk tag_size r n s
              else record s { table = set_state r.local_id invalid s.table })
      go r e true =
          drop_chunk-IsConsistent tag_size digest_size hash s id r v e n
            (find_id-id id s.table.rows r e)
      go r e false = set_state-IsConsistent tag_size digest_size hash s r.local_id invalid v

  matched :
      (digests : List Octets) (d : DataDescriptor)
      → matches tag_size hash digests d ≡ true
      → hash (joined digests) ≡ d.manifest_digest
  unfolding matches
  matched digests d h = (eq_octets_iff (hash (joined digests)) d.manifest_digest).0 (ground arith)

  pub set_manifest-IsConsistent :
      (s : DataStore) (id : Octets) (digests : List Octets)
      → Ok s
      → Ok (set_manifest tag_size digest_size hash id digests s).0
  unfolding set_manifest
  set_manifest-IsConsistent s id digests v = elim (Option-cases (find_id id s.table.rows)) [
    | inl gone ↦ rw (gone, set_manifest) v
    | inr (r, e) ↦ elim (Bool-cases (matches tag_size hash digests r.descriptor)) [
      | inr other ↦ rw (e, other, set_manifest) v
      | inl same ↦
          rw (e, same, set_manifest)
            (set_digests-IsConsistent tag_size digest_size hash s id r (joined digests) v e
              (matched digests r.descriptor same ∙ find_id-id id s.table.rows r e))
    ]
  ]

  pub register_descriptor-IsConsistent :
      (s : DataStore) (d : DataDescriptor) → Ok s → Ok (register_descriptor tag_size d s).0
  unfolding register_descriptor
  register_descriptor-IsConsistent s d v = elim (Option-cases (ensure tag_size d s.table)) [
    | inl refused ↦ rw (refused, register_descriptor) v
    | inr ((t, k), e) ↦
        rw (e, register_descriptor)
          (ensure-Ensured tag_size digest_size hash s d t k v e).consistent
  ]

  pub register_data-IsConsistent :
      (s : DataStore) (d : DataDescriptor) (digests : List Octets)
      → Ok s
      → Ok (register_data tag_size digest_size hash d digests s).0
  unfolding register_data
  register_data-IsConsistent s d digests v = elim (Bool-cases (matches tag_size hash digests d)) [
    | inr other ↦ rw (other, register_data) v
    | inl same ↦ elim (Option-cases (ensure tag_size d s.table)) [
      | inl refused ↦ rw (same, refused, register_data) v
      | inr ((t, k), e) ↦
          let n = ensure-Ensured tag_size digest_size hash s d t k v e in
          let entered =
            subst (λ k. Ok (record s { table = set_digests k (joined digests) t })) n.keyed
              (set_digests-IsConsistent tag_size digest_size hash (record s { table = t })
                d.manifest_digest n.row (joined digests) n.consistent n.found
                (matched digests d same)) in
          elim (Option-cases (find_key k t.rows)) [
            | inl lost ↦ rw (same, e, lost, register_data) n.consistent
            | inr (r, at) ↦ elim (Bool-cases (eq_descriptor r.descriptor d)) [
              | inl known ↦ rw (same, e, at, known, register_data) entered
              | inr other ↦ rw (same, e, at, other, register_data) n.consistent
            ]
          ]
    ]
  ]
