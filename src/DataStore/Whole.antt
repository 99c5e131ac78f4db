-- ===== src/DataStore/Whole.antt =====
-- How a whole data is entered, and how datas are removed, in spsync/core/data/record_data_store.cpp: the store stays
-- consistent.
use spsync.Prelude.{
  ℕ, ◌+◌, ◌<◌, ◌≡◌, refl, sym, ap, ◌∙◌, subst, ◌≢◌, inl, inr, Bool, true, Option, none, some, List,
  [], ◌∷◌, arith, Option-cases, u64_mod, All-both, Octets,
}
use mathlib.Core.Option.{some-injective}
use spsync.Descriptor.{chunk_count}
use spsync.HaveBitmap.{HaveBitmap, set_all, nothing_held}
use spsync.HaveBitmap.Bits.{bit_at}
use spsync.HaveBitmap.Laws.{IsValid}
use spsync.HaveBitmap.Changes.{nothing_held-IsValid, set_all-IsValid}
use spsync.Manifest.{joined}
use spsync.Manifest.Laws.{digest_at}
use spsync.DataTable.{
  RecordDataState, DataHeader, DataRow, DataTable, find_id, find_key, data_id_of, update, set_state,
  set_have, set_digests, set_header, ensure, new_row, delete,
}
use spsync.DataTable
use spsync.DataTable.Laws.{
  Other, find_id-id, find_id-only, find_id-update, All-delete, delete-Distinct,
}
use spsync.ChunkFiles.{ChunkFiles, commit_staging}
use spsync.ChunkFiles
use spsync.DataStore.{DataStore, Encrypted, remove_one, remove}
use spsync.DataStore.Consistent.{elsewhere-IsSound, set_state-IsConsistent, set_header-IsConsistent}
use spsync.DataStore.Staging.{TakesPlace, commit_else, commit-Held}
use spsync.DataStore.Keep.{Consistent, Sound, set_have-IsConsistent}
use spsync.HaveBitmap.Laws.{bit_at-lt}
use spsync.DataStore.Checked.{register_held}
use spsync.DataStore.Register.{ensure-Ensured, ensured_count, set_digests-IsConsistent}

set_digests_found :
    (id : Octets) (t : DataTable) (r : DataRow) (blob : Octets)
    → find_id id t.rows ≡ some r
    → find_id id (set_digests r.local_id blob t).rows ≡ some (record r { digests = some blob })
unfolding set_digests
set_digests_found id t r blob e =
    find_id-update r.local_id (λ r. record r { digests = some blob }) id t.rows (λ r. (refl, refl))
    ∙ rw e (ap some (ground arith))

set_header_found :
    (id : Octets) (t : DataTable) (r : DataRow) (header : DataHeader)
    → find_id id t.rows ≡ some r
    → find_id id (set_header r.local_id header t).rows ≡ some (record r { header = some header })
unfolding set_header
set_header_found id t r header e =
    find_id-update r.local_id (λ r. record r { header = some header }) id t.rows (λ r. (refl, refl))
    ∙ rw e (ap some (ground arith))

module _ (tag_size digest_size : ℕ) (hash : Octets → Octets) where
  -- What an encryptor leaves: the digests that the id names, and all chunks, each with its digest.
  pub record IsWhole (staged : ℕ → Option Octets) (result : Encrypted) : Type 0 where
    pub named : hash (joined result.digests) ≡ result.descriptor.manifest_digest
    pub chunks :
        (m : ℕ)
        → m < chunk_count tag_size result.descriptor
        → (c : Octets) × ((staged m ≡ some c)
            × (digest_at digest_size (joined result.digests) m ≡ hash c))

  filled : ℕ → HaveBitmap
  filled n = set_all (nothing_held n)

  filled-IsValid : (n : ℕ) → n + 7 < u64_mod → IsValid (filled n)
  unfolding filled
  filled-IsValid n c = set_all-IsValid (nothing_held n) (nothing_held-IsValid n c)

  filled-lt : (n m : ℕ) → n + 7 < u64_mod → bit_at (filled n).bits m ≡ true → m < n
  unfolding filled nothing_held set_all
  filled-lt n m c h = bit_at-lt (filled n) m (filled-IsValid n c) h

  -- Entering a whole data, once its row is there.
  abbrev entered :
      (ℕ → Option Octets)
      → Encrypted
      → RecordDataState
      → Bool
      → DataStore
      → DataTable
      → ℕ
      → DataStore
  entered staged result state replace s t k = record s {
    files = commit_staging s.files staged result.descriptor.manifest_digest replace;
    table = set_state k state (
        set_have tag_size k (filled (chunk_count tag_size result.descriptor))
          (set_header k result.header (set_digests k (joined result.digests) t)));
  }

  entered-IsConsistent :
      (staged : ℕ → Option Octets) (result : Encrypted) (state : RecordDataState) (replace : Bool)
      (s : DataStore) (t : DataTable) (r : DataRow)
      → IsWhole staged result
      → TakesPlace tag_size digest_size hash s.files result.descriptor.manifest_digest
          (chunk_count tag_size result.descriptor)
          replace
      → chunk_count tag_size result.descriptor + 7 < u64_mod
      → Consistent tag_size digest_size hash (record s { table = t })
      → find_id result.descriptor.manifest_digest t.rows ≡ some r
      → Consistent tag_size digest_size hash (entered staged result state replace s t r.local_id)
  entered-IsConsistent staged result state replace s t r w p c v e =
      let id = result.descriptor.manifest_digest in
      let n = chunk_count tag_size result.descriptor in
      let blob = joined result.digests in
      let k = r.local_id in
      let t1 = set_digests k blob t in
      let t2 = set_header k result.header t1 in
      let v1 =
        set_digests-IsConsistent tag_size digest_size hash (record s { table = t }) id r blob v e
          w.named in
      let v2 =
        set_header-IsConsistent tag_size digest_size hash (record s { table = t1 }) k result.header
          v1 in
      let e1 = set_digests_found id t r blob e in
      let e2 = set_header_found id t1 (record r { digests = some blob }) result.header e1 in
      set_state-IsConsistent tag_size digest_size hash _ k state (
        set_have-IsConsistent tag_size digest_size hash (record s { table = t2 }) id
          (record r { digests = some blob; header = some result.header }) (filled n)
          (commit_staging s.files staged id replace) s.drops v2 e2
          (λ j m off. commit_else s.files staged id j replace m off) (filled-IsValid n c).octets
          (λ m h.
            let l = filled-lt n m c (ground (arith, h)) in
            let (chunk, (at, real)) = w.chunks m l in
            commit-Held tag_size digest_size hash s.files staged id n replace m p l
              (chunk, (at, record { blob = blob; named = w.named; digest = real }))))

  register_held-entered :
      (staged : ℕ → Option Octets) (result : Encrypted) (state : RecordDataState) (replace : Bool)
      (s : DataStore) (t : DataTable) (k : ℕ)
      → ensure tag_size result.descriptor s.table ≡ some (t, k)
      → register_held tag_size digest_size hash staged result state replace s
        ≡ some (entered staged result state replace s t k)
  unfolding register_held filled
  register_held-entered staged result state replace s t k e = rw (e, register_held) refl

  register_held-refused :
      (staged : ℕ → Option Octets) (result : Encrypted) (state : RecordDataState) (replace : Bool)
      (s : DataStore)
      → ensure tag_size result.descriptor s.table ≡ none
      → register_held tag_size digest_size hash staged result state replace s ≡ none
  unfolding register_held
  register_held-refused staged result state replace s e = rw (e, register_held) refl

  pub register_held-IsConsistent :
      (staged : ℕ → Option Octets) (result : Encrypted) (state : RecordDataState) (replace : Bool)
      (s s' : DataStore)
      → Consistent tag_size digest_size hash s
      → IsWhole staged result
      → TakesPlace tag_size digest_size hash s.files result.descriptor.manifest_digest
          (chunk_count tag_size result.descriptor)
          replace
      → register_held tag_size digest_size hash staged result state replace s ≡ some s'
      → Consistent tag_size digest_size hash s'
  register_held-IsConsistent staged result state replace s s' v w p e =
      elim (Option-cases (ensure tag_size result.descriptor s.table)) [
        | inl refused ↦ cc (register_held-refused staged result state replace s refused)
        | inr ((t, k), made) ↦
            let n = ensure-Ensured tag_size digest_size hash s result.descriptor t k v made in
            let c = ensured_count tag_size digest_size hash s result.descriptor t k made in
            let done =
              entered-IsConsistent staged result state replace s t n.row w p c n.consistent
                n.found in
            subst (Consistent tag_size digest_size hash)
              (some-injective _ _
                (sym (register_held-entered staged result state replace s t k made) ∙ e))
              (subst
                (λ k.
                  Consistent tag_size digest_size hash (entered staged result state replace s t k))
                n.keyed done)
      ]

  -- A data is removed with its row and its files.
  pub remove_one-IsConsistent :
      (id : Octets) (s : DataStore)
      → Consistent tag_size digest_size hash s
      → Consistent tag_size digest_size hash (remove_one id s).0
  unfolding remove_one DataTable.remove ChunkFiles.remove
  remove_one-IsConsistent id s v = elim (Option-cases (find_id id s.table.rows)) [
    | inl gone ↦ rw (gone, remove_one) v
    | inr (r, e) ↦
        rw (e, remove_one)
          (record {
            distinct = delete-Distinct r.local_id s.table.rows v.distinct;
            keys = All-delete _ _ r.local_id s.table.rows (λ t h _. h) v.keys;
            sound =
                All-delete (λ t. Other r t × Sound tag_size digest_size hash s.files t) _ r.local_id
                  s.table.rows (λ t h k. left r e t h.0 h.1 k)
                  (All-both (Other r) (Sound tag_size digest_size hash s.files) s.table.rows
                    (find_id-only id s.table.rows r v.distinct e) v.sound);
          })
  ]
    where
      left :
          (r : DataRow)
          → find_id id s.table.rows ≡ some r
          → (t : DataRow) → Other r t
          → Sound tag_size digest_size hash s.files t
          → t.local_id ≢ r.local_id
          → Sound tag_size digest_size hash (ChunkFiles.remove s.files id) t
      left r e t (inl at) h k = absurd (k (ap (λ u. u.local_id) at))
      left r e t (inr a) h k =
          elsewhere-IsSound tag_size digest_size hash id s.files (ChunkFiles.remove s.files id) t
            (λ j m off. rw off refl) (λ i. a.1 (i ∙ sym (find_id-id id s.table.rows r e))) h

  pub remove-IsConsistent :
      (ids : List Octets) (s : DataStore)
      → Consistent tag_size digest_size hash s
      → Consistent tag_size digest_size hash (remove ids s).0
  unfolding remove
  remove-IsConsistent [] s v = v
  remove-IsConsistent (id ∷ ids) s v =
      remove-IsConsistent ids (remove_one id s).0 (remove_one-IsConsistent id s v)
