-- ===== src/DataStore/Consistent.antt =====
-- The invariant of spsync/core/data/record_data_store.cpp, and what keeps it.
use spsync.Prelude.{
  ℕ, ◌+◌, ◌<◌, ◌≡◌, refl, sym, ap, ◌∙◌, subst, ◌≢◌, inl, inr, true, false, some, arith, Bool-cases,
  u64_mod, All, All-both, Octets, eq_octets, eq_octets_iff,
}
use spsync.Descriptor.{chunk_count}
use spsync.HaveBitmap.{test}
use spsync.HaveBitmap.Laws.{IsValid}
use spsync.Manifest.Laws.{digest_at}
use spsync.DataTable.{
  RecordDataState, DataHeader, DataRow, find_id, data_id_of, update, set_state, set_header,
}
use spsync.DataTable.Laws.{
  Distinct, Keeps, Other, find_id-only, find_id-id, All-update, update-Distinct,
}
use spsync.ChunkFiles.{ChunkFiles}
use spsync.DataStore.{DataStore}

pub ne_octets : (a b : Octets) → b ≢ a → eq_octets a b ≡ false
ne_octets a b h = elim (Bool-cases (eq_octets a b)) [
  | inl e ↦ absurd (h (sym ((eq_octets_iff a b).0 e)))
  | inr e ↦ e
]

module _ (tag_size digest_size : ℕ) (hash : Octets → Octets) where
  -- The octets have the digest that the id of the data names at the place of the chunk.
  pub record IsAuthentic (id : Octets) (n : ℕ) (c : Octets) : Type 0 where
    pub blob : Octets
    pub named : hash blob ≡ id
    pub digest : digest_at digest_size blob n ≡ hash c

  -- A chunk that is held is there, and is the chunk that the data's id names.
  abbrev pub Held : ChunkFiles → Octets → ℕ → Type 0
  Held files id n = (c : Octets) × ((files.chunk id n ≡ some c) × IsAuthentic id n c)

  pub record IsSound (files : ChunkFiles) (r : DataRow) : Type 0 where
    pub counts : chunk_count tag_size r.descriptor + 7 < u64_mod
    pub sized : r.have.chunk_count ≡ chunk_count tag_size r.descriptor
    pub valid : IsValid r.have
    pub named : (blob : Octets) → r.digests ≡ some blob → hash blob ≡ data_id_of r
    pub held : (n : ℕ) → test r.have n ≡ true → Held files (data_id_of r) n

  pub record IsConsistent (s : DataStore) : Type 0 where
    pub distinct : Distinct s.table.rows
    pub keys : All (λ r. r.local_id < s.table.next_key) s.table.rows
    pub sound : All (IsSound s.files) s.table.rows

  -- The files of the other datas stay.
  abbrev pub ElseSame : Octets → ChunkFiles → ChunkFiles → Type 0
  ElseSame id files files' =
      (j : Octets) (n : ℕ) → eq_octets id j ≡ false → files'.chunk j n ≡ files.chunk j n

  pub elsewhere-IsSound :
      (id : Octets) (files files' : ChunkFiles) (r : DataRow)
      → ElseSame id files files'
      → data_id_of r ≢ id
      → IsSound files r
      → IsSound files' r
  elsewhere-IsSound id files files' r same off h = record {
    counts = h.counts;
    sized = h.sized;
    valid = h.valid;
    named = h.named;
    held = λ n e.
        let (c, (at, real)) = h.held n e in
        (c, (same (data_id_of r) n (ne_octets id (data_id_of r) off) ∙ at, real));
  }

  -- A change of the row of one data and of its files.
  pub changed-IsConsistent :
      (s : DataStore) (id : Octets) (r : DataRow) (f : DataRow → DataRow) (files' : ChunkFiles)
      (drops : ℕ)
      → IsConsistent s
      → find_id id s.table.rows ≡ some r
      → Keeps f
      → ElseSame id s.files files'
      → (IsSound s.files r → IsSound files' (f r))
      → IsConsistent (record {
        table = record s.table { rows = update r.local_id f s.table.rows };
        files = files';
        drops = drops;
      })
  changed-IsConsistent s id r f files' drops v e keeps same step = record {
    distinct = update-Distinct r.local_id f s.table.rows keeps v.distinct;
    keys =
        All-update _ _ r.local_id f s.table.rows (λ t h _. omega (arith, h, (keeps t).0))
          (λ t h _. h) v.keys;
    sound =
        let both =
          All-both (Other r) (IsSound s.files) s.table.rows
            (find_id-only id s.table.rows r v.distinct e) v.sound in
        All-update (λ t. Other r t × IsSound s.files t) (IsSound files') r.local_id f s.table.rows
          (λ t h k. step_at t h.0 h.1 k) (λ t h k. step_off t h.0 h.1 k) both;
  }
    where
      step_at :
          (t : DataRow)
          → Other r t
          → IsSound s.files t
          → t.local_id ≡ r.local_id
          → IsSound files' (f t)
      step_at t (inl at) h k =
          subst (λ u. IsSound files' (f u)) (sym at) (step (subst (IsSound s.files) at h))
      step_at t (inr a) h k = absurd (a.0 k)

      step_off :
          (t : DataRow) → Other r t → IsSound s.files t → t.local_id ≢ r.local_id → IsSound files' t
      step_off t (inl at) h k = absurd (k (ap (λ u. u.local_id) at))
      step_off t (inr a) h k =
          elsewhere-IsSound id s.files files' t same
            (λ i. a.1 (i ∙ sym (find_id-id id s.table.rows r e))) h

  -- A change of rows that leaves what is sound as it is.
  pub relabelled-IsConsistent :
      (s : DataStore) (k : ℕ) (f : DataRow → DataRow)
      → IsConsistent s
      → Keeps f
      → ((r : DataRow) → IsSound s.files r → IsSound s.files (f r))
      → IsConsistent (record s { table = record s.table { rows = update k f s.table.rows } })
  relabelled-IsConsistent s k f v keeps step = record {
    distinct = update-Distinct k f s.table.rows keeps v.distinct;
    keys =
        All-update _ _ k f s.table.rows (λ t h _. omega (arith, h, (keeps t).0)) (λ t h _. h)
          v.keys;
    sound =
        All-update (IsSound s.files) (IsSound s.files) k f s.table.rows (λ t h _. step t h)
          (λ t h _. h) v.sound;
  }

  pub set_state-IsConsistent :
      (s : DataStore) (k : ℕ) (state : RecordDataState)
      → IsConsistent s
      → IsConsistent (record s { table = set_state k state s.table })
  unfolding set_state
  set_state-IsConsistent s k state v =
      relabelled-IsConsistent s k (λ r. record r { state = state }) v (λ r. (refl, refl))
        (λ r h. record {
          counts = h.counts;
          sized = h.sized;
          valid = h.valid;
          named = h.named;
          held = h.held;
        })

  pub set_header-IsConsistent :
      (s : DataStore) (k : ℕ) (header : DataHeader)
      → IsConsistent s
      → IsConsistent (record s { table = set_header k header s.table })
  unfolding set_header
  set_header-IsConsistent s k header v =
      relabelled-IsConsistent s k (λ r. record r { header = some header }) v (λ r. (refl, refl))
        (λ r h. record {
          counts = h.counts;
          sized = h.sized;
          valid = h.valid;
          named = h.named;
          held = h.held;
        })
