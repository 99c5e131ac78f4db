-- ===== src/DataStore/Register.antt =====
-- How spsync/core/data/record_data_store.cpp enters and removes datas: the store stays consistent.
use spsync.Prelude.{
  ℕ, ◌+◌, ◌<◌, ◌≡◌, refl, sym, ap, ◌∙◌, subst, ◌≢◌, inl, inr, true, false, none, some, List, [],
  ◌∷◌, ◌++◌, arith, Bool-cases, Option-cases, u64_mod, All-mono, All-append, All-both, Octets,
  eq_octets,
}
use mathlib.Core.Option.{some-injective}
use spsync.KeyMap.Laws.{eq_octets_refl}
use spsync.Descriptor.{DataDescriptor, chunk_count, usable_data_descriptor}
use spsync.HaveBitmap.{nothing_held}
use spsync.HaveBitmap.Changes.{nothing_held-IsValid, test-nothing_held}
use spsync.DataTable.{DataRow, DataTable, find_id, data_id_of, set_digests, ensure, new_row}
use spsync.DataTable.Laws.{find_id-id, find_id-none, append-Distinct}
use spsync.DataStore.{DataStore}
use spsync.DataStore.Consistent.{changed-IsConsistent}
use spsync.DataStore.Keep.{Consistent, Sound}

nothing_held_size : (n : ℕ) → (nothing_held n).chunk_count ≡ n
unfolding nothing_held
nothing_held_size n = refl

pub find_id-append :
    (id : Octets) (rows : List DataRow) (r : DataRow)
    → find_id id rows ≡ none
    → data_id_of r ≡ id
    → find_id id (rows ++ (r ∷ [])) ≡ some r
unfolding find_id
find_id-append id [] r e i = rw (i, eq_octets_refl id) refl
find_id-append id (s ∷ rows) r e i = elim (Bool-cases (eq_octets id (data_id_of s))) [
  | inl at ↦ ground arith
  | inr off ↦ rw off (find_id-append id rows r (ground arith) i)
]

module _ (tag_size digest_size : ℕ) (hash : Octets → Octets) where
  -- `ensure` leaves a consistent store, in which the key is that of the row with the id.
  pub record Ensured (s : DataStore) (d : DataDescriptor) (t : DataTable) (k : ℕ) : Type 0 where
    pub consistent : Consistent tag_size digest_size hash (record s { table = t })
    pub row : DataRow
    pub found : find_id d.manifest_digest t.rows ≡ some row
    pub keyed : row.local_id ≡ k

  usable_count :
      (d : DataDescriptor)
      → usable_data_descriptor tag_size d ≡ true
      → chunk_count tag_size d + 7 < u64_mod
  unfolding usable_data_descriptor
  usable_count d h = ground arith

  ensure_unusable :
      (s : DataStore) (d : DataDescriptor)
      → usable_data_descriptor tag_size d ≡ false
      → ensure tag_size d s.table ≡ none
  unfolding ensure
  ensure_unusable s d h = rw h refl

  module _ (s : DataStore) (d : DataDescriptor) (v : Consistent tag_size digest_size hash s)
      (usable : usable_data_descriptor tag_size d ≡ true) where
    abbrev grown : DataTable
    grown = record {
      rows = s.table.rows ++ (new_row tag_size s.table.next_key d ∷ []);
      next_key = s.table.next_key + 1;
    }

    ensure_new :
        find_id d.manifest_digest s.table.rows ≡ none
        → ensure tag_size d s.table ≡ some (grown, s.table.next_key)
    unfolding ensure
    ensure_new e = rw (usable, e) refl

    ensure_old :
        (r : DataRow)
        → find_id d.manifest_digest s.table.rows ≡ some r
        → ensure tag_size d s.table ≡ some (s.table, r.local_id)
    unfolding ensure
    ensure_old r e = rw (usable, e) refl

    new_row-IsSound : Sound tag_size digest_size hash s.files (new_row tag_size s.table.next_key d)
    unfolding new_row
    new_row-IsSound =
        let n = chunk_count tag_size d in
        let c = usable_count d usable in
        record {
          counts = c;
          sized = nothing_held_size n;
          valid = nothing_held-IsValid n c;
          named = λ blob h. cc;
          held = λ i h. cc (test-nothing_held n i, h);
        }

    ensure_new-Ensured :
        find_id d.manifest_digest s.table.rows ≡ none → Ensured s d grown s.table.next_key
    unfolding new_row
    ensure_new-Ensured e =
        let fresh = new_row tag_size s.table.next_key d in
        record {
          consistent = record {
            distinct =
                append-Distinct s.table.rows fresh
                  (All-mono (λ r h. ((λ k. absurd (omega arith)), h.1)) s.table.rows
                    (All-both (λ r. r.local_id < s.table.next_key)
                      (λ r. data_id_of r ≢ d.manifest_digest) s.table.rows v.keys
                      (find_id-none d.manifest_digest s.table.rows e)))
                  v.distinct;
            keys =
                All-append (λ r. r.local_id < s.table.next_key + 1) s.table.rows (fresh ∷ [])
                  (All-mono (λ r h. omega arith) s.table.rows v.keys) (omega arith, tt);
            sound =
                All-append (Sound tag_size digest_size hash s.files) s.table.rows (fresh ∷ [])
                  v.sound (new_row-IsSound, tt);
          };
          row = fresh;
          found = find_id-append d.manifest_digest s.table.rows fresh e refl;
          keyed = refl;
        }

  pub ensured_count :
      (s : DataStore) (d : DataDescriptor) (t : DataTable) (k : ℕ)
      → ensure tag_size d s.table ≡ some (t, k)
      → chunk_count tag_size d + 7 < u64_mod
  ensured_count s d t k e = elim (Bool-cases (usable_data_descriptor tag_size d)) [
    | inr refused ↦ cc (ensure_unusable s d refused)
    | inl usable ↦ usable_count d usable
  ]

  pub ensure-Ensured :
      (s : DataStore) (d : DataDescriptor) (t : DataTable) (k : ℕ)
      → Consistent tag_size digest_size hash s
      → ensure tag_size d s.table ≡ some (t, k)
      → Ensured s d t k
  ensure-Ensured s d t k v e = elim (Bool-cases (usable_data_descriptor tag_size d)) [
    | inr refused ↦ cc (ensure_unusable s d refused)
    | inl usable ↦ elim (Option-cases (find_id d.manifest_digest s.table.rows)) [
      | inl new ↦
          subst (λ p. Ensured s d p.0 p.1)
            (some-injective _ _ (sym (ensure_new s d v usable new) ∙ e))
            (ensure_new-Ensured s d v usable new)
      | inr (r, old) ↦
          subst (λ p. Ensured s d p.0 p.1)
            (some-injective _ _ (sym (ensure_old s d v usable r old) ∙ e))
            (record { consistent = v; row = r; found = old; keyed = refl })
    ]
  ]

  pub set_digests-IsConsistent :
      (s : DataStore) (id : Octets) (r : DataRow) (blob : Octets)
      → Consistent tag_size digest_size hash s
      → find_id id s.table.rows ≡ some r
      → hash blob ≡ id
      → Consistent tag_size digest_size hash
          (record s { table = set_digests r.local_id blob s.table })
  unfolding set_digests
  set_digests-IsConsistent s id r blob v e named =
      changed-IsConsistent tag_size digest_size hash s id r (λ t. record t { digests = some blob })
        s.files s.drops v e (λ t. (refl, refl)) (λ j m off. refl)
        (λ h. record {
          counts = h.counts;
          sized = h.sized;
          valid = h.valid;
          named = λ b same.
              ap hash (sym (some-injective _ _ same))
              ∙ named
              ∙ sym (find_id-id id s.table.rows r e);
          held = h.held;
        })
