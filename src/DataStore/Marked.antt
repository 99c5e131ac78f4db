-- ===== src/DataStore/Marked.antt =====
-- The row of a data after spsync/core/data/record_data_store.cpp marked one of its chunks held.
use spsync.Prelude.{
  ℕ, ◌<◌, ◌≡◌, refl, ap, ◌∙◌, subst, inl, inr, Bool, true, false, not, ◌&&◌, ◌||◌, some, arith, ltb,
  ◌==◌, if◌then◌else◌, Bool-cases, ==_iff, Octets,
}
use spsync.Descriptor.{chunk_count}
use spsync.HaveBitmap.{HaveBitmap, test, set, complete, of_octets}
use spsync.HaveBitmap.Tally.{tally_all}
use spsync.HaveBitmap.Laws.{IsValid, of_octets-octets, count-tally}
use spsync.HaveBitmap.Changes.{set-IsValid, chunk_count-set}
use spsync.DataTable.{RecordDataState, in_sync, DataRow, DataTable, find_id, set_state, set_have}
use spsync.DataTable.Laws.{find_id-update}
use spsync.DataStore.{DataStore, is_upload_pending, mark_held}

set_have_found :
    (tag_size : ℕ) (id : Octets) (t : DataTable) (r : DataRow) (have : HaveBitmap)
    → find_id id t.rows ≡ some r
    → find_id id (set_have tag_size r.local_id have t).rows
      ≡ some (record r { have = of_octets (chunk_count tag_size r.descriptor) have.bits })
unfolding set_have
set_have_found tag_size id t r have e =
    find_id-update r.local_id
      (λ r. record r { have = of_octets (chunk_count tag_size r.descriptor) have.bits }) id t.rows
      (λ r. (refl, refl))
    ∙ rw e (ap some (ground arith))

set_state_found :
    (id : Octets) (t : DataTable) (r : DataRow) (state : RecordDataState)
    → find_id id t.rows ≡ some r
    → find_id id (set_state r.local_id state t).rows ≡ some (record r { state = state })
unfolding set_state
set_state_found id t r state e =
    find_id-update r.local_id (λ r. record r { state = state }) id t.rows (λ r. (refl, refl))
    ∙ rw e (ap some (ground arith))

pub not_pending : is_upload_pending in_sync ≡ false
unfolding is_upload_pending
not_pending = refl

pub or_false : (b : Bool) → (b || false) ≡ b
or_false true = refl
or_false false = refl

pub in_if : (n m k : ℕ) (b : Bool) → m < k → (if ltb n k && n == m then true else b) ≡ (b || n == m)
in_if n m k true l = ground arith
in_if n m k false l = ground arith

pub or_true : (b : Bool) → (b || true) ≡ true
or_true true = refl
or_true false = refl

module _ (tag_size digest_size : ℕ) (hash : Octets → Octets) where
  -- The row after a chunk of it was marked held.
  unfoldable pub marked : DataRow → ℕ → DataRow
  marked r n =
      let have = set n true r.have in
      record r {
        have = have;
        state = if complete have && not (is_upload_pending r.state) then in_sync else r.state;
      }

  same_have :
      (r : DataRow) (have : HaveBitmap)
      → IsValid have
      → have.chunk_count ≡ chunk_count tag_size r.descriptor
      → of_octets (chunk_count tag_size r.descriptor) have.bits ≡ have
  same_have r have v e = subst (λ k. of_octets k have.bits ≡ have) e (of_octets-octets have v)

  pub mark_held-marked :
      (s : DataStore) (id : Octets) (r : DataRow) (n : ℕ)
      → IsValid r.have
      → r.have.chunk_count ≡ chunk_count tag_size r.descriptor
      → find_id id s.table.rows ≡ some r
      → find_id id (mark_held tag_size r n s).table.rows ≡ some (marked r n)
  unfolding mark_held marked
  mark_held-marked s id r n v c e =
      let have = set n true r.have in
      let same =
        same_have r have (set-IsValid r.have n true v) (chunk_count-set r.have n true ∙ c) in
      let kept =
        subst
          (λ h.
            find_id id (set_have tag_size r.local_id have s.table).rows
            ≡ some (record r { have = h }))
          same (set_have_found tag_size id s.table r have e) in
      elim (Bool-cases (complete have && not (is_upload_pending r.state))) [
        | inl whole ↦ rw whole (
            set_state_found id (set_have tag_size r.local_id have s.table)
              (record r { have = have }) in_sync kept)
        | inr part ↦ rw part kept
      ]

  pub complete_of_all :
      (b : HaveBitmap)
      → IsValid b
      → ((m : ℕ) → m < b.chunk_count → test b m ≡ true)
      → complete b ≡ true
  unfolding complete
  complete_of_all b v h = (==_iff _ _).1 (count-tally b v ∙ tally_all (test b) b.chunk_count h)
