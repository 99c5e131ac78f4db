-- ===== src/RebasePolicy/Replica.antt =====
-- The table of spsync/core/record_storage.cpp in an engine, beside that of the server: what
-- spsync/engine/sync_engine.cpp finds in it for the rebase policy.
use spsync.Prelude.{
  ℕ, ◌≤◌, ◌≡◌, refl, sym, ap, ◌∙◌, inl, inr, Bool, true, false, ◌&&◌, List, [], arith, ◌==◌,
  if◌then◌else◌, Bool-cases, Option-cases,
}
use spsync.Sequence.{is_valid}
use spsync.Records.{AnyRecord, is_special}
use spsync.SyncMode.{SyncMode}
use spsync.RecordStorage.{
  Row, is_in_sync, newest, max_seq, last_block, last_special_sequence, last_data_add_sequence,
  has_add,
}
use spsync.RecordStorage.Select.{newest-selected, newest-none}
use spsync.RebasePolicy.{
  find_sequence, last_special_tag, tag_or_empty, pending_needs_rebase, rebase_state_of,
}
use spsync.RebasePolicy.Rows.{
  DistinctRows, In, All-In, same_row, find_row-some, find_row-none, max_seq-bound, max_seq-In,
}

-- The columns that two tables have for one committed record. The blob of an own record keeps what it was before the
-- server placed it, so it is not among them.
pub record IsSameRecord (r s : Row) : Type 0 where
  pub tag : r.tag ≡ s.tag
  pub seq : r.seq ≡ s.seq
  pub hash : r.hash ≡ s.hash
  pub kind : r.kind ≡ s.kind
  pub objects : r.objects ≡ s.objects

-- The records of the first table that are in sync are in the second one, in sync too.
unfoldable pub Within : List Row → List Row → Type 0
Within rows others =
    (r : Row)
    → In r rows
    → is_in_sync r.state ≡ true
    → (s : Row) × In s others × (is_in_sync s.state ≡ true) × IsSameRecord r s

-- An engine that has the records of a server, in any order, and its own pending records beside them.
pub record IsReplica (engine server : List Row) : Type 0 where
  pub known : Within engine server
  pub complete : Within server engine

max_seq-Within :
    (q : Row → Bool) (rows others : List Row)
    → Within rows others
    → ((r s : Row) → IsSameRecord r s → q r ≡ true → q s ≡ true)
    → max_seq (λ r. is_in_sync r.state && q r) rows
      ≤ max_seq (λ r. is_in_sync r.state && q r) others
unfolding Within
max_seq-Within q rows others w k =
    let p = λ (r : Row). is_in_sync r.state && q r in
    elim (Bool-cases (max_seq p rows == 0)) [
      | inl nil ↦ ground arith
      | inr more ↦
          let (r, (i, (t, e))) = max_seq-In p rows (ground arith) in
          let (s, j, u, same) = w r i (ground arith) in
          let v : q s ≡ true = k r s same (ground arith) in
          let b =
            All-In (λ x. p x ≡ true → x.seq ≤ max_seq p others) s others (max_seq-bound p others) j
              (rw (u, v) refl) in
          omega (arith, b, e, same.seq)
    ]

module _ (engine server : List Row) (h : IsReplica engine server) where
  same_max :
      (q : Row → Bool)
      → ((r s : Row) → IsSameRecord r s → q r ≡ q s)
      → max_seq (λ r. is_in_sync r.state && q r) engine
        ≡ max_seq (λ r. is_in_sync r.state && q r) server
  same_max q k =
      let a = max_seq-Within q engine server h.known (λ r s e t. sym (k r s e) ∙ t) in
      let b = max_seq-Within q server engine h.complete (λ r s e t. sym (k r s e) ∙ t) in
      omega (arith, a, b)

  same_special : last_special_sequence engine ≡ last_special_sequence server
  unfolding last_special_sequence
  same_special = same_max (λ r. is_special r.kind) (λ r s e. ap is_special e.kind)

  same_adds : last_data_add_sequence engine ≡ last_data_add_sequence server
  unfolding last_data_add_sequence
  same_adds = same_max (λ r. has_add r.objects) (λ r s e. ap has_add e.objects)

  module _ (d : DistinctRows server) where
    abbrev at_sequence : ℕ → Row → Bool
    at_sequence seq r = r.seq == seq && is_in_sync r.state

    same_tag :
        (seq : ℕ)
        → tag_or_empty (find_sequence seq engine) ≡ tag_or_empty (find_sequence seq server)
    unfolding find_sequence Within
    same_tag seq = elim (Option-cases (find_sequence seq engine)) [
      | inr (r, found) ↦
          let (q, i) = find_row-some (at_sequence seq) engine r found in
          let (s, j, u, same) = h.known r i (ground arith) in
          elim (Option-cases (find_sequence seq server)) [
            | inl gone ↦
                let off =
                  All-In (λ x. at_sequence seq x ≡ false) s server
                    (find_row-none (at_sequence seq) server gone) j in
                absurd (ground (arith, same.seq))
            | inr (t, there) ↦
                let (q', j') = find_row-some (at_sequence seq) server t there in
                let one : s ≡ t = same_row s t server d j j' (inr (ground (arith, same.seq))) in
                rw (found, there) (same.tag ∙ ap (λ x. x.tag) one)
          ]
      | inl gone ↦ elim (Option-cases (find_sequence seq server)) [
        | inl gone' ↦ rw (gone, gone') refl
        | inr (t, there) ↦
            let (q', j') = find_row-some (at_sequence seq) server t there in
            let (r, i, u, same) = h.complete t j' (ground arith) in
            let off =
              All-In (λ x. at_sequence seq x ≡ false) r engine
                (find_row-none (at_sequence seq) engine gone) i in
            absurd (ground (arith, same.seq))
      ]
    ]

    same_special_tag : last_special_tag engine ≡ last_special_tag server
    unfolding last_special_tag
    same_special_tag = rw same_special (
        ap (λ t. if is_valid (last_special_sequence server) then t else [])
          (same_tag (last_special_sequence server)))

    abbrev synced : Row → Bool
    synced r = is_in_sync r.state

    same_block : last_block engine ≡ last_block server
    unfolding last_block Within
    same_block = elim (Option-cases (newest synced engine)) [
      | inl gone ↦ elim (Option-cases (newest synced server)) [
        | inl gone' ↦ rw (gone, gone') refl
        | inr (t, there) ↦
            let (j, u, top) = newest-selected synced server t there in
            let (r, i, v, same) = h.complete t j u in
            absurd
              (cc (All-In (λ x. synced x ≡ false) r engine (newest-none synced engine gone) i, v))
      ]
      | inr (r, found) ↦
          let (i, v, top) = newest-selected synced engine r found in
          let (s, j, u, same) = h.known r i v in
          elim (Option-cases (newest synced server)) [
            | inl gone' ↦ absurd (
                cc (All-In (λ x. synced x ≡ false) s server (newest-none synced server gone') j, u))
            | inr (t, there) ↦
                let (j', u', top') = newest-selected synced server t there in
                let (r', i', v', same') = h.complete t j' u' in
                let above = All-In (λ x. synced x ≡ true → x.seq ≤ t.seq) s server top' j u in
                let below = All-In (λ x. synced x ≡ true → x.seq ≤ r.seq) r' engine top i' v' in
                let one : s ≡ t =
                  same_row s t server d j j'
                    (inr (omega (arith, above, below, same.seq, same'.seq))) in
                rw (found, there)
                  (λ k. record {
                    sequence = (same.seq ∙ ap (λ x. x.seq) one) k;
                    hash = (same.hash ∙ ap (λ x. x.hash) one) k;
                  })
          ]
    ]

    -- An engine that has the records of a server decides as one whose table is the server's.
    pub same_decision :
        (mode : SyncMode) (rec : AnyRecord)
        → pending_needs_rebase mode engine rec ≡ pending_needs_rebase mode server rec
    unfolding pending_needs_rebase rebase_state_of
    same_decision mode rec = rw (same_block, same_special_tag, same_adds) refl
