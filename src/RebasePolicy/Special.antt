-- ===== src/RebasePolicy/Special.antt =====
-- Whether a record names the newest special record: what spsync/engine/sync_engine.cpp finds, and what
-- spsync/server/server_lib/chain_sync.cpp checks.
use spsync.Prelude.{
  ℕ, ◌≤◌, ◌<◌, ◌≡◌, refl, sym, ap, ◌∙◌, subst, inl, inr, Bool, true, false, not, ◌&&◌, Option, none,
  some, List, [], arith, ltb, ◌==◌, if◌then◌else◌, Bool-cases, Option-cases, All, Octets, is_empty,
  eq_octets, eq_octets_iff,
}
use spsync.Sequence.{is_valid}
use spsync.Records.{AnyRecord, ContentAuth, is_special}
use spsync.RecordStorage.{Row, is_in_sync, find_tag, last_special_sequence, max_seq}
use spsync.KeyMap.{is_some}
use spsync.ChainRules.{
  ChainSync, ChainSyncConfig, Verdict, CommitError, requires_special_seen, special_seen,
  check_rules_special_seen,
}
use spsync.ChainSync.Invariant.{IsValid}
use spsync.ChainSync.Restart.{IsKept}
use spsync.RebasePolicy.{find_sequence, last_special_tag}
use spsync.RebasePolicy.Rows.{
  DistinctRows, In, All-In, same_row, find_row-some, find_row-none, max_seq-bound, max_seq-In,
}

valid_top : (n : ℕ) → 0 < n → is_valid n ≡ true
unfolding is_valid
valid_top n p = ground arith

zero_invalid : {n : ℕ} → n ≡ 0 → is_valid n ≡ false
unfolding is_valid
zero_invalid e = rw e refl

if_false :
    (b : Bool) (o : Option CommitError) → (b && false) ≡ is_some (if b && false then o else none)
if_false true o = refl
if_false false o = refl

if_seen :
    (b : Bool) (o : Option CommitError) → (b && is_some o) ≡ is_some (if b && true then o else none)
if_seen true o = refl
if_seen false o = refl

-- The chain of a server whose rows an engine has too: what the operations of the server keep, and UNIQUE columns.
pub record IsShared (s : ChainSync) : Type 0 where
  pub valid : IsValid s
  pub kept : All IsKept s.log.rows
  pub distinct : DistinctRows s.log.rows

abbrev pub special_row : Row → Bool
special_row r = is_in_sync r.state && is_special r.kind

module _ (tag_size digest_size : ℕ) (decode : Octets → Option AnyRecord)
    (verify : Option (ContentAuth → Octets → Verdict)) (config : ChainSyncConfig) (s : ChainSync)
    (h : IsShared s) where
  abbrev pub rows : List Row
  rows = s.log.rows

  abbrev top : ℕ
  top = last_special_sequence rows

  module _ (w : Row) (i : In w rows) (t : special_row w ≡ true) (e : w.seq ≡ top) where
    found_special : find_sequence top rows ≡ some w
    unfolding find_sequence
    found_special = elim (Option-cases (find_sequence top rows)) [
      | inl gone ↦
          let no_row =
            All-In (λ r. (r.seq == top && is_in_sync r.state) ≡ false) w rows
              (find_row-none (λ r. r.seq == top && is_in_sync r.state) rows gone) i in
          absurd (ground arith)
      | inr (r, found) ↦
          let (q, j) = find_row-some (λ r. r.seq == top && is_in_sync r.state) rows r found in
          found ∙ ap some (same_row r w rows h.distinct j i (inr (ground arith)))
    ]

    newest_tag : 0 < top → last_special_tag rows ≡ w.tag
    unfolding last_special_tag
    newest_tag p =
        let valid : is_valid top ≡ true = valid_top top p in rw (valid, found_special) refl

    special_unknown :
        (ref : Octets)
        → find_tag ref rows ≡ none
        → is_some (special_seen tag_size digest_size decode verify config s none)
          ≡ not (eq_octets ref w.tag)
    unfolding special_seen find_tag
    special_unknown ref gone =
        let no_row =
          All-In (λ r. eq_octets ref r.tag ≡ false) w rows
            (find_row-none (λ r. eq_octets ref r.tag) rows gone) i in
        rw no_row refl

    tag_found :
        (ref : Octets) (r : Row)
        → find_tag ref rows ≡ some r
        → (eq_octets ref r.tag ≡ true) × In r rows
    unfolding find_tag
    tag_found ref r found = find_row-some (λ r. eq_octets ref r.tag) rows r found

    -- A special row that is as new as the newest one is that one.
    newest_only : (r : Row) → In r rows → is_special r.kind ≡ true → top ≤ r.seq → r ≡ w
    unfolding last_special_sequence IsKept
    newest_only r j k l =
        let synced = (All-In IsKept r rows h.kept j).0 in
        let both : special_row r ≡ true = rw (synced, k) refl in
        let below =
          All-In (λ x. special_row x ≡ true → x.seq ≤ max_seq special_row rows) r rows
            (max_seq-bound special_row rows) j both in
        same_row r w rows h.distinct j i (inr (omega (arith, l, below, e)))

    newest_passes :
        is_some (special_seen tag_size digest_size decode verify config s (some w)) ≡ false
    unfolding special_seen
    newest_passes =
        let k : is_special w.kind ≡ true = ground arith in
        let l : ltb w.seq s.last_user_change_or_segment ≡ false =
          ground (arith, h.valid.specials) in
        rw (k, l) refl

    older_fails :
        (r : Row)
        → (is_special r.kind ≡ true → top ≤ r.seq → ⊥)
        → is_some (special_seen tag_size digest_size decode verify config s (some r)) ≡ true
    unfolding special_seen
    older_fails r no_new = elim (Bool-cases (is_special r.kind)) [
      | inr k ↦ rw k refl
      | inl k ↦ elim (Bool-cases (ltb r.seq s.last_user_change_or_segment)) [
        | inl l ↦ rw (k, l) refl
        | inr l ↦ absurd (no_new k (ground (arith, h.valid.specials)))
      ]
    ]

    special_known :
        (ref : Octets) (r : Row)
        → find_tag ref rows ≡ some r
        → is_some (special_seen tag_size digest_size decode verify config s (some r))
          ≡ not (eq_octets ref w.tag)
    special_known ref r found =
        let (q, j) = tag_found ref r found in
        let tag : ref ≡ r.tag = (eq_octets_iff ref r.tag).0 q in
        elim (Bool-cases (eq_octets ref w.tag)) [
          | inl a ↦
              let same : r ≡ w =
                same_row r w rows h.distinct j i (inl (sym tag ∙ (eq_octets_iff ref w.tag).0 a)) in
              rw a (
                subst
                  (λ x.
                    is_some (special_seen tag_size digest_size decode verify config s (some x))
                    ≡ false)
                  (sym same) newest_passes)
          | inr b ↦ rw b (
              older_fails r (λ k l.
                cc (b, (eq_octets_iff ref w.tag).1 (tag ∙ ap (λ x. x.tag) (newest_only r j k l)))))
        ]

    special_seen_error :
        (ref : Octets)
        → is_some (special_seen tag_size digest_size decode verify config s (find_tag ref rows))
          ≡ not (eq_octets ref w.tag)
    special_seen_error ref = elim (Option-cases (find_tag ref rows)) [
      | inl gone ↦ rw gone (special_unknown ref gone)
      | inr (r, found) ↦ rw found (special_known ref r found)
    ]

  last_special_row : 0 < top → (w : Row) × (In w rows × ((special_row w ≡ true) × (w.seq ≡ top)))
  unfolding last_special_sequence
  last_special_row p = max_seq-In special_row rows p

  no_special_tag : top ≡ 0 → last_special_tag rows ≡ []
  unfolding last_special_tag is_valid
  no_special_tag e = rw e refl

  row_named : (w : Row) → In w rows → is_empty w.tag ≡ false
  unfolding IsKept
  row_named w i = (All-In IsKept w rows h.kept i).1

  none_required :
      (ref : Octets)
      → top ≡ 0
      → (requires_special_seen config.mode && false)
        ≡ is_some (check_rules_special_seen tag_size digest_size decode verify config s ref)
  unfolding check_rules_special_seen
  none_required ref e =
      let k : is_valid s.last_user_change_or_segment ≡ false =
        zero_invalid (h.valid.specials ∙ e) in
      rw k (if_false (requires_special_seen config.mode) _)

  seen_at :
      (ref : Octets) (w : Row)
      → is_some (special_seen tag_size digest_size decode verify config s (find_tag ref rows))
        ≡ not (eq_octets ref w.tag)
      → 0 < top
      → (requires_special_seen config.mode && not (eq_octets ref w.tag))
        ≡ is_some (check_rules_special_seen tag_size digest_size decode verify config s ref)
  unfolding check_rules_special_seen
  seen_at ref w q p =
      let k : is_valid s.last_user_change_or_segment ≡ true =
        valid_top s.last_user_change_or_segment (omega (arith, h.valid.specials)) in
      rw (k, sym q) (if_seen (requires_special_seen config.mode) _)

  pub behind-special_seen :
      (ref : Octets)
      → (requires_special_seen config.mode
          && (not (is_empty (last_special_tag rows))
              && not (eq_octets ref (last_special_tag rows))))
        ≡ is_some (check_rules_special_seen tag_size digest_size decode verify config s ref)
  behind-special_seen ref = elim (Bool-cases (top == 0)) [
    | inl e ↦ rw (no_special_tag (ground arith)) (none_required ref (ground arith))
    | inr e ↦
        let p : 0 < top = ground arith in
        let (w, (i, (t, k))) = last_special_row p in
        let tag = newest_tag w i t k p in
        let named = row_named w i in
        rw (tag, named) (seen_at ref w (special_seen_error w i t k ref) p)
  ]
