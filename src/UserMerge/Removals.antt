-- ===== src/UserMerge/Removals.antt =====
-- The removals of spsync/core/user_merge.cpp: no member stands on an update that did not see one.
use spsync.Prelude.{
  ◌≤◌, ◌≡◌, refl, sym, ap, ◌∙◌, subst, inl, inr, Bool, true, false, not, ◌&&◌, ◌||◌, Option, none,
  some, List, [], ◌∷◌, ◌++◌, arith, ◌==◌, if◌then◌else◌, Bool-cases, Option-cases, Octets,
  eq_octets, eq_octets_iff,
}
use spsync.KeyMap.{find}
use spsync.KeyMap.Laws.{occurrences, find-assign, occurrences-erase, occurrences-assign, find-erase}
use mathlib.Core.List.{append_assoc, append-nil}
use spsync.Users.{UserAccess, no_access, is_delta}
use spsync.UserMerge.{
  UserChangeEntry, saw, MemberState, Removal, FoldState, or_nil, empty_state, unseen_by,
  apply_removal, defeated_by, wins, apply_update, apply_access, apply_accesses, fold,
}

-- The removals of a user by one record, and since the last full record of a list.
pub removals_in : Octets → UserChangeEntry → List UserAccess → List Removal
removals_in kid entry [] = []
removals_in kid entry (ua ∷ uas) =
    let rest = removals_in kid entry uas in
    if ua.access == no_access && eq_octets ua.user kid
    then record { tag = entry.tag; parent_special = entry.parent_special } ∷ rest
    else rest

pub removals_since : Octets → List Removal → List UserChangeEntry → List Removal
removals_since kid before [] = before
removals_since kid before (entry ∷ entries) =
    let start = if is_delta entry.change.mode then before else [] in
    removals_since kid (start ++ removals_in kid entry entry.change.users) entries

module _ (parents : List (Octets × Octets)) where
  -- A member that stands on an update which saw every removal of a list.
  safe : Option MemberState → List Removal → Bool
  safe none rs = true
  safe (some m) rs = not (defeated_by parents m.parent_special rs)

  defeated_by-append :
      (p : Octets) (rs : List Removal) (r : Removal)
      → defeated_by parents p (rs ++ (r ∷ []))
        ≡ defeated_by parents p rs || not (saw r.tag p parents)
  unfolding defeated_by
  defeated_by-append p [] r = ground arith
  defeated_by-append p (x ∷ rs) r = ground (arith, defeated_by-append p rs r)

  -- The members are a map, and every one is safe from the removals of its user.
  record IsSafe (state : FoldState) : Type 0 where
    distinct : (kid : Octets) → occurrences kid state.members ≤ 1
    guarded :
        (kid : Octets) → safe (find kid state.members) (or_nil (find kid state.removals)) ≡ true

  removal_of : UserChangeEntry → Removal
  removal_of entry = record { tag = entry.tag; parent_special = entry.parent_special }

  unseen_drops :
      (o : Option MemberState) (rs : List Removal) (entry : UserChangeEntry)
      → safe o rs ≡ true
      → unseen_by parents entry.tag o ≡ false
      → safe o (rs ++ (removal_of entry ∷ [])) ≡ true
  unfolding safe removal_of
  unseen_drops none rs entry h k = refl
  unseen_drops (some m) rs entry h k =
      ground (arith, h, k, defeated_by-append m.parent_special rs (removal_of entry))

  nobody_safe : (rs : List Removal) → safe none rs ≡ true
  unfolding safe
  nobody_safe rs = refl

  apply_removal-IsSafe :
      (state : FoldState) (kid : Octets) (entry : UserChangeEntry)
      → IsSafe state
      → IsSafe (apply_removal parents state kid entry)
  unfolding apply_removal removal_of
  apply_removal-IsSafe state kid entry v =
      let rs = or_nil (find kid state.removals) ++ (removal_of entry ∷ []) in
      record {
        distinct = λ j. elim (Option-cases (find kid state.members)) [
          | inl gone ↦ ground (arith, gone, v.distinct j)
          | inr (m, here) ↦
              ground (arith, here, v.distinct j, occurrences-erase kid j m state.members here)
        ];
        guarded = λ j. elim (Bool-cases (unseen_by parents entry.tag (find kid state.members))) [
          | inl unseen ↦
              rw
                (
                  unseen,
                  find-assign kid j rs state.removals,
                  find-erase kid j state.members (v.distinct kid),
                )
                (elim (Bool-cases (eq_octets kid j)) [
                  | inl same ↦ rw same (nobody_safe rs)
                  | inr other ↦ rw other (v.guarded j)
                ])
          | inr seen ↦
              rw (seen, find-assign kid j rs state.removals)
                (elim (Bool-cases (eq_octets kid j)) [
                  | inl same ↦ rw same (
                      subst (λ k. safe (find k state.members) rs ≡ true)
                        ((eq_octets_iff kid j).0 same)
                        (unseen_drops (find kid state.members) (or_nil (find kid state.removals))
                          entry (v.guarded kid) seen))
                  | inr other ↦ rw other (v.guarded j)
                ])
        ];
      }

  guarded_update :
      (p : Octets) (rs : List Removal) (m : MemberState)
      → m.parent_special ≡ p
      → defeated_by parents p rs ≡ false
      → safe (some m) rs ≡ true
  unfolding safe
  guarded_update p rs m e h = rw (e, h) refl

  apply_update-IsSafe :
      (state : FoldState) (kid : Octets) (access : UserAccess) (entry : UserChangeEntry)
      → IsSafe state
      → IsSafe (apply_update parents state kid access entry)
  unfolding apply_update
  apply_update-IsSafe state kid access entry v =
      elim (Bool-cases
        (defeated_by parents entry.parent_special (or_nil (find kid state.removals)))) [
          | inl lost ↦ rw lost v
          | inr stands ↦ elim (Bool-cases (wins parents entry (find kid state.members))) [
            | inr loses ↦ rw (stands, loses) v
            | inl won ↦
                let m : MemberState = record {
                  access = access;
                  tag = entry.tag;
                  parent_special = entry.parent_special;
                } in
                rw (stands, won)
                  (record {
                    distinct =
                        λ j. ground (arith, v.distinct j, occurrences-assign kid j m state.members);
                    guarded = λ j.
                        rw (find-assign kid j m state.members)
                          (elim (Bool-cases (eq_octets kid j)) [
                            | inl same ↦ rw same (
                                subst (λ k. safe (some m) (or_nil (find k state.removals)) ≡ true)
                                  ((eq_octets_iff kid j).0 same)
                                  (guarded_update entry.parent_special
                                    (or_nil (find kid state.removals)) m refl stands))
                            | inr other ↦ rw other (v.guarded j)
                          ]);
                  })
          ]
        ]

  apply_access-IsSafe :
      (state : FoldState) (entry : UserChangeEntry) (ua : UserAccess)
      → IsSafe state
      → IsSafe (apply_access parents state entry ua)
  unfolding apply_access
  apply_access-IsSafe state entry ua v = elim (Bool-cases (ua.access == no_access)) [
    | inl t ↦ rw t (apply_removal-IsSafe state ua.user entry v)
    | inr f ↦ rw f (apply_update-IsSafe state ua.user ua entry v)
  ]

  apply_accesses-IsSafe :
      (state : FoldState) (entry : UserChangeEntry) (uas : List UserAccess)
      → IsSafe state
      → IsSafe (apply_accesses parents state entry uas)
  unfolding apply_accesses
  apply_accesses-IsSafe state entry [] v = v
  apply_accesses-IsSafe state entry (ua ∷ uas) v =
      apply_accesses-IsSafe (apply_access parents state entry ua) entry uas
        (apply_access-IsSafe state entry ua v)

  empty-IsSafe : IsSafe empty_state
  unfolding occurrences find safe
  empty-IsSafe = record { distinct = λ j. omega arith; guarded = λ j. refl }

  fold-IsSafe :
      (state : FoldState) (entries : List UserChangeEntry)
      → IsSafe state
      → IsSafe (fold parents state entries)
  unfolding fold
  fold-IsSafe state [] v = v
  fold-IsSafe state (entry ∷ entries) v = elim (Bool-cases (is_delta entry.change.mode)) [
    | inl t ↦ rw t (
        fold-IsSafe (apply_accesses parents state entry entry.change.users) entries
          (apply_accesses-IsSafe state entry entry.change.users v))
    | inr f ↦ rw f (
        fold-IsSafe (apply_accesses parents empty_state entry entry.change.users) entries
          (apply_accesses-IsSafe empty_state entry entry.change.users empty-IsSafe))
  ]

  -- The removals that the fold keeps are those of the entries since the last full one.
  kept : Octets → FoldState → List Removal
  kept kid state = or_nil (find kid state.removals)

  apply_update-kept :
      (state : FoldState) (uid : Octets) (access : UserAccess) (entry : UserChangeEntry)
      (kid : Octets)
      → kept kid (apply_update parents state uid access entry) ≡ kept kid state
  unfolding apply_update kept
  apply_update-kept state uid access entry kid = ground arith

  removed_by : Octets → UserChangeEntry → UserAccess → List Removal
  removed_by kid entry ua =
      if ua.access == no_access && eq_octets ua.user kid then removal_of entry ∷ [] else []

  apply_removal-kept :
      (state : FoldState) (uid kid : Octets) (entry : UserChangeEntry)
      → kept kid (apply_removal parents state uid entry)
        ≡ kept kid state ++ (if eq_octets uid kid then removal_of entry ∷ [] else [])
  unfolding apply_removal kept removal_of
  apply_removal-kept state uid kid entry =
      let rs = or_nil (find uid state.removals) ++ (removal_of entry ∷ []) in
      rw (find-assign uid kid rs state.removals) (elim (Bool-cases (eq_octets uid kid)) [
        | inl same ↦ rw same (
            ap (λ k. or_nil (find k state.removals) ++ (removal_of entry ∷ []))
              ((eq_octets_iff uid kid).0 same))
        | inr other ↦ rw other (sym (append-nil (or_nil (find kid state.removals))))
      ])

  apply_access-kept :
      (state : FoldState) (entry : UserChangeEntry) (ua : UserAccess) (kid : Octets)
      → kept kid (apply_access parents state entry ua) ≡ kept kid state ++ removed_by kid entry ua
  unfolding apply_access removed_by
  apply_access-kept state entry ua kid = elim (Bool-cases (ua.access == no_access)) [
    | inl t ↦ rw t (apply_removal-kept state ua.user kid entry)
    | inr f ↦
        rw f (apply_update-kept state ua.user ua entry kid ∙ sym (append-nil (kept kid state)))
  ]

  removals_in-cons :
      (kid : Octets) (entry : UserChangeEntry) (ua : UserAccess) (uas : List UserAccess)
      → removed_by kid entry ua ++ removals_in kid entry uas ≡ removals_in kid entry (ua ∷ uas)
  unfolding removed_by removals_in removal_of
  removals_in-cons kid entry ua uas =
      elim (Bool-cases (ua.access == no_access && eq_octets ua.user kid)) [
        | inl t ↦ rw t refl
        | inr f ↦ rw f refl
      ]

  apply_accesses-kept :
      (kid : Octets) (state : FoldState) (entry : UserChangeEntry) (uas : List UserAccess)
      → kept kid (apply_accesses parents state entry uas)
        ≡ kept kid state ++ removals_in kid entry uas
  unfolding apply_accesses removals_in
  apply_accesses-kept kid state entry [] = sym (append-nil (kept kid state))
  apply_accesses-kept kid state entry (ua ∷ uas) =
      apply_accesses-kept kid (apply_access parents state entry ua) entry uas
      ∙ ap (λ rs. rs ++ removals_in kid entry uas) (apply_access-kept state entry ua kid)
      ∙ append_assoc (kept kid state) (removed_by kid entry ua) (removals_in kid entry uas)
      ∙ ap (λ rs. kept kid state ++ rs) (removals_in-cons kid entry ua uas)

  start_kept :
      (kid : Octets) (b : Bool) (state : FoldState)
      → kept kid (if b then state else empty_state) ≡ (if b then kept kid state else [])
  unfolding kept find
  start_kept kid true state = refl
  start_kept kid false state = refl

  fold-kept :
      (kid : Octets) (state : FoldState) (entries : List UserChangeEntry)
      → kept kid (fold parents state entries) ≡ removals_since kid (kept kid state) entries
  unfolding fold removals_since
  fold-kept kid state [] = refl
  fold-kept kid state (entry ∷ entries) =
      let start = if is_delta entry.change.mode then state else empty_state in
      fold-kept kid (apply_accesses parents start entry entry.change.users) entries
      ∙ ap (λ rs. removals_since kid rs entries)
          (apply_accesses-kept kid start entry entry.change.users
            ∙ ap (λ rs. rs ++ removals_in kid entry entry.change.users)
                (start_kept kid (is_delta entry.change.mode) state))

  kept_empty : (kid : Octets) → kept kid empty_state ≡ []
  unfolding kept find
  kept_empty kid = refl

  safe_member :
      (m : MemberState) (rs : List Removal)
      → safe (some m) rs ≡ true
      → defeated_by parents m.parent_special rs ≡ false
  unfolding safe
  safe_member m rs h = ground (arith, h)

  -- A user that is a member after the entries, whatever their order, stands on an update that saw every removal of the
  -- user among the entries since the last full one.
  pub fold-saw_removals :
      (entries : List UserChangeEntry) (kid : Octets) (m : MemberState)
      → find kid (fold parents empty_state entries).members ≡ some m
      → defeated_by parents m.parent_special (removals_since kid [] entries) ≡ false
  unfolding kept
  fold-saw_removals entries kid m e =
      let v = fold-IsSafe empty_state entries empty-IsSafe in
      let same =
        fold-kept kid empty_state entries
        ∙ ap (λ rs. removals_since kid rs entries) (kept_empty kid) in
      safe_member m (removals_since kid [] entries) (
        subst (λ rs. safe (some m) rs ≡ true) same
          (subst (λ o. safe o (kept kid (fold parents empty_state entries)) ≡ true) e
            (v.guarded kid)))
