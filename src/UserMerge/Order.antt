-- ===== src/UserMerge/Order.antt =====
-- The order in which spsync/core/user_merge.cpp meets concurrent updates of one user.
use spsync.Prelude.{
  ℕ, ◌≡◌, refl, ap, ◌∙◌, ◌≢◌, true, false, some, List, [], ◌∷◌, map, arith, Octets, is_empty,
  eq_octets, lt_octets, eq_octets_iff,
}
use spsync.KeyMap.Laws.{eq_octets_refl}
use spsync.KeyMap.{find, assign, insert, adjust}
use spsync.Users.{UserAccess, delta, no_access}
use spsync.UserMerge.{
  UserChangeEntry, walk, saw, wins, defeated_by, FoldState, apply_update, apply_access,
  apply_accesses, empty_state, fold, merge_user_changes,
}

lt_octets_irrefl : (a : Octets) → lt_octets a a ≡ false
unfolding lt_octets
lt_octets_irrefl [] = refl
lt_octets_irrefl (x ∷ a) = ground (arith, lt_octets_irrefl a)

lt_octets_trans :
    (a b c : Octets) → lt_octets a b ≡ true → lt_octets b c ≡ true → lt_octets a c ≡ true
unfolding lt_octets
lt_octets_trans [] [] c h k = cc
lt_octets_trans [] (y ∷ b) [] h k = cc
lt_octets_trans [] (y ∷ b) (z ∷ c) h k = refl
lt_octets_trans (x ∷ a) [] c h k = cc
lt_octets_trans (x ∷ a) (y ∷ b) [] h k = cc
lt_octets_trans (x ∷ a) (y ∷ b) (z ∷ c) h k = ground (arith, lt_octets_trans a b c)

lt_octets-ne :
    (a b : Octets) → lt_octets a b ≡ true → (eq_octets a b ≡ false) × (eq_octets b a ≡ false)
lt_octets-ne a b h = ground (arith, eq_octets_iff a b, eq_octets_iff b a, lt_octets_irrefl a)

-- An update by one delta record of one user.
abbrev pub update_entry : Octets → Octets → UserAccess → UserChangeEntry
update_entry tag parent ua = record {
  change = record { mode = delta; users = ua ∷ [] };
  tag = tag;
  parent_special = parent;
}

-- Two updates that saw no special record, and a third that saw the second one.
abbrev pub parents_of : Octets → Octets → Octets → List (Octets × Octets)
parents_of a b c = (b, []) ∷ (a, []) ∷ (c, b) ∷ []

module _ (parents : List (Octets × Octets)) (user : Octets) where
  -- The state in which the user's only winner is an update.
  abbrev won : Octets → Octets → ℕ → FoldState
  won tag parent x = record {
    members =
        (
          user,
          record {
            access = record { user = user; access = x };
            tag = tag;
            parent_special = parent;
          },
        )
        ∷ [];
    removals = [];
  }

  abbrev update_of : Octets → Octets → ℕ → UserChangeEntry
  update_of tag parent x = update_entry tag parent (record { user = user; access = x })

  access_update :
      (state : FoldState) (entry : UserChangeEntry) (x : ℕ)
      → x ≢ no_access
      → apply_access parents state entry (record { user = user; access = x })
        ≡ apply_update parents state user (record { user = user; access = x }) entry
  unfolding apply_access
  access_update state entry x h = ground arith

  fold_update :
      (state : FoldState) (tag parent : Octets) (x : ℕ) (entries : List UserChangeEntry)
      → x ≢ no_access
      → fold parents state (update_of tag parent x ∷ entries)
        ≡ fold parents
            (apply_update parents state user
              (record { user = user; access = x })
              (update_of tag parent x))
            entries
  unfolding fold apply_accesses
  fold_update state tag parent x entries h =
      ap (λ (s : FoldState). fold parents s entries)
        (access_update state (update_of tag parent x) x h)

  update_first :
      (tag parent : Octets) (x : ℕ)
      → apply_update parents empty_state user
          (record { user = user; access = x })
          (update_of tag parent x)
        ≡ won tag parent x
  unfolding apply_update defeated_by wins find assign insert
  update_first tag parent x = refl

  update_next :
      (t p tag parent : Octets) (x y : ℕ)
      → wins parents (update_of tag parent y) (
          some
            (record { access = record { user = user; access = x }; tag = t; parent_special = p }))
        ≡ true
      → apply_update parents
          (won t p x)
          user
          (record { user = user; access = y })
          (update_of tag parent y)
        ≡ won tag parent y
  unfolding apply_update defeated_by find assign adjust
  update_next t p tag parent x y h = rw (eq_octets_refl user, h)

-- An update that neither saw the winner nor was seen by it wins by a smaller tag.
small_wins :
    (parents : List (Octets × Octets)) (user a b : Octets) (x y : ℕ)
    → lt_octets b a ≡ true
    → wins parents (update_of parents user b [] y) (
        some (record { access = record { user = user; access = x }; tag = a; parent_special = [] }))
      ≡ true
unfolding wins saw walk
small_wins parents user a b x y h = ground arith

child_wins :
    (a b c user : Octets) (y z : ℕ)
    → is_empty b ≡ false
    → wins (parents_of a b c) (update_of (parents_of a b c) user c b z) (
        some (record { access = record { user = user; access = y }; tag = b; parent_special = [] }))
      ≡ true
unfolding wins saw walk
child_wins a b c user y z nb = ground (arith, eq_octets_refl b)

cousin_wins :
    (a b c user : Octets) (x z : ℕ)
    → is_empty b ≡ false
    → lt_octets b a ≡ true
    → lt_octets a c ≡ true
    → wins
        (parents_of a b c)
        (update_of (parents_of a b c) user a [] x)
        (some (record { access = record { user = user; access = z }; tag = c; parent_special = b }))
      ≡ true
unfolding wins saw walk find
cousin_wins a b c user x z nb ba ac = ground (arith, eq_octets_refl b, lt_octets-ne b a ba)

fold_nil : (parents : List (Octets × Octets)) (s : FoldState) → fold parents s [] ≡ s
unfolding fold
fold_nil parents s = refl

-- Three updates one after the other.
order_lem :
    (parents : List (Octets × Octets)) (user : Octets) (s0 s1 s2 s3 : FoldState)
    (t1 p1 t2 p2 t3 p3 : Octets) (x y z : ℕ)
    → x ≢ no_access
    → y ≢ no_access
    → z ≢ no_access
    → apply_update parents s0 user
        (record { user = user; access = x })
        (update_of parents user t1 p1 x)
      ≡ s1
    → apply_update parents s1 user
        (record { user = user; access = y })
        (update_of parents user t2 p2 y)
      ≡ s2
    → apply_update parents s2 user
        (record { user = user; access = z })
        (update_of parents user t3 p3 z)
      ≡ s3
    → fold parents s0 (
        update_of parents user t1 p1 x
        ∷ update_of parents user t2 p2 y
        ∷ update_of parents user t3 p3 z
        ∷ [])
      ≡ s3
order_lem parents user s0 s1 s2 s3 t1 p1 t2 p2 t3 p3 x y z p q r e1 e2 e3 =
    fold_update parents user s0 t1 p1 x _ p
    ∙ ap
        (λ (s : FoldState).
          fold parents s (update_of parents user t2 p2 y ∷ update_of parents user t3 p3 z ∷ []))
        e1
    ∙ fold_update parents user s1 t2 p2 y _ q
    ∙ ap (λ (s : FoldState). fold parents s (update_of parents user t3 p3 z ∷ [])) e2
    ∙ fold_update parents user s2 t3 p3 z [] r
    ∙ ap (λ (s : FoldState). fold parents s []) e3
    ∙ fold_nil parents s3

-- Of three updates of one user, the first by a record `a`, the second by a record `b` of a smaller tag, neither of
-- which saw the other, and the third by a record `c` of a tag over that of `a` which saw `b`, the merge keeps the third
-- in the order a, b, c and the first in the order b, c, a: two orders of one set of entries, both with causes
-- before effects, have different results.
pub merge_user_changes-order :
    (a b c user : Octets) (x y z : ℕ)
    → is_empty b ≡ false
    → lt_octets b a ≡ true
    → lt_octets a c ≡ true
    → x ≢ no_access
    → y ≢ no_access
    → z ≢ no_access
    → let first = update_entry a [] (record { user = user; access = x }) in
      let second = update_entry b [] (record { user = user; access = y }) in
      let third = update_entry c b (record { user = user; access = z }) in
      (merge_user_changes (parents_of a b c) (first ∷ second ∷ third ∷ [])
        ≡ record { user = user; access = z } ∷ [])
      × (merge_user_changes (parents_of a b c) (second ∷ third ∷ first ∷ [])
          ≡ record { user = user; access = x } ∷ [])
unfolding merge_user_changes
merge_user_changes-order a b c user x y z nb ba ac p q r =
    let parents = parents_of a b c in
    let second_wins = update_next parents user a [] b [] x y (small_wins parents user a b x y ba) in
    let third_wins = update_next parents user b [] c b y z (child_wins a b c user y z nb) in
    let first_wins = update_next parents user c b a [] z x (cousin_wins a b c user x z nb ba ac) in
    (
      ap (λ (s : FoldState). map (λ e. e.1.access) s.members)
          (order_lem parents user empty_state (won parents user a [] x) (won parents user b [] y)
            (won parents user c b z) a [] b [] c b x y z p q r (update_first parents user a [] x)
            second_wins third_wins),
      ap (λ (s : FoldState). map (λ e. e.1.access) s.members)
          (order_lem parents user empty_state (won parents user b [] y) (won parents user c b z)
            (won parents user a [] x) b [] c b a [] y z x q r p (update_first parents user b [] y)
            third_wins first_wins),
    )
