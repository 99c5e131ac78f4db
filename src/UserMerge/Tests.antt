-- ===== src/UserMerge/Tests.antt =====
-- Runs of the lemmas on spsync/core/user_merge.cpp at updates of one user.
use spsync.Prelude.{List, Octets, false, eq_octets, ℕ, ◌≡◌, refl, [], ◌∷◌, arith, lt_octets}
use spsync.Users.{UserAccess}
use spsync.UserMerge.{
  UserChangeEntry, merge_user_changes, fold, apply_accesses, apply_access, apply_update,
  apply_removal, defeated_by, wins, saw, walk,
}
use spsync.UserMerge.Removals.{removals_since, fold-saw_removals}
use spsync.KeyMap.{find, assign, insert, adjust, erase}
use spsync.UserMerge.Order.{update_entry, parents_of, merge_user_changes-order}

abbrev access_to : ℕ → UserAccess
access_to x = record { user = 9 ∷ []; access = x }

merge_user_changes-order_example :
    (let parents = parents_of (2 ∷ []) (1 ∷ []) (3 ∷ []) in
      let first = update_entry (2 ∷ []) [] (access_to 1) in
      let second = update_entry (1 ∷ []) [] (access_to 2) in
      let third = update_entry (3 ∷ []) (1 ∷ []) (access_to 3) in
      (merge_user_changes parents (first ∷ second ∷ third ∷ []) ≡ access_to 3 ∷ [])
      × (merge_user_changes parents (second ∷ third ∷ first ∷ []) ≡ access_to 1 ∷ []))
unfolding lt_octets
merge_user_changes-order_example =
    merge_user_changes-order (2 ∷ []) (1 ∷ []) (3 ∷ []) (9 ∷ []) 1 2 3 refl refl refl (omega arith)
      (omega arith) (omega arith)

-- A user that is added, removed and added again by an update that saw the removal.
abbrev again : List UserChangeEntry
again =
    update_entry (1 ∷ []) [] (access_to 1)
    ∷ update_entry (2 ∷ []) (1 ∷ []) (access_to 0)
    ∷ update_entry (3 ∷ []) (2 ∷ []) (access_to 2)
    ∷ []

abbrev causes : List (Octets × Octets)
causes = (1 ∷ [], []) ∷ (2 ∷ [], 1 ∷ []) ∷ (3 ∷ [], 2 ∷ []) ∷ []

fold-saw_removals_example : defeated_by causes (2 ∷ []) (removals_since (9 ∷ []) [] again) ≡ false
unfolding fold apply_accesses apply_access apply_update apply_removal defeated_by wins saw walk find
    assign insert adjust erase eq_octets lt_octets
fold-saw_removals_example =
    fold-saw_removals causes again (9 ∷ [])
      (record { access = access_to 2; tag = 3 ∷ []; parent_special = 2 ∷ [] }) refl
