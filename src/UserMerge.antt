-- ===== src/UserMerge.antt =====
-- spsync/core/user_merge.hpp and user_merge.cpp: the merge of the user changes of a storage.
pub mod Tests
pub mod Order
pub mod Removals
use spsync.Prelude.{
  ℕ, zero, suc, ◌+◌, ◌-◌, ◌*◌, ◌/◌, ◌%◌, ◌^◌, ◌≤◌, ◌<◌, min, max, ◌≡◌, refl, sym, ap, ◌∙◌, subst,
  ◌≢◌, ◌↔◌, ◌⊎◌, inl, inr, Bool, true, false, not, ◌&&◌, ◌||◌, Option, none, some, List, [], ◌∷◌,
  ◌++◌, map, arith, ltb, leb, ◌==◌, if◌then◌else◌, Bool-cases, Option-cases, ==_iff, u64_mod, add64,
  sub64, length, get_elem?, take, All, Any, length-append, Octets, is_empty, eq_octets, lt_octets,
  eq_octets_iff,
}
use spsync.Users.{UserAccess, Users, UsersChangeMode, full, delta, is_delta, no_access}
use spsync.KeyMap.{find, assign, erase}

pub record UserChangeEntry : Type 0 where
  pub change : Users
  pub tag : Octets
  pub parent_special : Octets

abbrev pub or_empty : Option Octets → Octets
or_empty none = []
or_empty (some t) = t

-- The loop of `saw` with the rounds its guard leaves; `step` is where the walk stands.
unfoldable pub walk : ℕ → Octets → Octets → List (Octets × Octets) → Bool
walk zero ancestor step parents = false
walk (suc guard) ancestor step parents =
    let further = walk guard ancestor (or_empty (find step parents)) parents in
    if is_empty step then false else if eq_octets step ancestor then true else further

unfoldable pub saw : Octets → Octets → List (Octets × Octets) → Bool
unfolding walk
saw ancestor from_parent parents = walk (suc (length parents)) ancestor from_parent parents

pub record MemberState : Type 0 where
  pub access : UserAccess
  pub tag : Octets
  pub parent_special : Octets

pub record Removal : Type 0 where
  pub tag : Octets
  pub parent_special : Octets

pub record FoldState : Type 0 where
  pub members : List (Octets × MemberState)
  pub removals : List (Octets × List Removal)

abbrev pub or_nil : Option (List Removal) → List Removal
or_nil none = []
or_nil (some rs) = rs

abbrev pub empty_state : FoldState
empty_state = record { members = []; removals = [] }

module _ (parents : List (Octets × Octets)) where
  abbrev unseen_by : Octets → Option MemberState → Bool
  unseen_by tag none = false
  unseen_by tag (some m) = not (saw tag m.parent_special parents)

  pub apply_removal : FoldState → Octets → UserChangeEntry → FoldState
  apply_removal state kid entry =
      let members =
        if unseen_by entry.tag (find kid state.members)
        then erase kid state.members
        else state.members in
      let removal : Removal = record { tag = entry.tag; parent_special = entry.parent_special } in
      record {
        members = members;
        removals = assign kid (or_nil (find kid state.removals) ++ (removal ∷ [])) state.removals;
      }

  -- Some removal is not in the causal past of an update.
  pub defeated_by : Octets → List Removal → Bool
  defeated_by parent [] = false
  defeated_by parent (r ∷ rs) = not (saw r.tag parent parents) || defeated_by parent rs

  pub wins : UserChangeEntry → Option MemberState → Bool
  wins entry none = true
  wins entry (some m) =
      if saw m.tag entry.parent_special parents
      then true
      else if not (saw entry.tag m.parent_special parents)
      then lt_octets entry.tag m.tag
      else false

  pub apply_update : FoldState → Octets → UserAccess → UserChangeEntry → FoldState
  apply_update state kid access entry =
      if defeated_by entry.parent_special (or_nil (find kid state.removals))
      then state
      else if wins entry (find kid state.members)
      then record state {
        members =
            assign kid
              (record { access = access; tag = entry.tag; parent_special = entry.parent_special })
              state.members;
      }
      else state

  pub apply_access : FoldState → UserChangeEntry → UserAccess → FoldState
  apply_access state entry ua =
      if ua.access == no_access
      then apply_removal state ua.user entry
      else apply_update state ua.user ua entry

  pub apply_accesses : FoldState → UserChangeEntry → List UserAccess → FoldState
  apply_accesses state entry [] = state
  apply_accesses state entry (ua ∷ uas) = apply_accesses (apply_access state entry ua) entry uas

  pub fold : FoldState → List UserChangeEntry → FoldState
  fold state [] = state
  fold state (entry ∷ entries) =
      let start = if is_delta entry.change.mode then state else empty_state in
      fold (apply_accesses start entry entry.change.users) entries

  pub merge_user_changes : List UserChangeEntry → List UserAccess
  merge_user_changes entries = map (λ e. e.1.access) (fold empty_state entries).members
