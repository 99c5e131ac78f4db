-- ===== src/Users.antt =====
-- spsync/core/users.hpp, users.cpp and spsync/util/user.hpp: the access of users to a storage. A user id is
-- the octets of its public key id; serialisation's trailing data is left out.
pub mod Tests
pub mod Laws
use mathlib.Core.Option
use spsync.Prelude.{
  ℕ, zero, suc, ◌+◌, ◌-◌, ◌*◌, ◌/◌, ◌%◌, ◌^◌, ◌≤◌, ◌<◌, min, max, ◌≡◌, refl, sym, ap, ◌∙◌, subst,
  ◌≢◌, ◌↔◌, ◌⊎◌, inl, inr, Bool, true, false, not, ◌&&◌, ◌||◌, Option, none, some, List, [], ◌∷◌,
  ◌++◌, map, arith, ltb, leb, ◌==◌, if◌then◌else◌, Bool-cases, Option-cases, ==_iff, u64_mod, add64,
  sub64, length, get_elem?, take, All, Any, length-append, Octets, is_empty, eq_octets, lt_octets,
  eq_octets_iff,
}

pub data UsersChangeMode : Type 0 where
  full delta : UsersChangeMode

-- `access_type::no_access`; the other values are sums of bits.
abbrev pub no_access : ℕ
no_access = 0

pub record UserAccess : Type 0 where
  pub user : Octets
  pub access : ℕ

pub record Users : Type 0 where
  pub mode : UsersChangeMode
  pub users : List UserAccess

abbrev pub is_delta : UsersChangeMode → Bool
is_delta full = false
is_delta delta = true

-- The loop to the first entry of a user, and what becomes of it: replaced, or erased.
pub replace_first : UserAccess → List UserAccess → Option (List UserAccess)
replace_first a [] = none
replace_first a (u ∷ us) =
    let rest = Option.map (◌∷◌ u) (replace_first a us) in
    if eq_octets a.user u.user then some (a ∷ us) else rest

pub erase_first : Octets → List UserAccess → Option (List UserAccess)
erase_first uid [] = none
erase_first uid (u ∷ us) =
    let rest = Option.map (◌∷◌ u) (erase_first uid us) in
    if eq_octets uid u.user then some us else rest

abbrev or_else : List UserAccess → Option (List UserAccess) → List UserAccess
or_else us none = us
or_else us (some vs) = vs

pub add : Users → UserAccess → Users
unfolding replace_first
add u a = record u { users = or_else (u.users ++ (a ∷ [])) (replace_first a u.users) }

pub remove : Users → Octets → Users
unfolding replace_first erase_first
remove u uid =
    let gone : UserAccess = record { user = uid; access = no_access } in
    if is_delta u.mode
    then record u { users = or_else (u.users ++ (gone ∷ [])) (replace_first gone u.users) }
    else record u { users = or_else u.users (erase_first uid u.users) }
