-- ===== src/Users/Laws.antt =====
-- What `users::add` and `users::remove` of spsync/core/users.cpp leave.
use spsync.Prelude.{
  ℕ, ◌+◌, ◌≤◌, max, ◌≡◌, refl, sym, subst, inl, inr, true, false, Option, none, some, List, [], ◌∷◌,
  ◌++◌, arith, if◌then◌else◌, Bool-cases, Octets, eq_octets, eq_octets_iff,
}
use mathlib.Core.Option
use spsync.Users.{
  UserAccess, Users, no_access, is_delta, replace_first, erase_first, or_else, add, remove,
}

-- The access a user is listed with, and how often it is listed.
unfoldable pub access_of : Octets → List UserAccess → Option ℕ
access_of uid [] = none
access_of uid (u ∷ us) = if eq_octets uid u.user then some u.access else access_of uid us

unfoldable pub listed : Octets → List UserAccess → ℕ
listed uid [] = 0
listed uid (u ∷ us) = (if eq_octets uid u.user then 1 else 0) + listed uid us

or_else-map :
    (u : UserAccess) (us : List UserAccess) (r : Option (List UserAccess))
    → or_else (u ∷ us) (Option.map (◌∷◌ u) r) ≡ u ∷ or_else us r
or_else-map u us none = refl
or_else-map u us (some vs) = refl

-- A list in which the first entry of a user is replaced, or the entry is put at the end.
abbrev put : UserAccess → List UserAccess → List UserAccess
unfolding replace_first
put a us = or_else (us ++ (a ∷ [])) (replace_first a us)

put_first :
    (a u : UserAccess) (us : List UserAccess)
    → eq_octets a.user u.user ≡ true
    → put a (u ∷ us) ≡ a ∷ us
unfolding replace_first
put_first a u us h = rw (h)

put_later :
    (a u : UserAccess) (us : List UserAccess)
    → eq_octets a.user u.user ≡ false
    → put a (u ∷ us) ≡ u ∷ put a us
unfolding replace_first
put_later a u us h = rw (h, or_else-map u (us ++ (a ∷ [])) (replace_first a us))

access_of-put :
    (a : UserAccess) (us : List UserAccess) (uid : Octets)
    → access_of uid (put a us) ≡ (if eq_octets uid a.user then some a.access else access_of uid us)
unfolding access_of replace_first
access_of-put a [] uid = refl
access_of-put a (u ∷ us) uid =
    let wanted = λ (w : List UserAccess).
      access_of uid w ≡ (if eq_octets uid a.user then some a.access else access_of uid (u ∷ us)) in
    elim (Bool-cases (eq_octets a.user u.user)) [
      | inl t ↦ subst wanted (sym (put_first a u us t)) (
          ground (
            arith,
            eq_octets_iff uid a.user,
            eq_octets_iff uid u.user,
            eq_octets_iff a.user u.user,
          ))
      | inr f ↦ subst wanted (sym (put_later a u us f)) (
          ground (
            arith,
            access_of-put a us uid,
            eq_octets_iff uid a.user,
            eq_octets_iff uid u.user,
            eq_octets_iff a.user u.user,
          ))
    ]

listed-put :
    (a : UserAccess) (us : List UserAccess) (uid : Octets)
    → listed uid (put a us)
      ≡ (if eq_octets uid a.user then max 1 (listed uid us) else listed uid us)
unfolding listed replace_first
listed-put a [] uid = ground arith
listed-put a (u ∷ us) uid =
    let wanted = λ (w : List UserAccess).
      listed uid w
      ≡ (if eq_octets uid a.user then max 1 (listed uid (u ∷ us)) else listed uid (u ∷ us)) in
    elim (Bool-cases (eq_octets a.user u.user)) [
      | inl t ↦ subst wanted (sym (put_first a u us t)) (
          ground (
            arith,
            eq_octets_iff uid a.user,
            eq_octets_iff uid u.user,
            eq_octets_iff a.user u.user,
          ))
      | inr f ↦ subst wanted (sym (put_later a u us f)) (
          ground (
            arith,
            listed-put a us uid,
            eq_octets_iff uid a.user,
            eq_octets_iff uid u.user,
            eq_octets_iff a.user u.user,
          ))
    ]

unlisted : (uid : Octets) (us : List UserAccess) → listed uid us ≡ 0 → access_of uid us ≡ none
unfolding listed access_of
unlisted uid [] h = refl
unlisted uid (u ∷ us) h = ground (arith, unlisted uid us)

erased : Octets → List UserAccess → List UserAccess
unfolding erase_first
erased uid us = or_else us (erase_first uid us)

erased_first :
    (uid : Octets) (u : UserAccess) (us : List UserAccess)
    → eq_octets uid u.user ≡ true
    → erased uid (u ∷ us) ≡ us
unfolding erased erase_first
erased_first uid u us h = rw (h)

erased_later :
    (uid : Octets) (u : UserAccess) (us : List UserAccess)
    → eq_octets uid u.user ≡ false
    → erased uid (u ∷ us) ≡ u ∷ erased uid us
unfolding erased erase_first
erased_later uid u us h = rw (h, or_else-map u us (erase_first uid us))

access_of-erased :
    (gone : Octets) (us : List UserAccess) (uid : Octets)
    → listed gone us ≤ 1
    → access_of uid (erased gone us) ≡ (if eq_octets uid gone then none else access_of uid us)
unfolding access_of listed erased erase_first
access_of-erased gone [] uid few = ground arith
access_of-erased gone (u ∷ us) uid few =
    let wanted = λ (w : List UserAccess).
      access_of uid w ≡ (if eq_octets uid gone then none else access_of uid (u ∷ us)) in
    elim (Bool-cases (eq_octets gone u.user)) [
      | inl t ↦ subst wanted (sym (erased_first gone u us t)) (
          ground (
            arith,
            unlisted gone us (ground arith),
            eq_octets_iff uid gone,
            eq_octets_iff uid u.user,
            eq_octets_iff gone u.user,
          ))
      | inr f ↦ subst wanted (sym (erased_later gone u us f)) (
          ground (
            arith,
            access_of-erased gone us uid (ground arith),
            eq_octets_iff uid gone,
            eq_octets_iff uid u.user,
            eq_octets_iff gone u.user,
          ))
    ]

-- After `add` the user stands with the given access and every other user with the one it had; a list in which a user
-- stands at most once keeps that.
pub add-access_of :
    (u : Users) (a : UserAccess) (uid : Octets)
    → (access_of uid (add u a).users
        ≡ (if eq_octets uid a.user then some a.access else access_of uid u.users))
      × (listed uid (add u a).users
          ≡ (if eq_octets uid a.user then max 1 (listed uid u.users) else listed uid u.users))
unfolding add
add-access_of u a uid = (access_of-put a u.users uid, listed-put a u.users uid)

-- After `remove` on a list in which the user stands at most once, the user stands with no access in a delta and is
-- not listed in a full list; every other user stands with the access it had.
pub remove-access_of :
    (u : Users) (gone uid : Octets)
    → listed gone u.users ≤ 1
    → access_of uid (remove u gone).users ≡ (
        if eq_octets uid gone
        then (if is_delta u.mode then some no_access else none)
        else access_of uid u.users)
unfolding remove erased
remove-access_of u gone uid few = elim (Bool-cases (is_delta u.mode)) [
  | inl d ↦ rw (d) (access_of-put (record { user = gone; access = no_access }) u.users uid)
  | inr d ↦ rw (d) (access_of-erased gone u.users uid few)
]
