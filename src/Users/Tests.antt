-- ===== src/Users/Tests.antt =====
-- Runs of the lemmas on spsync/core/users.cpp at a list of two users.
use spsync.Prelude.{◌≡◌, none, some, [], ◌∷◌, arith, eq_octets}
use spsync.Users.{Users, UserAccess, full, add, remove}
use spsync.Users.Laws.{access_of, listed, add-access_of, remove-access_of}

abbrev two_users : Users
two_users = record {
  mode = full;
  users = record { user = 1 ∷ []; access = 3 } ∷ record { user = 2 ∷ []; access = 1 } ∷ [];
}

abbrev second_user : UserAccess
second_user = record { user = 2 ∷ []; access = 7 }

add-access_of_example :
    (access_of (2 ∷ []) (add two_users second_user).users ≡ some 7)
    × (listed (2 ∷ []) (add two_users second_user).users ≡ 1)
unfolding access_of listed eq_octets
add-access_of_example = add-access_of two_users second_user (2 ∷ [])

remove-access_of_example : access_of (1 ∷ []) (remove two_users (1 ∷ [])).users ≡ none
unfolding access_of listed eq_octets
remove-access_of_example = remove-access_of two_users (1 ∷ []) (1 ∷ []) (omega arith)
