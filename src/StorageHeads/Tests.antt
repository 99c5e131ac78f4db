-- ===== src/StorageHeads/Tests.antt =====
-- A run of the lemma on spsync/server/server_lib/storage_heads.cpp at three heads of two origins.
use spsync.Prelude.{ℕ, List, [], ◌∷◌}
use spsync.KeyMap.{find}
use spsync.StorageHeads.{OriginHead}
use spsync.StorageHeads.Laws.{advances, HoldsNewest, advances-HoldsNewest}

abbrev head_of : ℕ → ℕ → OriginHead
head_of origin sequence = record {
  origin = origin ∷ [];
  term = 0;
  block = record { sequence = sequence; hash = 5 ∷ [] };
}

abbrev three_heads : List OriginHead
three_heads = head_of 1 4 ∷ head_of 2 9 ∷ head_of 1 3 ∷ []

advances-HoldsNewest_example :
    HoldsNewest (1 ∷ []) (find (1 ∷ []) []) three_heads (find (1 ∷ []) (advances [] three_heads))
advances-HoldsNewest_example = advances-HoldsNewest [] three_heads (1 ∷ [])
