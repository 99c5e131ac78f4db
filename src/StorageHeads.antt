-- ===== src/StorageHeads.antt =====
-- spsync/server/server_lib/storage_heads.cpp: the newest block that is known of each origin server.
-- The table is its rows by origin. An origin is valid when its id has octets.
pub mod Laws
pub mod Tests
use spsync.Prelude.{
  ℕ, zero, suc, ◌+◌, ◌-◌, ◌*◌, ◌/◌, ◌%◌, ◌^◌, ◌≤◌, ◌<◌, min, max, ◌≡◌, refl, sym, ap, ◌∙◌, subst,
  ◌≢◌, ◌↔◌, ◌⊎◌, inl, inr, Bool, true, false, not, ◌&&◌, ◌||◌, Option, none, some, List, [], ◌∷◌,
  ◌++◌, map, arith, ltb, leb, ◌==◌, if◌then◌else◌, Bool-cases, Option-cases, ==_iff, u64_mod, add64,
  sub64, length, get_elem?, take, All, Any, length-append, Octets, is_empty, eq_octets, lt_octets,
  eq_octets_iff,
}
use spsync.Sequence.{is_valid}
use spsync.KeyMap.{find, assign, erase}
use spsync.Divergence.{ChainBlockId}

pub record OriginHead : Type 0 where
  pub origin : Octets
  pub term : ℕ
  pub block : ChainBlockId

unfoldable pub is_valid_block : ChainBlockId → Bool
unfolding is_valid
is_valid_block b = is_valid b.sequence && not (is_empty b.hash)

-- `std::pair::operator<` of term and sequence.
unfoldable pub older : OriginHead → OriginHead → Bool
older a b = ltb a.term b.term || (not (ltb b.term a.term) && ltb a.block.sequence b.block.sequence)

unfoldable pub newer : Option OriginHead → OriginHead → Bool
unfolding older
newer none head = true
newer (some existing) head = older existing head

-- What `advance` stores and returns; none is an exception.
unfoldable pub advance :
    List (Octets × OriginHead) → OriginHead → Option (Bool × List (Octets × OriginHead))
unfolding is_valid_block newer find assign
advance heads head =
    if is_empty head.origin || not (is_valid_block head.block)
    then none
    else if newer (find head.origin heads) head
    then some (true, assign head.origin head heads)
    else some (false, heads)

unfoldable pub remove : List (Octets × OriginHead) → Octets → List (Octets × OriginHead)
unfolding erase
remove heads origin = erase origin heads
