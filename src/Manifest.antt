-- ===== src/Manifest.antt =====
-- spsync/core/data/data_manifest.cpp: the digests of the chunks of a data, in order. The hash and the
-- size of a digest are the crypto library's.
pub mod Laws
use spsync.Prelude.{
  ℕ, zero, suc, ◌+◌, ◌-◌, ◌*◌, ◌/◌, ◌%◌, ◌^◌, ◌≤◌, ◌<◌, min, max, ◌≡◌, refl, sym, ap, ◌∙◌, subst,
  ◌≢◌, ◌↔◌, ◌⊎◌, inl, inr, Bool, true, false, not, ◌&&◌, ◌||◌, Option, none, some, List, [], ◌∷◌,
  ◌++◌, map, arith, ltb, leb, ◌==◌, if◌then◌else◌, Bool-cases, Option-cases, ==_iff, u64_mod, add64,
  sub64, length, get_elem?, take, All, Any, length-append, Octets, is_empty, eq_octets, lt_octets,
  eq_octets_iff,
}
use spsync.Descriptor.{DataDescriptor, chunk_count}

-- The digests one after the other: what is hashed, and what the table keeps.
unfoldable pub joined : List Octets → Octets
joined [] = []
joined (d ∷ digests) = d ++ joined digests

unfoldable pub skip : ℕ → Octets → Octets
skip zero os = os
skip (suc n) [] = []
skip (suc n) (o ∷ os) = skip n os

-- `k` digests from the front.
unfoldable pub cut : ℕ → ℕ → Octets → List Octets
unfolding skip
cut size zero os = []
cut size (suc k) os = take size os ∷ cut size k (skip size os)

unfoldable pub digest : (Octets → Octets) → List Octets → Octets
unfolding joined
digest hash digests = hash (joined digests)

unfoldable pub matches : ℕ → (Octets → Octets) → List Octets → DataDescriptor → Bool
unfolding digest
matches tag_size hash digests d =
    length digests == chunk_count tag_size d && eq_octets (digest hash digests) d.manifest_digest

unfoldable pub verify_chunk : (Octets → Octets) → List Octets → ℕ → Octets → Bool
verify_chunk hash digests chunk_no encrypted = elim (get_elem? digests chunk_no) [
  | none ↦ false
  | some d ↦ eq_octets d (hash encrypted)
]

unfoldable pub from_octets : ℕ → Octets → Option (List Octets)
unfolding cut
from_octets digest_size os =
    if length os % digest_size == 0
    then some (cut digest_size (length os / digest_size) os)
    else none
