-- ===== src/Divergence/Merge.antt =====
-- What `find_divergence` of spsync/core/divergence.cpp finds.
use spsync.Prelude.{
  ℕ, ◌≤◌, ◌<◌, ◌≡◌, refl, ◌≢◌, ◌⊎◌, inl, List, [], ◌∷◌, arith, All, Any, Octets, eq_octets_iff,
}
use spsync.Divergence.{ChainBlockId, Divergence, find_step, find_from, find_divergence}

module _ (held : ℕ → Octets) where
  -- The log holds the sample's sequence, under the same hash or under another one.
  abbrev pub IsCommon : ChainBlockId → Type 0
  IsCommon b = (0 < b.sequence) × (held b.sequence ≢ []) × (held b.sequence ≡ b.hash)

  abbrev pub IsDivergent : ChainBlockId → Type 0
  IsDivergent b = (0 < b.sequence) × (held b.sequence ≢ []) × (held b.sequence ≢ b.hash)

  -- `d` is the newest common and the oldest divergent one of the samples and of `start`.
  pub record Finds (start : Divergence) (samples : List ChainBlockId) (d : Divergence)
      : Type 0 where
    pub common_grows : start.last_common ≤ d.last_common
    pub divergent_falls :
        0 < start.first_divergent
        → (0 < d.first_divergent) × (d.first_divergent ≤ start.first_divergent)
    pub common_bound : All (λ b. IsCommon b → b.sequence ≤ d.last_common) samples
    pub common_found :
        (d.last_common ≡ start.last_common)
        ⊎ Any (λ b. IsCommon b × (d.last_common ≡ b.sequence)) samples
    pub divergent_bound :
        All
          (λ b. IsDivergent b → (0 < d.first_divergent) × (d.first_divergent ≤ b.sequence))
          samples
    pub divergent_found :
        (d.first_divergent ≡ start.first_divergent)
        ⊎ Any (λ b. IsDivergent b × (d.first_divergent ≡ b.sequence)) samples

  find_step-Finds : (d : Divergence) (b : ChainBlockId) → Finds d (b ∷ []) (find_step held d b)
  unfolding find_step
  find_step-Finds d b = record {
    common_grows = ground arith;
    divergent_falls = ground arith;
    common_bound = ground (arith, eq_octets_iff (held b.sequence) b.hash);
    common_found = ground (arith, eq_octets_iff (held b.sequence) b.hash);
    divergent_bound = ground (arith, eq_octets_iff (held b.sequence) b.hash);
    divergent_found = ground (arith, eq_octets_iff (held b.sequence) b.hash);
  }

  find_from-Finds :
      (d : Divergence) (samples : List ChainBlockId) → Finds d samples (find_from held d samples)
  unfolding find_from
  find_from-Finds d [] = record {
    common_grows = omega arith;
    divergent_falls = ground arith;
    common_bound = tt;
    common_found = inl refl;
    divergent_bound = tt;
    divergent_found = inl refl;
  }
  find_from-Finds d (b ∷ samples) =
      let one = find_step-Finds d b in
      let rest = find_from-Finds (find_step held d b) samples in
      record {
        common_grows = omega arith;
        divergent_falls = ground arith;
        common_bound = ((λ c. omega (arith, one.common_bound.0 c)), rest.common_bound);
        common_found = ground arith;
        divergent_bound = ((λ c. ground (arith, one.divergent_bound.0 c)), rest.divergent_bound);
        divergent_found = ground arith;
      }

-- `find_divergence` finds the newest sample that the log holds under the same hash and the oldest that it holds under
-- another one: both are zero or stand in the samples, and bound every such sample.
pub find_divergence-Finds :
    (held : ℕ → Octets) (samples : List ChainBlockId)
    → Finds held
        (record { last_common = 0; first_divergent = 0 })
        samples
        (find_divergence samples held)
unfolding find_divergence
find_divergence-Finds held samples = find_from-Finds held _ samples
