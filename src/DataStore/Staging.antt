-- ===== src/DataStore/Staging.antt =====
-- How staged chunks become the files of a data, in commit_staging of spsync/core/data/chunk_files.cpp.
use spsync.Prelude.{
  Bool-cases, ℕ, ◌<◌, ◌≡◌, refl, sym, ◌∙◌, subst, ◌⊎◌, inl, inr, Bool, true, false, Option, some,
  Octets, eq_octets,
}
use spsync.KeyMap.Laws.{eq_octets_refl}
use spsync.ChunkFiles.{ChunkFiles, commit_staging}
use spsync.ChunkFiles
use spsync.DataStore.Consistent.{IsAuthentic, Held}

commit_replaced :
    (files : ChunkFiles) (staged : ℕ → Option Octets) (id : Octets) (m : ℕ)
    → (commit_staging files staged id true).chunk id m ≡ staged m
unfolding commit_staging ChunkFiles.remove
commit_replaced files staged id m = rw (eq_octets_refl id) (rw (eq_octets_refl id) refl)

commit_new :
    (files : ChunkFiles) (staged : ℕ → Option Octets) (id : Octets) (m : ℕ)
    → files.folder id ≡ false
    → (commit_staging files staged id false).chunk id m ≡ staged m
unfolding commit_staging
commit_new files staged id m h = rw (h, eq_octets_refl id) refl

commit_there :
    (files : ChunkFiles) (staged : ℕ → Option Octets) (id : Octets)
    → files.folder id ≡ true
    → commit_staging files staged id false ≡ files
unfolding commit_staging
commit_there files staged id h = rw (h, commit_staging) refl

pub commit_else :
    (files : ChunkFiles) (staged : ℕ → Option Octets) (id j : Octets) (replace : Bool) (m : ℕ)
    → eq_octets id j ≡ false
    → (commit_staging files staged id replace).chunk j m ≡ files.chunk j m
unfolding commit_staging ChunkFiles.remove
commit_else files staged id j true m off = rw (eq_octets_refl id, off) refl
commit_else files staged id j false m off = elim (Bool-cases (files.folder id)) [
  | inl there ↦ rw there refl
  | inr new ↦ rw (new, off) refl
]

module _ (tag_size digest_size : ℕ) (hash : Octets → Octets) where
  -- The staged chunks take the place of what is held, or no folder of the data is there, or all its chunks are there.
  abbrev pub TakesPlace : ChunkFiles → Octets → ℕ → Bool → Type 0
  TakesPlace files id count replace =
      (replace ≡ true)
      ⊎ ((files.folder id ≡ false)
          ⊎ ((m : ℕ) → m < count → Held tag_size digest_size hash files id m))

  pub commit-Held :
      (files : ChunkFiles) (staged : ℕ → Option Octets) (id : Octets) (count : ℕ) (replace : Bool)
      (m : ℕ)
      → TakesPlace files id count replace
      → m < count
      → (c : Octets) × ((staged m ≡ some c) × IsAuthentic tag_size digest_size hash id m c)
      → Held tag_size digest_size hash (commit_staging files staged id replace) id m
  commit-Held files staged id count true m p l (c, (at, real)) =
      (c, (commit_replaced files staged id m ∙ at, real))
  commit-Held files staged id count false m p l (c, (at, real)) =
      elim (Bool-cases (files.folder id)) [
        | inr new ↦ (c, (commit_new files staged id m new ∙ at, real))
        | inl there ↦
            subst (λ f. Held tag_size digest_size hash f id m)
              (sym (commit_there files staged id there))
              (elim p [
                | inl replaced ↦ cc
                | inr q ↦ elim q [ inl new ↦ cc | inr whole ↦ whole m l ]
              ])
      ]
