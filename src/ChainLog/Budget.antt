-- ===== src/ChainLog/Budget.antt =====
-- The batches of spsync/server/server_lib/chain_log.cpp: their budget and what they hold.
use spsync.Prelude.{
  ℕ, suc, ◌+◌, ◌≤◌, ◌<◌, min, ◌≡◌, refl, sym, ◌∙◌, subst, ◌⊎◌, inl, inr, ◌||◌, List, [], ◌∷◌, ◌++◌,
  arith, ltb, leb, Bool-cases, length, length-append,
}
use mathlib.Core.List.{append_assoc, append-nil}
use spsync.Records.{BlockEnvelope}
use spsync.ChainLog.{cost_of, Batch, append_within_budget, batch, empty_batch}

-- What the envelopes of a list cost together.
unfoldable pub costs : List BlockEnvelope → ℕ
costs [] = 0
costs (env ∷ envs) = cost_of env + costs envs

-- A list is what is left of another, in its order.
pub data Sublist : List BlockEnvelope → List BlockEnvelope → Type 0 where
  empty : Sublist [] []
  keep :
      {x : BlockEnvelope} {xs ys : List BlockEnvelope} → Sublist xs ys → Sublist (x ∷ xs) (x ∷ ys)
  drop : {x : BlockEnvelope} {xs ys : List BlockEnvelope} → Sublist xs ys → Sublist xs (x ∷ ys)

costs-append : (xs ys : List BlockEnvelope) → costs (xs ++ ys) ≡ costs xs + costs ys
unfolding costs
costs-append [] ys = omega arith
costs-append (x ∷ xs) ys = ground (arith, costs-append xs ys)

-- A batch is within its budget, or of no more than two records; it counts what it uses.
record IsWithin (max_bytes : ℕ) (b : Batch) : Type 0 where
  counted : b.used ≡ costs b.out
  within : (b.used ≤ max_bytes) ⊎ (length b.out ≤ 2)

empty_costs : 0 ≡ costs []
unfolding costs
empty_costs = refl

-- What a batch uses, when it is longer by an envelope.
grown_counted :
    (b : Batch) (env : BlockEnvelope)
    → b.used ≡ costs b.out
    → b.used + cost_of env ≡ costs (b.out ++ (env ∷ []))
unfolding costs
grown_counted b env h = ground (arith, costs-append b.out (env ∷ []))

module _ (max_bytes : ℕ) where
  append_within_budget-IsWithin :
      (b : Batch) (env : BlockEnvelope)
      → IsWithin max_bytes b
      → IsWithin max_bytes (append_within_budget max_bytes b env)
  unfolding append_within_budget
  append_within_budget-IsWithin b env w =
      elim (Bool-cases (ltb (length b.out) 2 || leb (b.used + cost_of env) max_bytes)) [
        | inl t ↦ rw t (record {
          counted = grown_counted b env w.counted;
          within = ground (arith, length-append b.out (env ∷ []));
        })
        | inr f ↦ rw f w
      ]

  batch-IsWithin :
      (b : Batch) (envs : List BlockEnvelope)
      → IsWithin max_bytes b
      → IsWithin max_bytes (batch max_bytes b envs)
  unfolding batch
  batch-IsWithin b [] w = w
  batch-IsWithin b (env ∷ envs) w =
      batch-IsWithin (append_within_budget max_bytes b env) envs
        (append_within_budget-IsWithin b env w)

  append_within_budget-length :
      (b : Batch) (env : BlockEnvelope)
      → (length b.out ≤ length (append_within_budget max_bytes b env).out)
        × (min 2 (suc (length b.out)) ≤ length (append_within_budget max_bytes b env).out)
  unfolding append_within_budget
  append_within_budget-length b env =
      elim (Bool-cases (ltb (length b.out) 2 || leb (b.used + cost_of env) max_bytes)) [
        | inl t ↦ rw t (ground (arith, length-append b.out (env ∷ [])))
        | inr f ↦ rw f (ground arith)
      ]

  batch-length :
      (b : Batch) (envs : List BlockEnvelope)
      → (length b.out ≤ length (batch max_bytes b envs).out)
        × (min 2 (length b.out + length envs) ≤ length (batch max_bytes b envs).out)
  unfolding batch
  batch-length b [] = ground arith
  batch-length b (env ∷ envs) = ground (
    arith,
    batch-length (append_within_budget max_bytes b env) envs,
    append_within_budget-length b env,
  )

  abbrev longer : Batch → BlockEnvelope → Batch
  longer b env = record { out = b.out ++ (env ∷ []); used = b.used + cost_of env }

  append_within_budget-cases :
      (b : Batch) (env : BlockEnvelope)
      → (append_within_budget max_bytes b env ≡ longer b env)
        ⊎ (append_within_budget max_bytes b env ≡ b)
  unfolding append_within_budget
  append_within_budget-cases b env =
      elim (Bool-cases (ltb (length b.out) 2 || leb (b.used + cost_of env) max_bytes)) [
        | inl t ↦ inl (rw t refl)
        | inr f ↦ inr (rw f refl)
      ]

  -- What the loop adds to a batch is a part of what it meets.
  Adds : Batch → List BlockEnvelope → Batch → Type 0
  Adds b envs after =
      (added : List BlockEnvelope) × (after.out ≡ b.out ++ added) × Sublist added envs

  batch-Adds : (b : Batch) (envs : List BlockEnvelope) → Adds b envs (batch max_bytes b envs)
  unfolding batch Adds
  batch-Adds b [] = ([], sym (append-nil b.out), empty)
  batch-Adds b (env ∷ envs) = elim (append_within_budget-cases b env) [
    | inl t ↦
        subst (λ w. Adds b (env ∷ envs) (batch max_bytes w envs)) (sym t)
          (let (added, e, part) = batch-Adds (longer b env) envs in
            (env ∷ added, e ∙ append_assoc b.out (env ∷ []) added, keep part))
    | inr f ↦
        subst (λ w. Adds b (env ∷ envs) (batch max_bytes w envs)) (sym f)
          (let (added, e, part) = batch-Adds b envs in (added, e, drop part))
  ]

  -- A batch of what a query found holds a part of it in its order, costs at most the budget or is of no more than two
  -- records, and holds two records, or all that were found when there are fewer.
  pub batch_lem :
      (envs : List BlockEnvelope)
      → Sublist (batch max_bytes empty_batch envs).out envs
        × ((costs (batch max_bytes empty_batch envs).out ≤ max_bytes)
            ⊎ (length (batch max_bytes empty_batch envs).out ≤ 2))
        × (min 2 (length envs) ≤ length (batch max_bytes empty_batch envs).out)
  unfolding Adds
  batch_lem envs =
      let (added, e, part) = batch-Adds empty_batch envs in
      let w =
        batch-IsWithin empty_batch envs
          (record { counted = empty_costs; within = inr (omega arith) }) in
      (
        subst (λ out. Sublist out envs) (sym e) part,
        subst (λ n. (n ≤ max_bytes) ⊎ (length (batch max_bytes empty_batch envs).out ≤ 2)) w.counted
            w.within,
        ground (arith, batch-length empty_batch envs),
      )

  -- Of four records of which the third does not fit the budget beside the first two and the fourth does, the batch
  -- holds the first two and the fourth: it has a gap where the third is.
  pub batch_gap :
      (first second third fourth : BlockEnvelope)
      → max_bytes < cost_of first + cost_of second + cost_of third
      → cost_of first + cost_of second + cost_of fourth ≤ max_bytes
      → (batch max_bytes empty_batch (first ∷ second ∷ third ∷ fourth ∷ [])).out
        ≡ first ∷ second ∷ fourth ∷ []
  unfolding batch append_within_budget
  batch_gap first second third fourth big fits = ground arith
