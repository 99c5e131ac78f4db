-- ===== src/Transfer/Sweep.antt =====
-- The loop of `collect` over the active transfers, of spsync/transfer/transfer_queue.hpp.
use spsync.Prelude.{
  ℕ, ◌+◌, ◌≤◌, ◌≡◌, refl, ◌∙◌, inl, inr, Bool, true, false, none, List, [], ◌∷◌, ◌++◌, arith,
  Bool-cases, length, All, Octets,
}
use spsync.KeyMap.Laws.{occurrences}
use spsync.Transfer.{
  Transfer, TransferConfig, Action, ended, Direction, may_finish, fill_window, window_rounds,
  window_step, sweep,
}
use spsync.Transfer.Window.{ended_count, ended_count-append, fill_window-Settled}
use spsync.Transfer.Start.{IsLawful, InWindow}

module _ {E X : Type 0} (tag_size : ℕ) (config : TransferConfig) (has_progress : Bool)
    (direction : Direction E X) where
  abbrev pub fill : Octets → Transfer E X → Transfer E X × List (Action E)
  fill =
      fill_window tag_size config has_progress direction
        (window_rounds tag_size config has_progress direction)

  abbrev pub sweeps :
      List (Octets × Transfer E X)
      → List (Octets × Transfer E X) × List (Action E) × List (Action E)
  sweeps = sweep tag_size config has_progress direction

  -- What the loop over the active transfers keeps, does and says.
  pub record Sweeps (active : List (Octets × Transfer E X))
      (r : List (Octets × Transfer E X) × List (Action E) × List (Action E)) : Type 0 where
    pub conserved : (id : Octets) → occurrences id active ≡ occurrences id r.0 + ended_count id r.2
    pub silent : (id : Octets) → ended_count id r.1 ≡ 0
    pub few : length r.0 ≤ length active
    pub windows : All (InWindow tag_size config has_progress direction) r.0
    pub live : All (λ e. may_finish e.1 ≡ false) r.0
    pub full : All (λ e. window_step tag_size config has_progress direction e.0 e.1 ≡ none) r.0

  pub sweep_ends :
      (id : Octets) (t : Transfer E X) (active : List (Octets × Transfer E X))
      → may_finish (fill id t).0 ≡ true
      → sweeps ((id, t) ∷ active) ≡ (
        (sweeps active).0,
        (fill id t).1 ++ (sweeps active).1,
        ended id (direction.outcome (fill id t).0) ∷ (sweeps active).2,
      )
  unfolding sweep
  sweep_ends id t active h = rw (h, sweep)

  sweep_keeps :
      (id : Octets) (t : Transfer E X) (active : List (Octets × Transfer E X))
      → may_finish (fill id t).0 ≡ false
      → sweeps ((id, t) ∷ active) ≡ (
        (id, (fill id t).0) ∷ (sweeps active).0,
        (fill id t).1 ++ (sweeps active).1,
        (sweeps active).2,
      )
  unfolding sweep
  sweep_keeps id t active h = rw (h, sweep)

  pub sweep-Sweeps :
      (active : List (Octets × Transfer E X))
      → IsLawful tag_size config has_progress direction
      → All (InWindow tag_size config has_progress direction) active
      → Sweeps active (sweeps active)
  unfolding ended_count occurrences sweep
  sweep-Sweeps [] law w = record {
    conserved = λ id. omega arith;
    silent = λ id. refl;
    few = omega arith;
    windows = tt;
    live = tt;
    full = tt;
  }
  sweep-Sweeps ((id, t) ∷ active) law w =
      let r = sweep-Sweeps active law w.1 in
      let s =
        fill_window-Settled tag_size config has_progress direction (config.window + 2) id t
          law.counts w.0 (omega arith) in
      let silent : (j : Octets) → ended_count j ((fill id t).1 ++ (sweeps active).1) ≡ 0 = λ j.
        ended_count-append j (fill id t).1 (sweeps active).1
        ∙ omega (arith, s.silent j, r.silent j) in
      elim (Bool-cases (may_finish (fill id t).0)) [
        | inl h ↦ rw (sweep_ends id t active h) (record {
          conserved = λ j. ground (arith, r.conserved j);
          silent = silent;
          few = omega (arith, r.few);
          windows = r.windows;
          live = r.live;
          full = r.full;
        })
        | inr h ↦ rw (sweep_keeps id t active h) (record {
          conserved = λ j. ground (arith, r.conserved j);
          silent = silent;
          few = omega (arith, r.few);
          windows = (s.within, r.windows);
          live = (h, r.live);
          full = (s.full, r.full);
        })
      ]
