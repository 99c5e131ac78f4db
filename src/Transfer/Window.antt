-- ===== src/Transfer/Window.antt =====
-- The window of spsync/transfer/transfer_queue.hpp: how `fill_window` ends.
use spsync.Prelude.{
  ℕ, zero, suc, ◌+◌, ◌≤◌, ◌<◌, ◌≡◌, refl, ◌∙◌, ◌⊎◌, inl, inr, Bool, none, some, List, [], ◌∷◌, ◌++◌,
  arith, if◌then◌else◌, Option-cases, u64_mod, Octets, eq_octets,
}
use spsync.Cursor.Cover.{next-some}
use spsync.Transfer.{
  Transfer, TransferConfig, Action, opening, piece, ended, progress, Direction, window_step,
  fill_window,
}

-- How often the actions tell the owner that the transfer of a data ended.
module _ {E : Type 0} where
  unfoldable pub ended_count : Octets → List (Action E) → ℕ
  ended_count id [] = 0
  ended_count id (ended i e ∷ actions) =
      if eq_octets i id then suc (ended_count id actions) else ended_count id actions
  ended_count id (opening i ∷ actions) = ended_count id actions
  ended_count id (piece i p ∷ actions) = ended_count id actions
  ended_count id (progress i n m ∷ actions) = ended_count id actions

  pub ended_count-append :
      (id : Octets) (xs ys : List (Action E))
      → ended_count id (xs ++ ys) ≡ ended_count id xs + ended_count id ys
  unfolding ended_count
  ended_count-append id [] ys = omega arith
  ended_count-append id (ended i e ∷ xs) ys = ground (arith, ended_count-append id xs ys)
  ended_count-append id (opening i ∷ xs) ys = ended_count-append id xs ys
  ended_count-append id (piece i p ∷ xs) ys = ended_count-append id xs ys
  ended_count-append id (progress i n m ∷ xs) ys = ended_count-append id xs ys

module _ {E X : Type 0} (tag_size : ℕ) (config : TransferConfig) (has_progress : Bool)
    (direction : Direction E X) where
  -- What a round of the window loop leaves.
  record Filled (id : Octets) (t t' : Transfer E X) (actions : List (Action E)) : Type 0 where
    within : t'.outstanding ≤ config.window
    silent : (j : Octets) → ended_count j actions ≡ 0
    grows :
        (window_step tag_size config has_progress direction id t' ≡ none)
        ⊎ (t'.outstanding ≡ t.outstanding + 1)

  step_lem :
      (id : Octets) (t t' : Transfer E X) (actions : List (Action E))
      → config.window < u64_mod
      → t.outstanding ≤ config.window
      → window_step tag_size config has_progress direction id t ≡ some (t', actions)
      → Filled id t t' actions
  unfolding window_step ended_count
  step_lem id t t' actions w l e = record {
    within = ground (arith, next-some tag_size t.cursor config.piece_size);
    silent = λ j. ground (arith, next-some tag_size t.cursor config.piece_size);
    grows = ground (arith, next-some tag_size t.cursor config.piece_size);
  }

  pub fill_stop :
      (fuel : ℕ) (id : Octets) (t : Transfer E X)
      → window_step tag_size config has_progress direction id t ≡ none
      → fill_window tag_size config has_progress direction fuel id t ≡ (t, [])
  unfolding fill_window
  fill_stop zero id t e = refl
  fill_stop (suc fuel) id t e = rw (e, fill_window)

  pub fill_more :
      (fuel : ℕ) (id : Octets) (t t1 : Transfer E X) (actions : List (Action E))
      → window_step tag_size config has_progress direction id t ≡ some (t1, actions)
      → let rest = fill_window tag_size config has_progress direction fuel id t1 in
        fill_window tag_size config has_progress direction (suc fuel) id t
        ≡ (rest.0, actions ++ rest.1)
  unfolding fill_window
  fill_more fuel id t t1 actions e = rw (e, fill_window)

  -- The window loop ended by its test, within the window, and told nobody of an end.
  pub record Settled (id : Octets) (r : Transfer E X × List (Action E)) : Type 0 where
    pub within : r.0.outstanding ≤ config.window
    pub full : window_step tag_size config has_progress direction id r.0 ≡ none
    pub silent : (j : Octets) → ended_count j r.1 ≡ 0

  -- Within the window and with rounds for what is left of it, the window loop ends by its test: it can send no more, is
  -- within the window, and told nobody of an end.
  pub fill_window-Settled :
      (fuel : ℕ) (id : Octets) (t : Transfer E X)
      → config.window < u64_mod
      → t.outstanding ≤ config.window
      → config.window + 1 < fuel + t.outstanding
      → Settled id (fill_window tag_size config has_progress direction fuel id t)
  unfolding ended_count
  fill_window-Settled zero id t w l f = absurd (omega arith)
  fill_window-Settled (suc fuel) id t w l f =
      elim (Option-cases (window_step tag_size config has_progress direction id t)) [
        | inl e ↦
            rw (fill_stop (suc fuel) id t e) (record { within = l; full = e; silent = λ j. refl })
        | inr ((t1, actions), e) ↦
            let step = step_lem id t t1 actions w l e in
            rw (fill_more fuel id t t1 actions e) (elim step.grows [
              | inl stops ↦ rw (fill_stop fuel id t1 stops) (record {
                within = step.within;
                full = stops;
                silent = λ j. ended_count-append j actions [] ∙ omega (arith, step.silent j);
              })
              | inr grows ↦
                  let rest = fill_window-Settled fuel id t1 w step.within (omega arith) in
                  record {
                    within = rest.within;
                    full = rest.full;
                    silent = λ j.
                        ended_count-append j actions _
                        ∙ omega (arith, step.silent j, rest.silent j);
                  }
            ])
      ]
