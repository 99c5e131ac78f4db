-- ===== src/TransferRetry/Delays.antt =====
-- How long spsync/transfer/transfer_retry.cpp lets a data wait after its failures.
use spsync.Prelude.{
  ℕ, zero, suc, ◌*◌, ◌^◌, min, ◌≡◌, refl, ap, ◌∙◌, Bool, true, false, ◌&&◌, Option, none, some,
  List, [], ◌∷◌, arith, if◌then◌else◌, Octets, eq_octets,
}
use native.Mathlib.Nat.{pow-suc}
use spsync.KeyMap.{find}
use spsync.TransferRetry.{RetryConfig, Wait, wait_or_new, scheduled, is_due}
use spsync.TransferRetry.Histories.{
  Event, asked, ended, gave_up, dropped, shut, after, failures, wait_in, asked_wait, ended_wait,
  gave_up_wait, once_after,
}

two_more : (n k : ℕ) → n * 2 ^ suc k ≡ n * 2 ^ k * 2
two_more n k = rw (pow-suc 2 k) (grind arith)

module _ (config : RetryConfig) where
  -- The wait after a number of failures.
  unfoldable pub doubled : ℕ → Option ℕ
  doubled zero = none
  doubled (suc k) = some (min (config.first * 2 ^ suc k) config.max_wait)

  -- One more failure doubles the wait, up to the longest.
  doubled-suc :
      (w : Wait) (k : ℕ)
      → w.backoff ≡ doubled k
      → (scheduled config none w).0.backoff ≡ doubled (suc k)
  unfolding scheduled doubled
  doubled-suc w zero e = rw e (ap some (ap (λ (t : ℕ). min t config.max_wait) (omega arith)))
  doubled-suc w (suc k) e = rw e (ap some (omega (arith, two_more config.first (suc k))))

  asked_backoff :
      (b : Bool) (w : Wait) (k : ℕ)
      → w.backoff ≡ doubled k
      → (if b then (scheduled config none w).0 else w).backoff ≡ doubled (if b then suc k else k)
  asked_backoff true w k e = doubled-suc w k e
  asked_backoff false w k e = e

  hinted_backoff :
      (b : Bool) (hint : ℕ) (w : Wait)
      → (if b then (scheduled config (some hint) w).0 else w).backoff ≡ w.backoff
  unfolding scheduled
  hinted_backoff true hint w = refl
  hinted_backoff false hint w = refl

  ended_backoff :
      (b : Bool) (w : Wait) → (if b then record w { pending = false } else w).backoff ≡ w.backoff
  ended_backoff true w = refl
  ended_backoff false w = refl

  gave_up_backoff :
      (b : Bool) (w : Wait) (k : ℕ)
      → w.backoff ≡ doubled k
      → (if b then record { backoff = none; pending = false } else w).backoff
        ≡ doubled (if b then 0 else k)
  unfolding doubled
  gave_up_backoff true w k e = refl
  gave_up_backoff false w k e = e

  none_yet : (id : Octets) → (wait_or_new (find {V = Wait} id [])).backoff ≡ doubled 0
  unfolding find doubled
  none_yet id = refl

  pub backoff_after :
      (id : Octets) (events : List Event)
      → (wait_in id (after config events)).backoff ≡ doubled (failures id events)
  unfolding after failures
  backoff_after id [] = none_yet id
  backoff_after id (asked j none ∷ events) =
      ap (λ w. w.backoff) (asked_wait config j id none (after config events))
      ∙ asked_backoff (eq_octets j id) _ (failures id events) (backoff_after id events)
  backoff_after id (asked j (some hint) ∷ events) =
      ap (λ w. w.backoff) (asked_wait config j id (some hint) (after config events))
      ∙ hinted_backoff (eq_octets j id) hint _
      ∙ backoff_after id events
  backoff_after id (ended j generation ∷ events) =
      ap (λ w. w.backoff) (ended_wait config j id generation (after config events))
      ∙ ended_backoff (eq_octets j id && is_due j generation (after config events)) _
      ∙ backoff_after id events
  backoff_after id (gave_up j ∷ events) =
      ap (λ w. w.backoff)
        (gave_up_wait config j id (after config events) (once_after config j events))
      ∙ gave_up_backoff (eq_octets j id) _ (failures id events) (backoff_after id events)
  backoff_after id (dropped ∷ events) = none_yet id
  backoff_after id (shut ∷ events) = none_yet id
