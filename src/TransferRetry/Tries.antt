-- ===== src/TransferRetry/Tries.antt =====
-- How often spsync/transfer/transfer_retry.cpp tries a data again.
use spsync.Prelude.{
  ℕ, suc, ◌+◌, ◌≤◌, ◌≡◌, refl, subst, inl, inr, Bool, true, false, not, ◌&&◌, Option, none, List,
  [], ◌∷◌, arith, if◌then◌else◌, Bool-cases, Octets, eq_octets,
}
use spsync.KeyMap.{find}
use spsync.TransferRetry.{RetryConfig, Wait, TransferRetry, wait_or_new, scheduled, is_due, fire}
use spsync.TransferRetry.Histories.{
  Event, asked, ended, gave_up, dropped, shut, after, asks, tries, same_wait, wait_in, asked_wait,
  ended_wait, gave_up_wait, once_after,
}

module _ (config : RetryConfig) where
  abbrev owed : Wait → ℕ
  owed w = if w.pending then 1 else 0

  owed_le : (w : Wait) → owed w ≤ 1
  owed_le w = elim (Bool-cases w.pending) [
    | inl e ↦ rw e (omega arith)
    | inr e ↦ rw e (omega arith)
  ]

  asked_owed :
      (b : Bool) (hint : Option ℕ) (w : Wait) (t a : ℕ)
      → t + owed w ≤ a
      → t + owed (if b then (scheduled config hint w).0 else w) ≤ (if b then suc a else a)
  asked_owed true hint w t a h = omega (arith, owed_le (scheduled config hint w).0)
  asked_owed false hint w t a h = h

  ended_owed :
      (b due run : Bool) (w : Wait) (t a : ℕ)
      → (b ≡ true → due ≡ true → w.pending ≡ true)
      → t + owed w ≤ a
      → (if b && (due && run) then suc t else t)
          + owed (if b && due then record w { pending = false } else w)
        ≤ a
  ended_owed false due run w t a p h = h
  ended_owed true false run w t a p h = h
  ended_owed true true false w t a p h = omega arith
  ended_owed true true true w t a p h =
      omega (arith, subst (λ q. t + (if q then 1 else 0) ≤ a) (p refl refl) h)

  gave_up_owed :
      (b : Bool) (w : Wait) (t a : ℕ)
      → t + owed w ≤ a
      → t + owed (if b then record { backoff = none; pending = false } else w) ≤ a
  gave_up_owed true w t a h = omega arith
  gave_up_owed false w t a h = h

  due_pending :
      (j id : Octets) (g : ℕ) (s : TransferRetry)
      → eq_octets j id ≡ true
      → is_due j g s ≡ true
      → (wait_in id s).pending ≡ true
  unfolding is_due
  due_pending j id g s e due =
      subst (λ (w : Wait). w.pending ≡ true) (same_wait j id s.waits e) (grind arith)

  called :
      (j : Octets) (g : ℕ) (s : TransferRetry) → (fire j g s).1 ≡ (is_due j g s && not s.stopped)
  unfolding fire
  called j g s = elim (Bool-cases (is_due j g s)) [ inl e ↦ rw e refl | inr e ↦ rw e refl ]

  none_owed : (id : Octets) (t a : ℕ) → t ≤ a → t + owed (wait_or_new (find {V = Wait} id [])) ≤ a
  unfolding find
  none_owed id t a h = omega arith

  pub tries_after :
      (id : Octets) (events : List Event)
      → tries config id events + owed (wait_in id (after config events)) ≤ asks id events
  unfolding tries asks after
  tries_after id [] = none_owed id 0 0 (omega arith)
  tries_after id (asked j hint ∷ events) = rw (asked_wait config j id hint (after config events)) (
      asked_owed (eq_octets j id) hint _ (tries config id events) (asks id events)
        (tries_after id events))
  tries_after id (ended j generation ∷ events) =
      let s = after config events in
      rw (ended_wait config j id generation s, called j generation s)
        (ended_owed (eq_octets j id) (is_due j generation s) (not s.stopped) _
          (tries config id events) (asks id events) (due_pending j id generation s)
          (tries_after id events))
  tries_after id (gave_up j ∷ events) =
      rw (gave_up_wait config j id (after config events) (once_after config j events)) (
        gave_up_owed (eq_octets j id) _ (tries config id events) (asks id events)
          (tries_after id events))
  tries_after id (dropped ∷ events) = none_owed id _ _ (omega (arith, tries_after id events))
  tries_after id (shut ∷ events) = none_owed id _ _ (omega (arith, tries_after id events))
