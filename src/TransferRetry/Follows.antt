-- ===== src/TransferRetry/Follows.antt =====
-- What an owner of spsync/transfer/transfer_retry.cpp relies on.
use spsync.Prelude.{
  ℕ, zero, suc, ◌*◌, ◌^◌, ◌≤◌, min, ◌≡◌, refl, ap, ◌∙◌, inl, inr, Bool, true, false, ◌&&◌, Option,
  none, some, List, [], ◌∷◌, ◌++◌, arith, if◌then◌else◌, Bool-cases, Octets, eq_octets,
}
use spsync.TransferRetry.{RetryConfig, TransferRetry, value_or, scheduled, schedule, is_due, fire}
use spsync.TransferRetry.Histories.{
  Event, asked, ended, gave_up, dropped, shut, after, failures, asks, tries,
}
use spsync.TransferRetry.Delays.{doubled, backoff_after}
use spsync.TransferRetry.Tries.{tries_after}

-- The time until the next try that the comments promise: what the server says, up to the longest hint, or a wait that
-- doubles with every failure, up to the longest wait.
unfoldable pub time_until : RetryConfig → Option ℕ → ℕ → ℕ
time_until config (some hint) k = min hint config.max_hint
time_until config none zero = config.first
time_until config none (suc k) = min (config.first * 2 ^ suc k) config.max_wait

pub record Follows (config : RetryConfig) (id : Octets) (events : List Event) : Type 0 where
  pub delays :
      (hint : Option ℕ)
      → (schedule config id hint (after config events)).1
        ≡ time_until config hint (failures id events)
  pub tries_asked : tries config id events ≤ asks id events
  pub none_after_shut :
      (later : List Event) → tries config id (later ++ (shut ∷ events)) ≡ tries config id events

module _ (config : RetryConfig) where
  doubled_time : (k : ℕ) → value_or (doubled config k) config.first ≡ time_until config none k
  unfolding doubled time_until
  doubled_time zero = refl
  doubled_time (suc k) = refl

  delay_after :
      (id : Octets) (events : List Event) (hint : Option ℕ)
      → (schedule config id hint (after config events)).1
        ≡ time_until config hint (failures id events)
  unfolding schedule scheduled time_until
  delay_after id events none =
      ap (λ b. value_or b config.first) (backoff_after config id events)
      ∙ doubled_time (failures id events)
  delay_after id events (some hint) = refl

  fire-stopped : (j : Octets) (g : ℕ) (s : TransferRetry) → (fire j g s).0.stopped ≡ s.stopped
  unfolding fire
  fire-stopped j g s = elim (Bool-cases (is_due j g s)) [ inl e ↦ rw e refl | inr e ↦ rw e refl ]

  stays_stopped :
      (later events : List Event) → (after config (later ++ (shut ∷ events))).stopped ≡ true
  unfolding after
  stays_stopped [] events = refl
  stays_stopped (asked j hint ∷ later) events = stays_stopped later events
  stays_stopped (ended j g ∷ later) events = fire-stopped j g _ ∙ stays_stopped later events
  stays_stopped (gave_up j ∷ later) events = stays_stopped later events
  stays_stopped (dropped ∷ later) events = stays_stopped later events
  stays_stopped (shut ∷ later) events = refl

  not_called : (j : Octets) (g : ℕ) (s : TransferRetry) → s.stopped ≡ true → (fire j g s).1 ≡ false
  unfolding fire
  not_called j g s h = elim (Bool-cases (is_due j g s)) [
    | inl e ↦ rw e (rw h refl)
    | inr e ↦ rw e refl
  ]

  never_called : (b called : Bool) (n : ℕ) → called ≡ false → (if b && called then suc n else n) ≡ n
  never_called true called n e = rw e refl
  never_called false called n e = refl

  tries-append :
      (id : Octets) (later events : List Event)
      → tries config id (later ++ (shut ∷ events)) ≡ tries config id events
  unfolding tries
  tries-append id [] events = refl
  tries-append id (asked j hint ∷ later) events = tries-append id later events
  tries-append id (ended j g ∷ later) events =
      never_called (eq_octets j id) _ _
        (not_called j g (after config (later ++ (shut ∷ events))) (stays_stopped later events))
      ∙ tries-append id later events
  tries-append id (gave_up j ∷ later) events = tries-append id later events
  tries-append id (dropped ∷ later) events = tries-append id later events
  tries-append id (shut ∷ later) events = tries-append id later events

-- After any sequence of schedules, ends of waits (of any generation), forgets, cancels and shutdowns from a new object,
-- a schedule of a data waits for what the server's hint says, up to the longest hint, and without a hint for the first
-- wait when no failure was counted since the data was last forgotten or all were cancelled, else for the first wait
-- doubled by each failure, up to the longest wait; the retry function was called for the data at most once for each of
-- its schedules; and no event after a shutdown calls it.
pub after-Follows :
    (config : RetryConfig) (id : Octets) (events : List Event) → Follows config id events
after-Follows config id events = record {
  delays = delay_after config id events;
  tries_asked = omega (arith, tries_after config id events);
  none_after_shut = λ later. tries-append config id later events;
}
