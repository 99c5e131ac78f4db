-- ===== src/TransferRetry/Histories.antt =====
-- The histories of spsync/transfer/transfer_retry.cpp, and the wait of one data after each event of them.
use spsync.Prelude.{
  ℕ, suc, ◌≤◌, ◌≡◌, refl, ap, inl, inr, Bool, true, false, ◌&&◌, Option, none, some, List, [], ◌∷◌,
  arith, if◌then◌else◌, Bool-cases, Octets, eq_octets, eq_octets_iff,
}
use spsync.KeyMap.{find, assign, erase}
use spsync.KeyMap.Laws.{occurrences, occurrences-assign, find-assign, find-erase}
use spsync.TransferRetry.{
  RetryConfig, Wait, TransferRetry, wait_or_new, scheduled, schedule, forget, cancel, shutdown,
  is_due, fire,
}

pub data Event : Type 0 where
  asked : Octets → Option ℕ → Event
  ended : Octets → ℕ → Event
  gave_up : Octets → Event
  dropped shut : Event

abbrev fresh : TransferRetry
fresh = record { waits = []; generation = 0; stopped = false }

unfoldable pub step : RetryConfig → Event → TransferRetry → TransferRetry
unfolding schedule fire forget cancel shutdown
step config (asked id hint) s = (schedule config id hint s).0
step config (ended id generation) s = (fire id generation s).0
step config (gave_up id) s = forget id s
step config dropped s = cancel s
step config shut s = shutdown s

-- The state after a history; the latest event stands first.
unfoldable pub after : RetryConfig → List Event → TransferRetry
unfolding step
after config [] = fresh
after config (e ∷ events) = step config e (after config events)

-- The failures of a data without a hint since it was forgotten.
unfoldable pub failures : Octets → List Event → ℕ
failures id [] = 0
failures id (asked j none ∷ events) =
    let rest = failures id events in if eq_octets j id then suc rest else rest
failures id (asked j (some hint) ∷ events) = failures id events
failures id (ended j generation ∷ events) = failures id events
failures id (gave_up j ∷ events) = if eq_octets j id then 0 else failures id events
failures id (dropped ∷ events) = 0
failures id (shut ∷ events) = 0

-- How often a data was asked to be tried again, and how often it was.
unfoldable pub asks : Octets → List Event → ℕ
asks id [] = 0
asks id (asked j hint ∷ events) =
    let rest = asks id events in if eq_octets j id then suc rest else rest
asks id (ended j generation ∷ events) = asks id events
asks id (gave_up j ∷ events) = asks id events
asks id (dropped ∷ events) = asks id events
asks id (shut ∷ events) = asks id events

unfoldable pub tries : RetryConfig → Octets → List Event → ℕ
tries config id [] = 0
tries config id (ended j generation ∷ events) =
    let rest = tries config id events in
    if eq_octets j id && (fire j generation (after config events)).1 then suc rest else rest
tries config id (asked j hint ∷ events) = tries config id events
tries config id (gave_up j ∷ events) = tries config id events
tries config id (dropped ∷ events) = tries config id events
tries config id (shut ∷ events) = tries config id events

occurrences-erase_le :
    (k j : Octets) (m : List (Octets × Wait)) → occurrences k (erase j m) ≤ occurrences k m
unfolding occurrences erase
occurrences-erase_le k j [] = omega arith
occurrences-erase_le k j ((i, w) ∷ m) = ground (arith, occurrences-erase_le k j m)

assign_once :
    (k j : Octets) (w : Wait) (m : List (Octets × Wait))
    → occurrences j m ≤ 1
    → occurrences j (assign k w m) ≤ 1
assign_once k j w m h = ground (arith, occurrences-assign k j w m)

-- The wait of a data after another or its own was assigned.
wait_assigned :
    (k j : Octets) (w : Wait) (m : List (Octets × Wait))
    → wait_or_new (find j (assign k w m)) ≡ (if eq_octets k j then w else wait_or_new (find j m))
wait_assigned k j w m = elim (Bool-cases (eq_octets k j)) [
  | inl e ↦ rw (find-assign k j w m, e) refl
  | inr e ↦ rw (find-assign k j w m, e) refl
]

pub same_wait :
    (k j : Octets) (m : List (Octets × Wait))
    → eq_octets k j ≡ true
    → wait_or_new (find k m) ≡ wait_or_new (find j m)
same_wait k j m e = ap (λ i. wait_or_new (find i m)) ((eq_octets_iff k j).0 e)

if_off : (b : Bool) (v w : Wait) → w ≡ (if b && false then v else w)
if_off true v w = refl
if_off false v w = refl

ended_once :
    (id j : Octets) (g : ℕ) (s : TransferRetry)
    → occurrences id s.waits ≤ 1
    → occurrences id (fire j g s).0.waits ≤ 1
unfolding fire
ended_once id j g s h = elim (Bool-cases (is_due j g s)) [
  | inl due ↦ rw due (assign_once j id _ s.waits h)
  | inr off ↦ rw off h
]

abbrev pub wait_in : Octets → TransferRetry → Wait
wait_in id s = wait_or_new (find id s.waits)

module _ (config : RetryConfig) where
  pub asked_wait :
      (j id : Octets) (hint : Option ℕ) (s : TransferRetry)
      → wait_in id (schedule config j hint s).0
        ≡ (if eq_octets j id then (scheduled config hint (wait_in id s)).0 else wait_in id s)
  unfolding schedule
  asked_wait j id hint s = elim (Bool-cases (eq_octets j id)) [
    | inl e ↦
        rw
          (
            wait_assigned j id (scheduled config hint (wait_in j s)).0 s.waits,
            e,
            same_wait j id s.waits e,
          )
          refl
    | inr e ↦ rw (wait_assigned j id (scheduled config hint (wait_in j s)).0 s.waits, e) refl
  ]

  pub ended_wait :
      (j id : Octets) (g : ℕ) (s : TransferRetry)
      → wait_in id (fire j g s).0 ≡ (
          if eq_octets j id && is_due j g s
          then record (wait_in id s) { pending = false }
          else wait_in id s)
  unfolding fire
  ended_wait j id g s = elim (Bool-cases (is_due j g s)) [
    | inr off ↦ rw off (if_off (eq_octets j id) _ _)
    | inl due ↦ elim (Bool-cases (eq_octets j id)) [
      | inl e ↦
          rw
            (
              due,
              wait_assigned j id (record (wait_in j s) { pending = false }) s.waits,
              e,
              same_wait j id s.waits e,
            )
            refl
      | inr e ↦
          rw (due, wait_assigned j id (record (wait_in j s) { pending = false }) s.waits, e) refl
    ]
  ]

  pub gave_up_wait :
      (j id : Octets) (s : TransferRetry)
      → occurrences j s.waits ≤ 1
      → wait_in id (forget j s)
        ≡ (if eq_octets j id then record { backoff = none; pending = false } else wait_in id s)
  unfolding forget
  gave_up_wait j id s h = elim (Bool-cases (eq_octets j id)) [
    | inl e ↦ rw (find-erase j id s.waits h, e) refl
    | inr e ↦ rw (find-erase j id s.waits h, e) refl
  ]

  pub once_after :
      (id : Octets) (events : List Event) → occurrences id (after config events).waits ≤ 1
  unfolding after occurrences
  once_after id [] = omega arith
  once_after id (asked j hint ∷ events) =
      assign_once j id _ (after config events).waits (once_after id events)
  once_after id (ended j generation ∷ events) =
      ended_once id j generation (after config events) (once_after id events)
  once_after id (gave_up j ∷ events) =
      omega (arith, occurrences-erase_le id j (after config events).waits, once_after id events)
  once_after id (dropped ∷ events) = omega arith
  once_after id (shut ∷ events) = omega arith
