-- ===== src/TransferRetry.antt =====
-- spsync/transfer/transfer_retry.cpp: the waits of ended transfers before they are tried again. A time is a number of
-- milliseconds, hints included. The timers are outside: a wait that ends is a call of `fire`, of any data and generation.
-- `fire` is one step here, though the source takes the lock of the call only after it has let go of that of the waits.
pub mod Histories
pub mod Delays
pub mod Tries
pub mod Follows
pub mod Tests
use spsync.Prelude.{
  ℕ, zero, suc, ◌+◌, ◌-◌, ◌*◌, ◌/◌, ◌%◌, ◌^◌, ◌≤◌, ◌<◌, min, max, ◌≡◌, refl, sym, ap, ◌∙◌, subst,
  ◌≢◌, ◌↔◌, ◌⊎◌, inl, inr, Bool, true, false, not, ◌&&◌, ◌||◌, Option, none, some, List, [], ◌∷◌,
  ◌++◌, map, arith, ltb, leb, ◌==◌, if◌then◌else◌, Bool-cases, Option-cases, ==_iff, u64_mod, add64,
  sub64, length, get_elem?, take, All, Any, length-append, Octets, is_empty, eq_octets, lt_octets,
  eq_octets_iff,
}
use spsync.KeyMap.{find, assign, erase, is_some}

pub record RetryConfig : Type 0 where
  pub first : ℕ
  pub max_wait : ℕ
  pub max_hint : ℕ

pub record Wait : Type 0 where
  pub backoff : Option ℕ
  pub pending : Bool

pub record TransferRetry : Type 0 where
  pub waits : List (Octets × Wait)
  pub generation : ℕ
  pub stopped : Bool

abbrev pub wait_or_new : Option Wait → Wait
wait_or_new none = record { backoff = none; pending = false }
wait_or_new (some w) = w

abbrev pub value_or : Option ℕ → ℕ → ℕ
value_or none n = n
value_or (some m) n = m

-- The wait that a schedule leaves, and the time until the timer.
unfoldable pub scheduled : RetryConfig → Option ℕ → Wait → Wait × ℕ
scheduled config none w =
    let delay = value_or w.backoff config.first in
    (record { backoff = some (min (delay * 2) config.max_wait); pending = true }, delay)
scheduled config (some hint) w = (record w { pending = true }, min hint config.max_hint)

unfoldable pub schedule : RetryConfig → Octets → Option ℕ → TransferRetry → TransferRetry × ℕ
unfolding scheduled
schedule config id hint s =
    let (w, delay) = scheduled config hint (wait_or_new (find id s.waits)) in
    (record s { waits = assign id w s.waits }, delay)

unfoldable pub forget : Octets → TransferRetry → TransferRetry
forget id s = record s { waits = erase id s.waits }

unfoldable pub cancel : TransferRetry → TransferRetry
cancel s = record s { generation = add64 s.generation 1; waits = [] }

unfoldable pub shutdown : TransferRetry → TransferRetry
unfolding cancel
shutdown s = record (cancel s) { stopped = true }

unfoldable pub is_due : Octets → ℕ → TransferRetry → Bool
is_due id generation s = generation == s.generation && (wait_or_new (find id s.waits)).pending

-- The end of a wait, and whether the owner is called.
unfoldable pub fire : Octets → ℕ → TransferRetry → TransferRetry × Bool
unfolding is_due
fire id generation s =
    let w = wait_or_new (find id s.waits) in
    if is_due id generation s
    then (record s { waits = assign id (record w { pending = false }) s.waits }, not s.stopped)
    else (s, false)

unfoldable pub waiting : List (Octets × Wait) → ℕ
waiting [] = 0
waiting ((id, w) ∷ waits) = if w.pending then suc (waiting waits) else waiting waits
