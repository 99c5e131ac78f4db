-- ===== src/TransferRetry/Tests.antt =====
-- Runs of spsync/transfer/transfer_retry.cpp.
use spsync.Prelude.{◌≡◌, refl, none, List, [], ◌∷◌, Octets, eq_octets}
use spsync.KeyMap.{find, assign, insert, adjust}
use spsync.TransferRetry.{waiting, RetryConfig, scheduled, schedule, is_due, fire}
use spsync.TransferRetry.Histories.{Event, asked, ended, step, after, tries}
use spsync.TransferRetry.Follows.{Follows, after-Follows}

abbrev settings : RetryConfig
settings = record { first = 1000; max_wait = 3000; max_hint = 7000 }

abbrev datum : Octets
datum = 7 ∷ []

-- Two failures, the second one tried again: the latest event stands first.
abbrev two_failures : List Event
two_failures = ended datum 0 ∷ asked datum none ∷ asked datum none ∷ []

capped : (schedule settings datum none (after settings two_failures)).1 ≡ 3000
unfolding schedule scheduled after step fire is_due find assign insert adjust eq_octets
capped = refl

tried_once : tries settings datum two_failures ≡ 1
unfolding tries schedule scheduled after step fire is_due find assign eq_octets insert adjust
tried_once = refl

one_waits : waiting (after settings (asked datum none ∷ [])).waits ≡ 1
unfolding waiting schedule scheduled after step find assign insert adjust eq_octets
one_waits = refl

after-Follows_example : Follows settings datum two_failures
after-Follows_example = after-Follows settings datum two_failures
