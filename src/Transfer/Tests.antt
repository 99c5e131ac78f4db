-- ===== src/Transfer/Tests.antt =====
-- Runs of the lemmas on spsync/transfer/transfer_queue.hpp: datas of one chunk, of which the second is refused.
use spsync.Prelude.{ℕ, ◌+◌, ◌≡◌, refl, inr, true, false, none, some, [], ◌∷◌, arith, eq_octets}
use spsync.KeyMap.{find}
use spsync.Descriptor.{DataDescriptor}
use spsync.Cursor.{done, starting_chunk}
use spsync.Transfer.{
  Transfer, TransferConfig, TransferQueue, ended, Direction, forget, enqueue, fill_window, collect,
  round, opened_answer, piece_answered,
}
use spsync.Transfer.Window.{ended_count, Settled, fill_window-Settled}
use spsync.Transfer.Start.{IsLawful}
use spsync.Transfer.Invariant.{owed, IsValid, Collects, collect-Collects}
use spsync.Transfer.Stale.{now, forgets, later_enqueue, later_round, Later-drops_answers}
use spsync.Transfer.Run.{empty_queue, Run, starts_empty, enqueues, rounds, Run-owed}
use spsync.Transfer.Stall.{collect_strands_queue}

abbrev one_chunk : DataDescriptor
one_chunk = record { enc_size = 20; chunk_size = 4; manifest_digest = 1 ∷ [] }

-- A transfer that is opened and has its chunk before it.
abbrev ready : Transfer ℕ ℕ
ready = record {
  cursor = record { descriptor = one_chunk; pending = 0 ∷ []; current = none; offset = 0 };
  failure = none;
  outstanding = 0;
  transferred = 0;
  opened = true;
  extra = 0;
}

abbrev accepting : Direction ℕ ℕ
accepting = record {
  start = λ id. inr ready;
  begin_chunk = λ id x k. (x, none);
  outcome = λ t. t.failure;
}

abbrev refusing : Direction ℕ ℕ
refusing = record {
  start = λ id. inr ready;
  begin_chunk = λ id x k. (x, some 5);
  outcome = λ t. t.failure;
}

abbrev one_data : TransferConfig
one_data = record { max_datas = 1; window = 2; piece_size = 8 }

accepting-IsLawful : IsLawful 16 one_data false accepting
accepting-IsLawful = record { fresh = λ id t e. ground (arith, e); counts = omega arith }

-- Two datas are taken, and a round starts the first.
abbrev two_waiting : TransferQueue ℕ ℕ
two_waiting = record {
  queue = (1 ∷ []) ∷ (2 ∷ []) ∷ [];
  active = [];
  notifications = [];
  generation = 0;
  closed = false;
}

two_taken :
    Run 16 one_data false accepting
      (1 ∷ [])
      1
      0
      (enqueue (enqueue (empty_queue 16 one_data false accepting) (1 ∷ [])).0 (2 ∷ [])).0
unfolding enqueue eq_octets find
two_taken = enqueues (2 ∷ []) 1 (enqueues (1 ∷ []) 1 starts_empty (omega arith)) (omega arith)

two_waiting-IsValid : IsValid 16 one_data false accepting two_waiting
unfolding enqueue eq_octets find
two_waiting-IsValid = (Run-owed 16 one_data false accepting (1 ∷ []) accepting-IsLawful two_taken).0

Run-owed_example :
    IsValid 16 one_data false accepting (round 16 one_data false accepting two_waiting).0
    × (1
        ≡ 0
          + ended_count (1 ∷ []) (round 16 one_data false accepting two_waiting).1
          + owed (1 ∷ []) (round 16 one_data false accepting two_waiting).0)
unfolding enqueue eq_octets find
Run-owed_example = Run-owed 16 one_data false accepting (1 ∷ []) accepting-IsLawful (
    rounds accepting (0 + ended_count (1 ∷ []) (round 16 one_data false accepting two_waiting).1)
      accepting-IsLawful two_taken refl)

fill_window-Settled_example :
    Settled 16 one_data false accepting
      (1 ∷ [])
      (fill_window 16 one_data false accepting 4 (1 ∷ []) ready)
fill_window-Settled_example =
    fill_window-Settled 16 one_data false accepting 4 (1 ∷ []) ready (omega arith) (omega arith)
      (omega arith)

collect-Collects_example :
    Collects 16 one_data false accepting two_waiting
      (collect 16 one_data false accepting two_waiting)
collect-Collects_example =
    collect-Collects 16 one_data false accepting two_waiting accepting-IsLawful two_waiting-IsValid

-- A reset, after which the data is taken in again and a round runs.
abbrev taken_again : TransferQueue ℕ ℕ
taken_again = (round 16 one_data false accepting (enqueue (forget two_waiting) (1 ∷ [])).0).0

Later-drops_answers_example :
    (opened_answer 16 one_data false accepting {Info = ℕ} 0
        (1 ∷ [])
        (inr 3)
        (λ i t. (t, none))
        taken_again
      ≡ taken_again)
    × (piece_answered 16 one_data false accepting 0 (1 ∷ []) none (λ t. (t, none)) taken_again
        ≡ taken_again)
Later-drops_answers_example =
    Later-drops_answers 16 one_data false accepting {Info = ℕ} two_waiting taken_again 1 (1 ∷ [])
      (inr 3) (λ i t. (t, none)) none (λ t. (t, none)) (omega arith)
      (later_round accepting (later_enqueue (1 ∷ []) (forgets now))) (omega arith) (omega arith)

collect_strands_queue_example :
    (let busy = record two_waiting { queue = (2 ∷ []) ∷ []; active = (1 ∷ [], ready) ∷ [] } in
      collect 16 one_data false refusing busy
      ≡ (record busy { active = []; notifications = [] }, ended (1 ∷ []) (some 5) ∷ []))
unfolding done starting_chunk
collect_strands_queue_example =
    collect_strands_queue 16 one_data false refusing (1 ∷ []) (2 ∷ []) [] ready 0 0 5 two_waiting
      refl (omega arith)
      (record {
        idle = refl;
        open_ = refl;
        sound = refl;
        more = refl;
        chunk = refl;
        refused = refl;
      })
