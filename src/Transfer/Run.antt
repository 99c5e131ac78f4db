-- ===== src/Transfer/Run.antt =====
-- Histories of spsync/transfer/transfer_queue.hpp, as sequences of its locked steps.
use spsync.Prelude.{
  ℕ, ◌+◌, ◌<◌, ◌≡◌, ◌⊎◌, inl, inr, Bool, true, false, ◌&&◌, Option, some, [], ◌∷◌, arith,
  Bool-cases, Octets, eq_octets, eq_octets_iff,
}
use spsync.KeyMap.{find}
use spsync.KeyMap.Laws.{occurrences, occurrences-find}
use spsync.Transfer.{
  Transfer, TransferConfig, TransferQueue, Direction, enqueue, collect, round, opened_answer,
  piece_answered,
}
use spsync.Transfer.Window.{ended_count}
use spsync.Transfer.Start.{IsLawful, id_count, id_count-append, id_count_absent}
use spsync.Transfer.Invariant.{owed, IsValid, collect-Collects}
use spsync.Transfer.Answers.{Keeps, opened_answer-Answers, piece_answered-Answers}

module _ {E X : Type 0} (tag_size : ℕ) (config : TransferConfig) (has_progress : Bool)
    (direction : Direction E X) where
  abbrev pub empty_queue : TransferQueue E X
  empty_queue = record {
    queue = [];
    active = [];
    notifications = [];
    generation = 0;
    closed = false;
  }

  abbrev one_if : Bool → ℕ
  one_if true = 1
  one_if false = 0

  -- A history without a reset, whose steps have directions of their own, as the store they read changes: how often the data was taken into the queue, how often its owner
  -- was told of an end, and the state. An answer to a piece comes for a piece on its way.
  pub data Run (id : Octets) : ℕ → ℕ → TransferQueue E X → Type 1 where
    starts_empty : Run id 0 0 empty_queue
    enqueues :
        {taken told : ℕ} {q : TransferQueue E X} (j : Octets) (taken' : ℕ)
        → Run id taken told q
        → taken' ≡ taken + one_if ((enqueue q j).1 && eq_octets j id)
        → Run id taken' told (enqueue q j).0
    rounds :
        {taken told : ℕ} {q : TransferQueue E X} (d : Direction E X) (told' : ℕ)
        → IsLawful tag_size config has_progress d
        → Run id taken told q
        → told' ≡ told + ended_count id (round tag_size config has_progress d q).1
        → Run id taken told' (round tag_size config has_progress d q).0
    opens :
        {taken told : ℕ} {q : TransferQueue E X} {Info : Type 0} (d : Direction E X)
        (generation : ℕ) (j : Octets) (info : E ⊎ Info)
        (plan : Info → Transfer E X → Transfer E X × Option E)
        → Run id taken told q
        → ((i : Info) → Keeps tag_size config has_progress d (plan i))
        → Run id taken told (opened_answer tag_size config has_progress d generation j info plan q)
    answers :
        {taken told : ℕ} {q : TransferQueue E X} (d : Direction E X) (generation : ℕ) (j : Octets)
        (err : Option E) (work : Transfer E X → Transfer E X × Option E)
        → Run id taken told q
        → Keeps tag_size config has_progress d work
        → ((t : Transfer E X) → find j q.active ≡ some t → 0 < t.outstanding)
        → Run id taken told (piece_answered tag_size config has_progress d generation j err work q)

  enqueue-active : (q : TransferQueue E X) (id : Octets) → (enqueue q id).0.active ≡ q.active
  unfolding enqueue
  enqueue-active q id = ground arith

  enqueue-IsValid :
      (q : TransferQueue E X) (id : Octets)
      → IsValid tag_size config has_progress direction q
      → IsValid tag_size config has_progress direction (enqueue q id).0
  unfolding enqueue id_count
  enqueue-IsValid q id v = record {
    distinct = λ j. ground (
      arith,
      v.distinct j,
      id_count-append j q.queue (id ∷ []),
      id_count_absent id q.queue,
      occurrences-find id q.active,
      eq_octets_iff id j,
    );
    few = ground arith;
    windows = rw (enqueue-active q id) v.windows;
    live = rw (enqueue-active q id) v.live;
  }

  enqueue-owed :
      (q : TransferQueue E X) (j id : Octets)
      → owed id (enqueue q j).0 ≡ owed id q + one_if ((enqueue q j).1 && eq_octets j id)
  unfolding enqueue owed id_count
  enqueue-owed q j id = ground (arith, id_count-append id q.queue (j ∷ []))

  round_closed :
      (q : TransferQueue E X)
      → q.closed ≡ true
      → round tag_size config has_progress direction q ≡ (q, [])
  unfolding round
  round_closed q h = ground arith

  round_open :
      (q : TransferQueue E X)
      → q.closed ≡ false
      → round tag_size config has_progress direction q
        ≡ collect tag_size config has_progress direction q
  unfolding round
  round_open q h = ground arith

  round-Collects :
      (q : TransferQueue E X) (id : Octets)
      → IsLawful tag_size config has_progress direction
      → IsValid tag_size config has_progress direction q
      → IsValid tag_size config has_progress direction
          (round tag_size config has_progress direction q).0
        × (owed id q
            ≡ owed id (round tag_size config has_progress direction q).0
              + ended_count id (round tag_size config has_progress direction q).1)
  unfolding ended_count
  round-Collects q id law v = elim (Bool-cases q.closed) [
    | inl shut ↦ rw (round_closed q shut) (v, omega arith)
    | inr runs ↦
        let c = collect-Collects tag_size config has_progress direction q law v in
        rw (round_open q runs) (c.valid, c.conserved id)
  ]

module _ {E X : Type 0} (tag_size : ℕ) (config : TransferConfig) (has_progress : Bool) where
  -- What is valid does not depend on the direction.
  IsValid-of :
      (d d' : Direction E X) (q : TransferQueue E X)
      → IsValid tag_size config has_progress d q
      → IsValid tag_size config has_progress d' q
  IsValid-of d d' q v = record {
    distinct = v.distinct;
    few = v.few;
    windows = v.windows;
    live = v.live;
  }

module _ {E X : Type 0} (tag_size : ℕ) (config : TransferConfig) (has_progress : Bool)
    (direction : Direction E X) where
  -- In every history without a reset, of directions that are lawful in each round and may change from step to step, the
  -- queue is valid and a data was taken as often as its owner was told of an end, or is owed one: it is waiting, on its
  -- way, or its end is to be told.
  pub Run-owed :
      (id : Octets) {taken told : ℕ} {q : TransferQueue E X}
      → IsLawful tag_size config has_progress direction
      → Run tag_size config has_progress direction id taken told q
      → IsValid tag_size config has_progress direction q × (taken ≡ told + owed id q)
  unfolding owed id_count occurrences ended_count
  Run-owed id law starts_empty = (
    record { distinct = λ j. omega arith; few = omega arith; windows = tt; live = tt },
    omega arith,
  )
  Run-owed id law (enqueues {q = q} j taken' run e) =
      let (v, balance) = Run-owed id law run in
      (
        enqueue-IsValid tag_size config has_progress direction q j v,
        omega (arith, enqueue-owed tag_size config has_progress direction q j id),
      )
  Run-owed id law (rounds {q = q} d told' lawful run e) =
      let (v, balance) = Run-owed id law run in
      let (v', kept) =
        round-Collects tag_size config has_progress d q id lawful
          (IsValid-of tag_size config has_progress direction d q v) in
      (IsValid-of tag_size config has_progress d direction _ v', omega arith)
  Run-owed id law (opens {q = q} d generation j info plan run keeps) =
      let (v, balance) = Run-owed id law run in
      let a =
        opened_answer-Answers tag_size config has_progress d generation j info plan q
          (IsValid-of tag_size config has_progress direction d q v) keeps in
      (IsValid-of tag_size config has_progress d direction _ a.valid, omega (arith, a.same id))
  Run-owed id law (answers {q = q} d generation j err work run keeps outstanding) =
      let (v, balance) = Run-owed id law run in
      let a =
        piece_answered-Answers tag_size config has_progress d generation j err work q
          (IsValid-of tag_size config has_progress direction d q v) keeps law.counts outstanding in
      (IsValid-of tag_size config has_progress d direction _ a.valid, omega (arith, a.same id))
