-- ===== src/Transfer/Stale.antt =====
-- The answers of spsync/transfer/transfer_queue.hpp that come after a reset.
use spsync.Prelude.{
  ℕ, suc, ◌+◌, ◌%◌, ◌<◌, ◌≡◌, refl, ◌∙◌, ◌≢◌, ◌⊎◌, inl, inr, Bool, Bool-cases, Option, Option-cases,
  List, arith, ◌==◌, u64_mod, Octets,
}
use spsync.KeyMap.{find}
use spsync.Transfer.{
  Transfer, TransferConfig, TransferQueue, Action, Direction, forget, close, enqueue, collect,
  round, settle, answered, opened_answer, piece_answered, opened_handler, piece_handler,
}
use spsync.Transfer.Answers.{answered_elsewhere}

module _ {E X : Type 0} (tag_size : ℕ) (config : TransferConfig) (has_progress : Bool)
    (direction : Direction E X) where
  enqueue-generation :
      (q : TransferQueue E X) (id : Octets) → (enqueue q id).0.generation ≡ q.generation
  unfolding enqueue
  enqueue-generation q id = ground arith

  round-generation :
      (q : TransferQueue E X)
      → (round tag_size config has_progress direction q).0.generation ≡ q.generation
  unfolding round collect
  round-generation q = elim (Bool-cases q.closed) [ inl e ↦ rw e refl | inr e ↦ rw e refl ]

  settle-generation :
      (q : TransferQueue E X) (id : Octets) (t : Transfer E X) (notes : List (Action E))
      → (settle tag_size config has_progress direction q id t notes).generation ≡ q.generation
  unfolding settle
  settle-generation q id t notes = ground arith

  answered-generation :
      (generation : ℕ) (id : Octets) (handle : Transfer E X → Transfer E X × List (Action E))
      (q : TransferQueue E X)
      → (answered tag_size config has_progress direction generation id handle q).generation
        ≡ q.generation
  unfolding answered
  answered-generation generation id handle q = elim (Bool-cases (generation == q.generation)) [
    | inr stale ↦ rw stale refl
    | inl current ↦ elim (Option-cases (find id q.active)) [
      | inl gone ↦ rw (current, gone) refl
      | inr (t, e) ↦ rw (current, e) (settle-generation q id (handle t).0 (handle t).1)
    ]
  ]

module _ {E X : Type 0} (tag_size : ℕ) (config : TransferConfig) (has_progress : Bool)
    (direction : Direction E X) where
  -- What can follow on a state of the queue, each step with a direction of its own, with the number of resets on the way.
  pub data Later (q : TransferQueue E X) : ℕ → TransferQueue E X → Type 1 where
    now : Later q 0 q
    forgets : {n : ℕ} {q' : TransferQueue E X} → Later q n q' → Later q (suc n) (forget q')
    closes : {n : ℕ} {q' : TransferQueue E X} → Later q n q' → Later q (suc n) (close q')
    later_enqueue :
        {n : ℕ} {q' : TransferQueue E X} (id : Octets) → Later q n q' → Later q n (enqueue q' id).0
    later_round :
        {n : ℕ} {q' : TransferQueue E X} (d : Direction E X)
        → Later q n q'
        → Later q n (round tag_size config has_progress d q').0
    later_opened :
        {n : ℕ} {q' : TransferQueue E X} {Info : Type 0} (d : Direction E X) (generation : ℕ)
        (id : Octets) (info : E ⊎ Info) (plan : Info → Transfer E X → Transfer E X × Option E)
        → Later q n q'
        → Later q n (opened_answer tag_size config has_progress d generation id info plan q')
    later_piece :
        {n : ℕ} {q' : TransferQueue E X} (d : Direction E X) (generation : ℕ) (id : Octets)
        (err : Option E) (taken : Transfer E X → Transfer E X × Option E)
        → Later q n q'
        → Later q n (piece_answered tag_size config has_progress d generation id err taken q')

  -- Every reset moves the generation on by one, and nothing else moves it.
  Later-generation :
      {q q' : TransferQueue E X} {n : ℕ}
      → q.generation < u64_mod
      → Later q n q'
      → q'.generation ≡ (q.generation + n) % u64_mod
  unfolding forget close opened_answer piece_answered
  Later-generation w now = omega arith
  Later-generation w (forgets h) = omega (arith, Later-generation w h)
  Later-generation w (closes h) = omega (arith, Later-generation w h)
  Later-generation w (later_enqueue {q' = q'} id h) =
      enqueue-generation tag_size config has_progress direction q' id ∙ Later-generation w h
  Later-generation w (later_round {q' = q'} d h) =
      round-generation tag_size config has_progress d q' ∙ Later-generation w h
  Later-generation w (later_opened {q' = q'} d g id info plan h) =
      answered-generation tag_size config has_progress d g id
        (opened_handler tag_size config has_progress d id info plan) q'
      ∙ Later-generation w h
  Later-generation w (later_piece {q' = q'} d g id err taken h) =
      answered-generation tag_size config has_progress d g id
        (piece_handler tag_size config has_progress d id err taken) q'
      ∙ Later-generation w h

  -- An answer of the generation of a state leaves every later state of the queue as it is, once a reset lay between the
  -- two, and fewer than 2 ^ 64 did: also when the data of the answer was taken in again.
  pub Later-drops_answers :
      {Info : Type 0} (q q' : TransferQueue E X) (n : ℕ) (id : Octets) (info : E ⊎ Info)
      (plan : Info → Transfer E X → Transfer E X × Option E) (err : Option E)
      (taken : Transfer E X → Transfer E X × Option E)
      → q.generation < u64_mod
      → Later q n q'
      → 0 < n
      → n < u64_mod
      → (opened_answer tag_size config has_progress direction q.generation id info plan q' ≡ q')
        × (piece_answered tag_size config has_progress direction q.generation id err taken q' ≡ q')
  unfolding opened_answer piece_answered
  Later-drops_answers q q' n id info plan err taken w h p l =
      let moved : q.generation ≢ q'.generation = omega (arith, Later-generation w h) in
      (
        answered_elsewhere tag_size config has_progress direction q.generation id
            (opened_handler tag_size config has_progress direction id info plan) q' (inl moved),
        answered_elsewhere tag_size config has_progress direction q.generation id
            (piece_handler tag_size config has_progress direction id err taken) q' (inl moved),
      )
