-- ===== src/Transfer/Answers.antt =====
-- The answers of spsync/transfer/transfer_queue.hpp: what they keep, and which of them count.
use spsync.Prelude.{
  ℕ, ◌≤◌, ◌<◌, ◌≡◌, refl, ◌≢◌, ◌⊎◌, inl, inr, Bool, true, Option, none, some, List, arith, ◌==◌,
  Bool-cases, Option-cases, ==_iff, u64_mod, sub64, Octets,
}
use spsync.KeyMap.{find}
use spsync.KeyMap.Laws.{All-find}
use spsync.Transfer.{
  Transfer, TransferConfig, TransferQueue, Action, Direction, settle, answered, opened_answer,
  piece_answered,
}
use spsync.Transfer.Window.{ended_count}
use spsync.Transfer.{local, opened_handler, piece_handler, progress_of}
use spsync.Transfer.Invariant.{owed, IsValid, Handles, settle-IsValid}

module _ {E X : Type 0} (tag_size : ℕ) (config : TransferConfig) (has_progress : Bool)
    (direction : Direction E X) where
  -- An answer keeps the invariant, and what is owed of every data.
  pub record Answers (q q' : TransferQueue E X) : Type 0 where
    pub valid : IsValid tag_size config has_progress direction q'
    pub same : (id : Octets) → owed id q' ≡ owed id q

  answered_at :
      (id : Octets) (handle : Transfer E X → Transfer E X × List (Action E)) (q : TransferQueue E X)
      (t : Transfer E X)
      → find id q.active ≡ some t
      → answered tag_size config has_progress direction q.generation id handle q
        ≡ settle tag_size config has_progress direction q id (handle t).0 (handle t).1
  unfolding answered
  answered_at id handle q t e = ground arith

  pub answered_elsewhere :
      (generation : ℕ) (id : Octets) (handle : Transfer E X → Transfer E X × List (Action E))
      (q : TransferQueue E X)
      → (generation ≢ q.generation) ⊎ (find id q.active ≡ none)
      → answered tag_size config has_progress direction generation id handle q ≡ q
  unfolding answered
  answered_elsewhere generation id handle q h = ground arith

  pub answered-Answers :
      (generation : ℕ) (id : Octets) (handle : Transfer E X → Transfer E X × List (Action E))
      (q : TransferQueue E X)
      → IsValid tag_size config has_progress direction q
      → ((t : Transfer E X)
          → find id q.active ≡ some t
          → Handles tag_size config has_progress direction handle t)
      → Answers q (answered tag_size config has_progress direction generation id handle q)
  answered-Answers generation id handle q v h = elim (Bool-cases (generation == q.generation)) [
    | inr stale ↦
        rw (answered_elsewhere generation id handle q (inl (ground arith)))
          (record { valid = v; same = λ _. refl })
    | inl current ↦ elim (Option-cases (find id q.active)) [
      | inl gone ↦
          rw (answered_elsewhere generation id handle q (inr gone))
            (record { valid = v; same = λ _. refl })
      | inr (t, e) ↦
          let w = All-find (λ x. x.outstanding ≤ config.window) id q.active t v.windows e in
          let (valid, same) =
            settle-IsValid tag_size config has_progress direction q id t (handle t).0 (handle t).1 v
              e ((h t e).within w) (h t e).silent in
          rw ((==_iff generation q.generation).0 current)
            (rw (answered_at id handle q t e) (record { valid = valid; same = same }))
    ]
  ]

  progress_of_silent :
      (j id : Octets) (t : Transfer E X)
      → ended_count j (progress_of tag_size config has_progress direction id t) ≡ 0
  unfolding progress_of ended_count
  progress_of_silent j id t = ground arith

  -- Work on the store that leaves the count of pieces on their way alone.
  abbrev pub Keeps : (Transfer E X → Transfer E X × Option E) → Type 0
  Keeps work = (t : Transfer E X) → (work t).0.outstanding ≡ t.outstanding

  local_keeps :
      (work : Transfer E X → Transfer E X × Option E) (t : Transfer E X)
      → (work t).0.outstanding ≡ t.outstanding
      → (local work t).outstanding ≡ t.outstanding
  unfolding local
  local_keeps work t h = ground arith

  opened_handler-Handles :
      {Info : Type 0} (id : Octets) (info : E ⊎ Info)
      (plan : Info → Transfer E X → Transfer E X × Option E) (t : Transfer E X)
      → ((i : Info) → Keeps (plan i))
      → Handles tag_size config has_progress direction
          (opened_handler tag_size config has_progress direction id info plan)
          t
  unfolding opened_handler ended_count
  opened_handler-Handles id (inl e) plan t k = record { within = λ l. l; silent = λ j. refl }
  opened_handler-Handles id (inr i) plan t k = record {
    within = λ l. ground (arith, local_keeps (plan i) t (k i t));
    silent =
        λ j. ground (arith, progress_of_silent j id (record (local (plan i) t) { opened = true }));
  }

  piece_handler-Handles :
      (id : Octets) (err : Option E) (taken : Transfer E X → Transfer E X × Option E)
      (t : Transfer E X)
      → Keeps taken
      → config.window < u64_mod
      → 0 < t.outstanding
      → Handles tag_size config has_progress direction
          (piece_handler tag_size config has_progress direction id err taken)
          t
  unfolding piece_handler ended_count
  piece_handler-Handles id (some e) taken t k w p = record {
    within = λ l. ground arith;
    silent = λ j. refl;
  }
  piece_handler-Handles id none taken t k w p =
      let t1 = record t { outstanding = sub64 t.outstanding 1 } in
      record {
        within = λ l. ground (arith, local_keeps taken t1 (k t1));
        silent = λ j. ground (arith, progress_of_silent j id (local taken t1));
      }

  pub opened_answer-Answers :
      {Info : Type 0} (generation : ℕ) (id : Octets) (info : E ⊎ Info)
      (plan : Info → Transfer E X → Transfer E X × Option E) (q : TransferQueue E X)
      → IsValid tag_size config has_progress direction q
      → ((i : Info) → Keeps (plan i))
      → Answers q (opened_answer tag_size config has_progress direction generation id info plan q)
  unfolding opened_answer
  opened_answer-Answers generation id info plan q v k =
      answered-Answers generation id _ q v (λ t _. opened_handler-Handles id info plan t k)

  pub piece_answered-Answers :
      (generation : ℕ) (id : Octets) (err : Option E)
      (taken : Transfer E X → Transfer E X × Option E) (q : TransferQueue E X)
      → IsValid tag_size config has_progress direction q
      → Keeps taken
      → config.window < u64_mod
      → ((t : Transfer E X) → find id q.active ≡ some t → 0 < t.outstanding)
      → Answers q (piece_answered tag_size config has_progress direction generation id err taken q)
  unfolding piece_answered
  piece_answered-Answers generation id err taken q v k w p =
      answered-Answers generation id _ q v (λ t e. piece_handler-Handles id err taken t k w (p t e))
