-- ===== src/Transfer.antt =====
-- spsync/transfer/transfer_queue.hpp, with the pace of transfer_config.hpp: what the upload and the
-- download queue of a storage share. What a direction does comes as the record `Direction`: it reads
-- the store and calls the channel, so its answers are arguments here, of each step anew in a history. The callbacks and the calls into
-- the channel are collected as actions; a lock makes each function below one step.
pub mod Tests
pub mod Window
pub mod Start
pub mod Sweep
pub mod Invariant
pub mod Answers
pub mod Stale
pub mod Run
pub mod Stall
use spsync.Prelude.{
  ℕ, zero, suc, ◌+◌, ◌-◌, ◌*◌, ◌/◌, ◌%◌, ◌^◌, ◌≤◌, ◌<◌, min, max, ◌≡◌, refl, sym, ap, ◌∙◌, subst,
  ◌≢◌, ◌↔◌, ◌⊎◌, inl, inr, Bool, true, false, not, ◌&&◌, ◌||◌, Option, none, some, List, [], ◌∷◌,
  ◌++◌, map, arith, ltb, leb, ◌==◌, if◌then◌else◌, Bool-cases, Option-cases, ==_iff, u64_mod, add64,
  sub64, length, get_elem?, take, All, Any, length-append, Octets, is_empty, eq_octets, lt_octets,
  eq_octets_iff,
}
use spsync.KeyMap.{find, contains, emplace, adjust, erase, is_some}
use spsync.Cursor.{PieceRange, PieceCursor, done, starting_chunk, next, is_none}

-- What every transfer of a data keeps; `X` is what the direction adds.
pub record Transfer (E X : Type 0) : Type 0 where
  pub cursor : PieceCursor
  pub failure : Option E
  pub outstanding : ℕ
  pub transferred : ℕ
  pub opened : Bool
  pub extra : X

pub record TransferConfig : Type 0 where
  pub max_datas : ℕ
  pub window : ℕ
  pub piece_size : ℕ

-- A call into the channel, or a callback to the owner.
pub data Action (E : Type 0) : Type 0 where
  opening : Octets → Action E
  piece : Octets → PieceRange → Action E
  ended : Octets → Option E → Action E
  progress : Octets → ℕ → ℕ → Action E

-- The virtual functions.
pub record Direction (E X : Type 0) : Type 0 where
  pub start : Octets → E ⊎ Transfer E X
  pub begin_chunk : Octets → X → ℕ → X × Option E
  pub outcome : Transfer E X → Option E

pub record TransferQueue (E X : Type 0) : Type 0 where
  pub queue : List Octets
  pub active : List (Octets × Transfer E X)
  pub notifications : List (Action E)
  pub generation : ℕ
  pub closed : Bool

abbrev pub contains_id : Octets → List Octets → Bool
contains_id id [] = false
contains_id id (x ∷ xs) = eq_octets x id || contains_id id xs

abbrev pub no_ids : List Octets → Bool
no_ids [] = true
no_ids (x ∷ xs) = false

-- What the loop over the waiting datas leaves.
pub record Started (E X : Type 0) : Type 0 where
  pub queue : List Octets
  pub active : List (Octets × Transfer E X)
  pub notifications : List (Action E)
  pub actions : List (Action E)

module _ {E X : Type 0} where
  pub forget : TransferQueue E X → TransferQueue E X
  forget q = record q {
    generation = add64 q.generation 1;
    queue = [];
    active = [];
    notifications = [];
  }

  pub close : TransferQueue E X → TransferQueue E X
  unfolding forget
  close q = forget (record q { closed = true })

  -- The state change of `enqueue` and its result; a data that was added is followed by a round.
  pub enqueue : TransferQueue E X → Octets → TransferQueue E X × Bool
  enqueue q id =
      let added = not (contains id q.active) && not (contains_id id q.queue) in
      if added then (record q { queue = q.queue ++ (id ∷ []) }, true) else (q, false)

  abbrev pub fail_first : E → Transfer E X → Transfer E X
  fail_first e t = if is_none t.failure then record t { failure = some e } else t

  -- Work on the local store inside an answer; it may throw on the way.
  pub local : (Transfer E X → Transfer E X × Option E) → Transfer E X → Transfer E X
  local work t = let (t', thrown) = work t in elim thrown [ none ↦ t' | some e ↦ fail_first e t' ]

  abbrev pub may_finish : Transfer E X → Bool
  may_finish t = (t.outstanding == 0) && (is_some t.failure || (t.opened && done t.cursor))

module _ {E X : Type 0} (tag_size : ℕ) (config : TransferConfig) (has_progress : Bool)
    (direction : Direction E X) where
  -- `notify_progress`
  pub progress_of : Octets → Transfer E X → List (Action E)
  progress_of id t =
      if has_progress then progress id t.transferred t.cursor.descriptor.enc_size ∷ [] else []

  -- One round of the loop of `fill_window`, none when its test fails.
  pub window_step : Octets → Transfer E X → Option (Transfer E X × List (Action E))
  window_step id t =
      if t.opened && (is_none t.failure && (ltb t.outstanding config.window && not (done t.cursor)))
      then (let (x, refused) : X × Option E = elim (starting_chunk t.cursor) [
        | none ↦ (t.extra, none)
        | some k ↦ direction.begin_chunk id t.extra k
      ] in
          elim refused [
            | some e ↦ some (record t { extra = x; failure = some e }, [])
            | none ↦
                let (cursor, range) = next tag_size t.cursor config.piece_size in
                elim range [
                  | none ↦ some (record t { extra = x; cursor = cursor }, [])
                  | some p ↦ some (
                    record t { extra = x; cursor = cursor; outstanding = add64 t.outstanding 1 },
                    piece id p ∷ [],
                  )
                ]
          ])
      else none

  pub fill_window : ℕ → Octets → Transfer E X → Transfer E X × List (Action E)
  fill_window zero id t = (t, [])
  fill_window (suc fuel) id t = elim (window_step id t) [
    | none ↦ (t, [])
    | some (t', actions) ↦ let (t'', more) = fill_window fuel id t' in (t'', actions ++ more)
  ]

  -- `start_queued`, over the waiting datas.
  pub start_queued :
      List Octets → List (Octets × Transfer E X) → List (Action E) → List (Action E) → Started E X
  start_queued [] active notes actions = record {
    queue = [];
    active = active;
    notifications = notes;
    actions = actions;
  }
  start_queued (id ∷ queue) active notes actions =
      let refused =
        λ (e : E). start_queued queue active (notes ++ (ended id (some e) ∷ [])) actions in
      let taken = λ (t : Transfer E X).
        start_queued queue (emplace id t active) notes (actions ++ (opening id ∷ [])) in
      let next_start : Started E X = elim (direction.start id) [
        | inl e ↦ refused e
        | inr t ↦ taken t
      ] in
      if ltb (length active) config.max_datas
      then next_start
      else record { queue = id ∷ queue; active = active; notifications = notes; actions = actions }

  -- Enough rounds for `fill_window` to end by its test.
  abbrev pub window_rounds : ℕ
  window_rounds = config.window + 2

  -- The loop of `collect` over the active transfers: those that stay, the actions and the
  -- notifications.
  pub sweep :
      List (Octets × Transfer E X)
      → List (Octets × Transfer E X) × List (Action E) × List (Action E)
  unfolding fill_window
  sweep [] = ([], [], [])
  sweep ((id, t) ∷ active) =
      let (kept, actions, notes) = sweep active in
      let (t', moved) = fill_window window_rounds id t in
      if may_finish t'
      then (kept, moved ++ actions, ended id (direction.outcome t') ∷ notes)
      else ((id, t') ∷ kept, moved ++ actions, notes)

  pub collect : TransferQueue E X → TransferQueue E X × List (Action E)
  unfolding start_queued sweep
  collect q =
      let s = start_queued q.queue q.active q.notifications [] in
      let (kept, moved, notes) = sweep s.active in
      (
        record q { queue = s.queue; active = kept; notifications = [] },
        (s.actions ++ moved) ++ (s.notifications ++ notes),
      )

  -- What `run_rounds` hands to the pump.
  pub round : TransferQueue E X → TransferQueue E X × List (Action E)
  round q = if q.closed then (q, []) else collect q

  -- `finish_if_done` of the transfer of an id, after `handle`.
  pub settle : TransferQueue E X → Octets → Transfer E X → List (Action E) → TransferQueue E X
  settle q id t notes =
      if may_finish t
      then record q {
        active = erase id q.active;
        notifications = q.notifications ++ (notes ++ (ended id (direction.outcome t) ∷ []));
      }
      else record q {
        active = adjust id (λ _. t) q.active;
        notifications = q.notifications ++ notes;
      }

  -- An answer; one of an older generation or for a data that is gone falls on the floor.
  pub answered :
      ℕ
      → Octets
      → (Transfer E X → Transfer E X × List (Action E))
      → TransferQueue E X
      → TransferQueue E X
  unfolding settle
  answered generation id handle q =
      let changed : TransferQueue E X = elim (find id q.active) [
        | none ↦ q
        | some t ↦ let (t', notes) = handle t in settle q id t' notes
      ] in
      if generation == q.generation then changed else q

  -- The handler of the answer to an opening.
  pub opened_handler :
      {Info : Type 0}
      → Octets
      → E ⊎ Info
      → (Info → Transfer E X → Transfer E X × Option E)
      → Transfer E X
      → Transfer E X × List (Action E)
  unfolding local progress_of
  opened_handler id (inl e) plan t = (record t { failure = some e }, [])
  opened_handler id (inr info) plan t =
      let t' = local (plan info) t in
      if is_none t'.failure
      then (let open_t = record t' { opened = true } in (open_t, progress_of id open_t))
      else (t', [])

  -- The handler of the answer to a piece.
  pub piece_handler :
      Octets
      → Option E
      → (Transfer E X → Transfer E X × Option E)
      → Transfer E X
      → Transfer E X × List (Action E)
  unfolding local progress_of
  piece_handler id (some e) taken t =
      (fail_first e (record t { outstanding = sub64 t.outstanding 1 }), [])
  piece_handler id none taken t =
      let t1 = record t { outstanding = sub64 t.outstanding 1 } in
      let t2 = local taken t1 in if is_none t1.failure then (t2, progress_of id t2) else (t1, [])

  pub opened_answer :
      {Info : Type 0}
      → ℕ
      → Octets
      → E ⊎ Info
      → (Info → Transfer E X → Transfer E X × Option E)
      → TransferQueue E X
      → TransferQueue E X
  opened_answer generation id info plan q = answered generation id (opened_handler id info plan) q

  pub piece_answered :
      ℕ
      → Octets
      → Option E
      → (Transfer E X → Transfer E X × Option E)
      → TransferQueue E X
      → TransferQueue E X
  piece_answered generation id err taken q = answered generation id (piece_handler id err taken) q
