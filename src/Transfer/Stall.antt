-- ===== src/Transfer/Stall.antt =====
-- A round of spsync/transfer/transfer_queue.hpp whose loop over the active transfers ends one does not
-- start a waiting data in its place.
use spsync.Prelude.{
  ℕ, suc, ◌+◌, ◌<◌, ◌≡◌, ap, ◌∙◌, Bool, true, false, none, some, List, [], ◌∷◌, ◌++◌, arith, ltb,
  Octets,
}
use spsync.Transfer.{
  Transfer, TransferConfig, TransferQueue, Action, ended, Direction, may_finish, fill_window,
  window_step, sweep, collect,
}
use spsync.Transfer.Window.{fill_stop, fill_more}
use spsync.Transfer.Start.{start_full}
use spsync.Transfer.Sweep.{fill, sweep_ends}
use spsync.Cursor.{done, starting_chunk}

module _ {E X : Type 0} (tag_size : ℕ) (config : TransferConfig) (has_progress : Bool)
    (direction : Direction E X) where
  -- The only transfer has nothing on its way, and its next chunk is refused.
  pub record IsStuck (id : Octets) (t : Transfer E X) (k : ℕ) (x : X) (e : E) : Type 0 where
    pub idle : t.outstanding ≡ 0
    pub open_ : t.opened ≡ true
    pub sound : t.failure ≡ none
    pub more : done t.cursor ≡ false
    pub chunk : starting_chunk t.cursor ≡ some k
    pub refused : direction.begin_chunk id t.extra k ≡ (x, some e)

  refused_step :
      (id : Octets) (t : Transfer E X) (k : ℕ) (x : X) (e : E)
      → IsStuck id t k x e
      → 0 < config.window
      → window_step tag_size config has_progress direction id t
        ≡ some (record t { extra = x; failure = some e }, [])
  unfolding window_step
  refused_step id t k x e s w = ground arith

  failed_step :
      (id : Octets) (t : Transfer E X) (x : X) (e : E)
      → window_step tag_size config has_progress direction id
          (record t { extra = x; failure = some e })
        ≡ none
  unfolding window_step
  failed_step id t x e = ground arith

  stuck_fill :
      (fuel : ℕ) (id : Octets) (t : Transfer E X) (k : ℕ) (x : X) (e : E)
      → IsStuck id t k x e
      → 0 < config.window
      → fill_window tag_size config has_progress direction (suc fuel) id t
        ≡ (record t { extra = x; failure = some e }, [])
  stuck_fill fuel id t k x e s w =
      let failed = record t { extra = x; failure = some e } in
      fill_more tag_size config has_progress direction fuel id t failed []
        (refused_step id t k x e s w)
      ∙ fill_stop tag_size config has_progress direction fuel id failed (failed_step id t x e)

  stuck_rounds :
      (id : Octets) (t : Transfer E X) (k : ℕ) (x : X) (e : E)
      → IsStuck id t k x e
      → 0 < config.window
      → fill tag_size config has_progress direction id t
        ≡ (record t { extra = x; failure = some e }, [])
  stuck_rounds id t k x e s w =
      let f : config.window + 2 ≡ suc (config.window + 1) = omega arith in
      rw f (stuck_fill (config.window + 1) id t k x e s w)

  stuck_sweep :
      (id : Octets) (t : Transfer E X) (k : ℕ) (x : X) (e : E)
      → IsStuck id t k x e
      → 0 < config.window
      → sweep tag_size config has_progress direction ((id, t) ∷ [])
        ≡ ([], [], ended id (direction.outcome (record t { extra = x; failure = some e })) ∷ [])
  unfolding sweep
  stuck_sweep id t k x e s w =
      let f = stuck_rounds id t k x e s w in
      let ends : may_finish (fill tag_size config has_progress direction id t).0 ≡ true =
        rw f (ground (arith, s.idle)) in
      sweep_ends tag_size config has_progress direction id t [] ends
      ∙ ap
          (λ (r : Transfer E X × List (Action E)).
            ([], r.1 ++ [], ended id (direction.outcome r.0) ∷ []))
          f

  -- A round in which the only transfer that may be on its way has nothing outstanding and its next chunk refused ends the
  -- transfer, makes no other call, and leaves the waiting datas waiting.
  pub collect_strands_queue :
      (id waiting : Octets) (rest : List Octets) (t : Transfer E X) (k : ℕ) (x : X) (e : E)
      (q : TransferQueue E X)
      → config.max_datas ≡ 1
      → 0 < config.window
      → IsStuck id t k x e
      → let busy = record q { queue = waiting ∷ rest; active = (id, t) ∷ [] } in
        collect tag_size config has_progress direction busy ≡ (
          record busy { active = []; notifications = [] },
          q.notifications
              ++ (ended id (direction.outcome (record t { extra = x; failure = some e })) ∷ []),
        )
  unfolding collect
  collect_strands_queue id waiting rest t k x e q m w s =
      let one : ltb 1 config.max_datas ≡ false = ground arith in
      rw (
        start_full tag_size config has_progress direction waiting rest ((id, t) ∷ [])
            q.notifications [] one,
        stuck_sweep id t k x e s w,
      )
