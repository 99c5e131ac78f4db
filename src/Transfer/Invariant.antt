-- ===== src/Transfer/Invariant.antt =====
-- What every state of spsync/transfer/transfer_queue.hpp keeps.
use spsync.Prelude.{
  ℕ, ◌+◌, ◌≤◌, ◌≡◌, refl, inl, inr, Bool, false, none, some, List, [], ◌∷◌, ◌++◌, arith, Bool-cases,
  length, All, Octets,
}
use spsync.KeyMap.{find}
use spsync.KeyMap.Laws.{
  occurrences, occurrences-adjust, occurrences-erase, length-adjust, length-erase-le, All-adjust,
  All-erase,
}
use spsync.Transfer.{
  Transfer, TransferConfig, TransferQueue, Action, ended, Direction, may_finish, window_step,
  collect, settle,
}
use spsync.Transfer.Window.{ended_count, ended_count-append}
use spsync.Transfer.Start.{IsLawful, InWindow, starts, start_queued-Starts, id_count}
use spsync.Transfer.Sweep.{sweeps, sweep-Sweeps}

-- What of a data is still owed to its owner: a wait in the queue, a transfer, or a callback.
unfoldable pub owed : {E X : Type 0} → Octets → TransferQueue E X → ℕ
owed id q = id_count id q.queue + occurrences id q.active + ended_count id q.notifications

module _ {E X : Type 0} (tag_size : ℕ) (config : TransferConfig) (has_progress : Bool)
    (direction : Direction E X) where
  pub record IsValid (q : TransferQueue E X) : Type 0 where
    -- A data is queued once or on its way once.
    pub distinct : (id : Octets) → id_count id q.queue + occurrences id q.active ≤ 1
    pub few : length q.active ≤ config.max_datas
    pub windows : All (InWindow tag_size config has_progress direction) q.active
    -- No transfer stays that has nothing left to wait for.
    pub live : All (λ e. may_finish e.1 ≡ false) q.active

  abbrev pub collects : TransferQueue E X → TransferQueue E X × List (Action E)
  collects = collect tag_size config has_progress direction

  -- What a round keeps: the invariant, and for each data what is owed or was just told.
  pub record Collects (q : TransferQueue E X) (r : TransferQueue E X × List (Action E))
      : Type 0 where
    pub valid : IsValid r.0
    pub conserved : (id : Octets) → owed id q ≡ owed id r.0 + ended_count id r.1
    pub full :
        All (λ e. window_step tag_size config has_progress direction e.0 e.1 ≡ none) r.0.active
    pub said : r.0.notifications ≡ []

  -- A round keeps a valid queue valid, fills the window of every transfer that stays, tells all that was to be told, and
  -- for each data loses or doubles no end that is owed.
  pub collect-Collects :
      (q : TransferQueue E X)
      → IsLawful tag_size config has_progress direction
      → IsValid q
      → Collects q (collects q)
  unfolding collect owed ended_count
  collect-Collects q law v =
      let s =
        start_queued-Starts tag_size config has_progress direction q.queue q.active q.notifications
          [] law v.distinct v.few v.windows in
      let started =
        starts tag_size config has_progress direction q.queue q.active q.notifications [] in
      let r = sweep-Sweeps tag_size config has_progress direction started.active law s.windows in
      let swept = sweeps tag_size config has_progress direction started.active in
      record {
        valid = record {
          distinct = λ id. omega (arith, s.distinct id, r.conserved id);
          few = omega (arith, s.few, r.few);
          windows = r.windows;
          live = r.live;
        };
        conserved = λ id. omega (
          arith,
          s.conserved id,
          r.conserved id,
          r.silent id,
          ended_count-append id (started.actions ++ swept.1) (started.notifications ++ swept.2),
          ended_count-append id started.actions swept.1,
          ended_count-append id started.notifications swept.2,
        );
        full = r.full;
        said = refl;
      }

  -- The handler of an answer keeps the window and tells nobody of an end.
  pub record Handles (handle : Transfer E X → Transfer E X × List (Action E)) (t : Transfer E X)
      : Type 0 where
    pub within : t.outstanding ≤ config.window → (handle t).0.outstanding ≤ config.window
    pub silent : (id : Octets) → ended_count id (handle t).1 ≡ 0

  pub settle-IsValid :
      (q : TransferQueue E X) (id : Octets) (t t' : Transfer E X) (notes : List (Action E))
      → IsValid q
      → find id q.active ≡ some t
      → t'.outstanding ≤ config.window
      → ((j : Octets) → ended_count j notes ≡ 0)
      → IsValid (settle tag_size config has_progress direction q id t' notes)
        × ((j : Octets)
            → owed j (settle tag_size config has_progress direction q id t' notes) ≡ owed j q)
  unfolding settle owed ended_count
  settle-IsValid q id t t' notes v f w n = elim (Bool-cases (may_finish t')) [
    | inl h ↦ rw h (
      record {
        distinct = λ j. ground (arith, v.distinct j, occurrences-erase id j t q.active f);
        few = omega (arith, length-erase-le id q.active, v.few);
        windows = All-erase (λ x. x.outstanding ≤ config.window) id q.active v.windows;
        live = All-erase (λ x. may_finish x ≡ false) id q.active v.live;
      },
      λ j. ground (
        arith,
        occurrences-erase id j t q.active f,
        n j,
        ended_count-append j q.notifications (notes ++ (ended id (direction.outcome t') ∷ [])),
        ended_count-append j notes (ended id (direction.outcome t') ∷ []),
      ),
    )
    | inr h ↦ rw h (
      record {
        distinct = λ j. omega (arith, v.distinct j, occurrences-adjust id j (λ _. t') q.active);
        few = omega (arith, length-adjust id (λ _. t') q.active, v.few);
        windows = All-adjust (λ x. x.outstanding ≤ config.window) id t' q.active w v.windows;
        live = All-adjust (λ x. may_finish x ≡ false) id t' q.active h v.live;
      },
      λ j. omega (
        arith,
        occurrences-adjust id j (λ _. t') q.active,
        n j,
        ended_count-append j q.notifications notes,
      ),
    )
  ]
