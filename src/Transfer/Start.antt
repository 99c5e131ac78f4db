-- ===== src/Transfer/Start.antt =====
-- How `start_queued` of spsync/transfer/transfer_queue.hpp starts the waiting datas.
use spsync.Prelude.{
  ℕ, suc, ◌+◌, ◌≤◌, ◌<◌, ◌≡◌, refl, ◌⊎◌, inl, inr, Bool, true, false, none, some, List, [], ◌∷◌,
  ◌++◌, arith, ltb, if◌then◌else◌, Bool-cases, u64_mod, length, All, Octets, eq_octets,
}
use spsync.KeyMap.{find, emplace}
use spsync.KeyMap.Laws.{
  occurrences, occurrences-emplace, occurrences-find, length-emplace-le, All-emplace,
  eq_octets_refl,
}
use spsync.Transfer.{
  Transfer, TransferConfig, Started, Action, opening, ended, Direction, contains_id, start_queued,
}
use spsync.Transfer.Window.{ended_count, ended_count-append}

unfoldable pub id_count : Octets → List Octets → ℕ
id_count id [] = 0
id_count id (x ∷ xs) = if eq_octets x id then suc (id_count id xs) else id_count id xs

pub id_count-append :
    (id : Octets) (xs ys : List Octets) → id_count id (xs ++ ys) ≡ id_count id xs + id_count id ys
unfolding id_count
id_count-append id [] ys = omega arith
id_count-append id (x ∷ xs) ys = ground (arith, id_count-append id xs ys)

pub id_count_absent :
    (id : Octets) (xs : List Octets) → contains_id id xs ≡ false → id_count id xs ≡ 0
unfolding id_count
id_count_absent id [] h = refl
id_count_absent id (x ∷ xs) h = ground (arith, id_count_absent id xs)

pub sum_cases : {A B : Type 0} (s : A ⊎ B) → ((a : A) × (s ≡ inl a)) ⊎ ((b : B) × (s ≡ inr b))
sum_cases (inl a) = inl (a, refl)
sum_cases (inr b) = inr (b, refl)

module _ {E X : Type 0} (tag_size : ℕ) (config : TransferConfig) (has_progress : Bool)
    (direction : Direction E X) where
  -- A transfer starts with nothing on its way.
  pub record IsLawful : Type 0 where
    pub fresh : (id : Octets) (t : Transfer E X) → direction.start id ≡ inr t → t.outstanding ≡ 0
    pub counts : config.window < u64_mod

  abbrev pub InWindow : Octets × Transfer E X → Type 0
  InWindow e = e.1.outstanding ≤ config.window

  -- What `start_queued` makes of a queue, the active transfers and the notifications.
  pub record Starts (queue : List Octets) (active : List (Octets × Transfer E X))
      (notes actions : List (Action E)) (s : Started E X) : Type 0 where
    pub conserved :
        (id : Octets)
        → id_count id queue + occurrences id active + ended_count id notes + ended_count id actions
          ≡ id_count id s.queue
            + occurrences id s.active
            + ended_count id s.notifications
            + ended_count id s.actions
    pub distinct : (id : Octets) → id_count id s.queue + occurrences id s.active ≤ 1
    pub few : length s.active ≤ config.max_datas
    pub windows : All InWindow s.active
    pub busy : (length s.active < config.max_datas) → s.queue ≡ []

  abbrev pub starts :
      List Octets → List (Octets × Transfer E X) → List (Action E) → List (Action E) → Started E X
  starts = start_queued tag_size config has_progress direction

  pub start_full :
      (id : Octets) (queue : List Octets) (active : List (Octets × Transfer E X))
      (notes actions : List (Action E))
      → ltb (length active) config.max_datas ≡ false
      → starts (id ∷ queue) active notes actions
        ≡ record { queue = id ∷ queue; active = active; notifications = notes; actions = actions }
  unfolding start_queued
  start_full id queue active notes actions h = rw (h, start_queued)

  start_refused :
      (id : Octets) (e : E) (queue : List Octets) (active : List (Octets × Transfer E X))
      (notes actions : List (Action E))
      → ltb (length active) config.max_datas ≡ true
      → direction.start id ≡ inl e
      → starts (id ∷ queue) active notes actions
        ≡ starts queue active (notes ++ (ended id (some e) ∷ [])) actions
  unfolding start_queued
  start_refused id e queue active notes actions h k = rw (h, k, start_queued)

  start_taken :
      (id : Octets) (t : Transfer E X) (queue : List Octets) (active : List (Octets × Transfer E X))
      (notes actions : List (Action E))
      → ltb (length active) config.max_datas ≡ true
      → direction.start id ≡ inr t
      → starts (id ∷ queue) active notes actions
        ≡ starts queue (emplace id t active) notes (actions ++ (opening id ∷ []))
  unfolding start_queued
  start_taken id t queue active notes actions h k = rw (h, k, start_queued)

  start_cases :
      (id : Octets)
      → ((e : E) × (direction.start id ≡ inl e))
        ⊎ ((t : Transfer E X) × (direction.start id ≡ inr t))
  start_cases id = sum_cases (direction.start id)

  absent :
      (id : Octets) (queue : List Octets) (active : List (Octets × Transfer E X))
      → id_count id (id ∷ queue) + occurrences id active ≤ 1
      → find id active ≡ none
  unfolding id_count
  absent id queue active d = (occurrences-find id active).0 (ground (arith, eq_octets_refl id))

  pub start_queued-Starts :
      (queue : List Octets) (active : List (Octets × Transfer E X))
      (notes actions : List (Action E))
      → IsLawful
      → ((id : Octets) → id_count id queue + occurrences id active ≤ 1)
      → length active ≤ config.max_datas
      → All InWindow active
      → Starts queue active notes actions (starts queue active notes actions)
  unfolding id_count ended_count start_queued
  start_queued-Starts [] active notes actions law d f w = record {
    conserved = λ id. refl;
    distinct = d;
    few = f;
    windows = w;
    busy = λ _. refl;
  }
  start_queued-Starts (id ∷ queue) active notes actions law d f w =
      elim (Bool-cases (ltb (length active) config.max_datas)) [
        | inr full ↦ rw (start_full id queue active notes actions full) (record {
          conserved = λ j. refl;
          distinct = d;
          few = f;
          windows = w;
          busy = λ l. absurd (ground arith);
        })
        | inl room ↦ elim (start_cases id) [
          | inl (e, k) ↦ rw (start_refused id e queue active notes actions room k) (
              let r =
                start_queued-Starts queue active (notes ++ (ended id (some e) ∷ [])) actions law
                  (λ j. ground (arith, d j)) f w in
              record {
                conserved = λ j.
                    ground
                      (arith, r.conserved j, ended_count-append j notes (ended id (some e) ∷ []));
                distinct = r.distinct;
                few = r.few;
                windows = r.windows;
                busy = r.busy;
              })
          | inr (t, k) ↦ rw (start_taken id t queue active notes actions room k) (
              let gone = absent id queue active (d id) in
              let r =
                start_queued-Starts queue (emplace id t active) notes (actions ++ (opening id ∷ []))
                  law (λ j. ground (arith, d j, occurrences-emplace id j t active gone))
                  (ground (arith, length-emplace-le id t active))
                  (All-emplace (λ x. x.outstanding ≤ config.window) id t active
                    (omega (arith, law.fresh id t k)) w) in
              record {
                conserved = λ j. ground (
                  arith,
                  r.conserved j,
                  occurrences-emplace id j t active gone,
                  ended_count-append j actions (opening id ∷ []),
                );
                distinct = r.distinct;
                few = r.few;
                windows = r.windows;
                busy = r.busy;
              })
        ]
      ]
