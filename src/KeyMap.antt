-- ===== src/KeyMap.antt =====
-- A `std::map` from octet vectors, as its entries in order. Keys are compared by their octets.
pub mod Laws
use spsync.Prelude.{
  ℕ, zero, suc, ◌+◌, ◌-◌, ◌*◌, ◌/◌, ◌%◌, ◌^◌, ◌≤◌, ◌<◌, min, max, ◌≡◌, refl, sym, ap, ◌∙◌, subst,
  ◌≢◌, ◌↔◌, ◌⊎◌, inl, inr, Bool, true, false, not, ◌&&◌, ◌||◌, Option, none, some, List, [], ◌∷◌,
  ◌++◌, map, arith, ltb, leb, ◌==◌, if◌then◌else◌, Bool-cases, Option-cases, ==_iff, u64_mod, add64,
  sub64, length, get_elem?, take, All, Any, length-append, Octets, is_empty, eq_octets, lt_octets,
  eq_octets_iff,
}

module _ {ℓ} {V : Type ℓ} where
  unfoldable pub find : Octets → List (Octets × V) → Option V
  find k [] = none
  find k ((j, v) ∷ m) = if eq_octets j k then some v else find k m

  abbrev pub is_some : Option V → Bool
  is_some none = false
  is_some (some v) = true

  abbrev pub contains : Octets → List (Octets × V) → Bool
  contains k m = is_some (find k m)

  -- Entered before the first greater key.
  unfoldable pub insert : Octets → V → List (Octets × V) → List (Octets × V)
  insert k v [] = (k, v) ∷ []
  insert k v ((j, w) ∷ m) = if lt_octets k j then (k, v) ∷ (j, w) ∷ m else (j, w) ∷ insert k v m

  -- The value of a key that is there, changed in place.
  unfoldable pub adjust : Octets → (V → V) → List (Octets × V) → List (Octets × V)
  adjust k f [] = []
  adjust k f ((j, v) ∷ m) = if eq_octets j k then (j, f v) ∷ m else (j, v) ∷ adjust k f m

  -- `emplace`: nothing for a key that is there.
  unfoldable pub emplace : Octets → V → List (Octets × V) → List (Octets × V)
  emplace k v m = if contains k m then m else insert k v m

  -- `m[k] = v`
  unfoldable pub assign : Octets → V → List (Octets × V) → List (Octets × V)
  assign k v m = if contains k m then adjust k (λ _. v) m else insert k v m

  unfoldable pub erase : Octets → List (Octets × V) → List (Octets × V)
  erase k [] = []
  erase k ((j, v) ∷ m) = if eq_octets j k then m else (j, v) ∷ erase k m
