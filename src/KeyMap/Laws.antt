-- ===== src/KeyMap/Laws.antt =====
-- What is found in a map after it was changed.
use spsync.Prelude.{
  max, ℕ, suc, ◌+◌, ◌≤◌, ◌≡◌, refl, subst, ◌↔◌, inl, inr, true, none, some, List, [], ◌∷◌, arith,
  if◌then◌else◌, Bool-cases, length, All, Octets, eq_octets, lt_octets, eq_octets_iff,
}
use mathlib.Core.Option
use spsync.KeyMap.{find, contains, insert, adjust, emplace, assign, erase}

pub eq_octets_refl : (k : Octets) → eq_octets k k ≡ true
eq_octets_refl k = (eq_octets_iff k k).1 refl

module _ {ℓ} {V : Type ℓ} where
  -- How many entries have the key.
  unfoldable pub occurrences : Octets → List (Octets × V) → ℕ
  occurrences k [] = 0
  occurrences k ((j, v) ∷ m) = if eq_octets j k then suc (occurrences k m) else occurrences k m

  pub find-insert :
      (k j : Octets) (v : V) (m : List (Octets × V))
      → find k m ≡ none
      → find j (insert k v m) ≡ (if eq_octets k j then some v else find j m)
  unfolding find insert
  find-insert k j v [] h = refl
  find-insert k j v ((i, w) ∷ m) h =
      ground (arith, eq_octets_iff k j, eq_octets_iff i k, eq_octets_iff i j, find-insert k j v m)

  pub find-adjust :
      (k j : Octets) (f : V → V) (m : List (Octets × V))
      → find j (adjust k f m) ≡ (if eq_octets k j then Option.map f (find j m) else find j m)
  unfolding find adjust
  find-adjust k j f [] = ground arith
  find-adjust k j f ((i, w) ∷ m) =
      ground (arith, eq_octets_iff k j, eq_octets_iff i k, eq_octets_iff i j, find-adjust k j f m)

  pub find-assign :
      (k j : Octets) (v : V) (m : List (Octets × V))
      → find j (assign k v m) ≡ (if eq_octets k j then some v else find j m)
  unfolding assign
  find-assign k j v m =
      ground (arith, eq_octets_iff k j, find-insert k j v m, find-adjust k j (λ _. v) m)

  pub occurrences-insert :
      (k j : Octets) (v : V) (m : List (Octets × V))
      → occurrences j (insert k v m) ≡ (if eq_octets k j then 1 else 0) + occurrences j m
  unfolding occurrences insert
  occurrences-insert k j v [] = ground arith
  occurrences-insert k j v ((i, w) ∷ m) = ground (arith, occurrences-insert k j v m)

  pub occurrences-adjust :
      (k j : Octets) (f : V → V) (m : List (Octets × V))
      → occurrences j (adjust k f m) ≡ occurrences j m
  unfolding occurrences adjust
  occurrences-adjust k j f [] = refl
  occurrences-adjust k j f ((i, w) ∷ m) = ground (arith, occurrences-adjust k j f m)

  pub occurrences-erase :
      (k j : Octets) (v : V) (m : List (Octets × V))
      → find k m ≡ some v
      → (if eq_octets k j then 1 else 0) + occurrences j (erase k m) ≡ occurrences j m
  unfolding occurrences erase find
  occurrences-erase k j v [] h = cc
  occurrences-erase k j v ((i, w) ∷ m) h =
      ground
        (arith, eq_octets_iff k j, eq_octets_iff i k, eq_octets_iff i j, occurrences-erase k j v m)

  pub occurrences-find :
      (k : Octets) (m : List (Octets × V)) → (occurrences k m ≡ 0) ↔ (find k m ≡ none)
  unfolding occurrences find
  occurrences-find k [] = ((λ _. refl), (λ _. refl))
  occurrences-find k ((j, v) ∷ m) =
      let h = occurrences-find k m in ((λ e. ground (arith, h)), (λ e. ground (arith, h)))

  pub find-erase :
      (k j : Octets) (m : List (Octets × V))
      → occurrences k m ≤ 1
      → find j (erase k m) ≡ (if eq_octets k j then none else find j m)
  unfolding occurrences erase find
  find-erase k j [] h = ground arith
  find-erase k j ((i, w) ∷ m) h = ground (
    arith,
    eq_octets_iff k j,
    eq_octets_iff i k,
    eq_octets_iff i j,
    occurrences-find k m,
    find-erase k j m,
  )

  pub occurrences-assign :
      (k j : Octets) (v : V) (m : List (Octets × V))
      → occurrences j (assign k v m)
        ≡ (if eq_octets k j then max 1 (occurrences j m) else occurrences j m)
  unfolding assign
  occurrences-assign k j v m = ground (
    arith,
    eq_octets_iff k j,
    occurrences-find k m,
    occurrences-insert k j v m,
    occurrences-adjust k j (λ _. v) m,
  )

  pub find-emplace :
      (k j : Octets) (v : V) (m : List (Octets × V))
      → find k m ≡ none
      → find j (emplace k v m) ≡ (if eq_octets k j then some v else find j m)
  unfolding emplace
  find-emplace k j v m h = ground (arith, find-insert k j v m)

  pub occurrences-emplace :
      (k j : Octets) (v : V) (m : List (Octets × V))
      → find k m ≡ none
      → occurrences j (emplace k v m) ≡ (if eq_octets k j then 1 else 0) + occurrences j m
  unfolding emplace
  occurrences-emplace k j v m h = ground (arith, occurrences-insert k j v m)

  pub length-insert :
      (k : Octets) (v : V) (m : List (Octets × V)) → length (insert k v m) ≡ suc (length m)
  unfolding insert
  length-insert k v [] = refl
  length-insert k v ((j, w) ∷ m) = ground (arith, length-insert k v m)

  pub length-emplace-le :
      (k : Octets) (v : V) (m : List (Octets × V)) → length (emplace k v m) ≤ suc (length m)
  unfolding emplace
  length-emplace-le k v m = ground (arith, length-insert k v m)

  pub length-adjust :
      (k : Octets) (f : V → V) (m : List (Octets × V)) → length (adjust k f m) ≡ length m
  unfolding adjust
  length-adjust k f [] = refl
  length-adjust k f ((j, w) ∷ m) = ground (arith, length-adjust k f m)

  pub length-erase-le : (k : Octets) (m : List (Octets × V)) → length (erase k m) ≤ length m
  unfolding erase
  length-erase-le k [] = omega arith
  length-erase-le k ((j, w) ∷ m) = ground (arith, length-erase-le k m)

  pub All-insert :
      (P : V → Type 0) (k : Octets) (v : V) (m : List (Octets × V))
      → P v
      → All (λ e. P e.1) m
      → All (λ e. P e.1) (insert k v m)
  unfolding insert
  All-insert P k v [] p h = (p, tt)
  All-insert P k v ((j, w) ∷ m) p h = elim (Bool-cases (lt_octets k j)) [
    | inl e ↦ rw e (p, h)
    | inr e ↦ rw e (h.0, All-insert P k v m p h.1)
  ]

  pub All-emplace :
      (P : V → Type 0) (k : Octets) (v : V) (m : List (Octets × V))
      → P v
      → All (λ e. P e.1) m
      → All (λ e. P e.1) (emplace k v m)
  unfolding emplace
  All-emplace P k v m p h = elim (Bool-cases (contains k m)) [
    | inl e ↦ rw e h
    | inr e ↦ rw e (All-insert P k v m p h)
  ]

  pub All-adjust :
      (P : V → Type 0) (k : Octets) (v : V) (m : List (Octets × V))
      → P v
      → All (λ e. P e.1) m
      → All (λ e. P e.1) (adjust k (λ _. v) m)
  unfolding adjust
  All-adjust P k v [] p h = tt
  All-adjust P k v ((j, w) ∷ m) p h = elim (Bool-cases (eq_octets j k)) [
    | inl e ↦ rw e (p, h.1)
    | inr e ↦ rw e (h.0, All-adjust P k v m p h.1)
  ]

  pub All-erase :
      (P : V → Type 0) (k : Octets) (m : List (Octets × V))
      → All (λ e. P e.1) m
      → All (λ e. P e.1) (erase k m)
  unfolding erase
  All-erase P k [] h = tt
  All-erase P k ((j, w) ∷ m) h = elim (Bool-cases (eq_octets j k)) [
    | inl e ↦ rw e h.1
    | inr e ↦ rw e (h.0, All-erase P k m h.1)
  ]

  -- What all values have, the value that is found has.
  pub All-find :
      (P : V → Type 0) (k : Octets) (m : List (Octets × V)) (v : V)
      → All (λ e. P e.1) m
      → find k m ≡ some v
      → P v
  unfolding find
  All-find P k [] v h e = cc
  All-find P k ((j, w) ∷ m) v h e = elim (Bool-cases (eq_octets j k)) [
    | inl same ↦ subst P (ground arith) h.0
    | inr other ↦ All-find P k m v h.1 (ground arith)
  ]
