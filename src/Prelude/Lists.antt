-- ===== src/Prelude/Lists.antt =====
-- Lists measured and indexed by native numbers, and predicates on lists.
use Prim.Native.Nat.{ℕ, zero, suc, ◌+◌}
use mathlib.Core.Path.{◌≡◌}
use mathlib.Core.Logic.{◌⊎◌, inl, inr}
use mathlib.Core.List.{List, [], ◌∷◌, ◌++◌, map}
use mathlib.Core.Option.{Option, none, some}
use native.Mathlib.Omega.{arith}

module _ {ℓ} {A : Type ℓ} where
  abbrev pub length : List A → ℕ
  length [] = 0
  length (x ∷ xs) = suc (length xs)

  abbrev pub get_elem? : List A → ℕ → Option A
  get_elem? [] i = none
  get_elem? (x ∷ xs) zero = some x
  get_elem? (x ∷ xs) (suc i) = get_elem? xs i

  abbrev pub take : ℕ → List A → List A
  take zero xs = []
  take (suc n) [] = []
  take (suc n) (x ∷ xs) = x ∷ take n xs

  abbrev pub All {κ} : (A → Type κ) → List A → Type κ
  All P [] = Unit
  All P (x ∷ xs) = P x × All P xs

  -- Some element of the list has the property.
  abbrev pub Any : (A → Type 0) → List A → Type 0
  Any P [] = ⊥
  Any P (x ∷ xs) = P x ⊎ Any P xs

  pub length-append : (xs ys : List A) → length (xs ++ ys) ≡ length xs + length ys
  length-append [] ys = omega arith
  length-append (x ∷ xs) ys = omega (arith, length-append xs ys)

  pub All-mono {κ} :
      {P Q : A → Type κ} → ((a : A) → P a → Q a) → (xs : List A) → All P xs → All Q xs
  All-mono f [] h = tt
  All-mono f (x ∷ xs) h = (f x h.0, All-mono f xs h.1)

  pub All-both {κ κ'} :
      (P : A → Type κ) (Q : A → Type κ') (xs : List A)
      → All P xs
      → All Q xs
      → All (λ a. P a × Q a) xs
  All-both P Q [] h k = tt
  All-both P Q (x ∷ xs) h k = ((h.0, k.0), All-both P Q xs h.1 k.1)

  pub All-append {κ} : (P : A → Type κ) (xs ys : List A) → All P xs → All P ys → All P (xs ++ ys)
  All-append P [] ys h k = k
  All-append P (x ∷ xs) ys h k = (h.0, All-append P xs ys h.1 k)

  pub Any-mono : {P Q : A → Type 0} → ((a : A) → P a → Q a) → (xs : List A) → Any P xs → Any Q xs
  Any-mono f [] h = h
  Any-mono f (x ∷ xs) (inl h) = inl (f x h)
  Any-mono f (x ∷ xs) (inr h) = inr (Any-mono f xs h)

  -- What all have and what some has meet in one element.
  pub All-Any_meet {κ κ'} :
      {P : A → Type κ} {Q : A → Type 0} {R : Type κ'} (xs : List A)
      → All P xs
      → Any Q xs
      → ((a : A) → P a → Q a → R)
      → R
  All-Any_meet [] h k f = absurd k
  All-Any_meet (x ∷ xs) h (inl k) f = f x h.0 k
  All-Any_meet (x ∷ xs) h (inr k) f = All-Any_meet xs h.1 k f

module _ {ℓ κ} {A : Type ℓ} {B : Type κ} (g : A → B) where
  pub All-of-map {ι} : (P : B → Type ι) (xs : List A) → All P (map g xs) → All (λ a. P (g a)) xs
  All-of-map P [] h = tt
  All-of-map P (x ∷ xs) h = (h.0, All-of-map P xs h.1)

  pub Any-of-map : (P : B → Type 0) (xs : List A) → Any P (map g xs) → Any (λ a. P (g a)) xs
  Any-of-map P [] h = h
  Any-of-map P (x ∷ xs) (inl h) = inl h
  Any-of-map P (x ∷ xs) (inr h) = inr (Any-of-map P xs h)
