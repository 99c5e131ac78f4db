-- ===== src/Prelude/Bytes.antt =====
-- Octet vectors: hashes, tags and key ids, compared as the program compares them.
use Prim.Native.Nat.{ℕ}
use mathlib.Core.Path.{◌≡◌, refl}
use mathlib.Core.Logic.{◌↔◌}
use mathlib.Core.List.{List, [], ◌∷◌}
use mathlib.Core.Bool.{Bool, true, false, ◌&&◌}
use native.Mathlib.Omega.{arith}
use spsync.Prelude.Tests.{ltb, ◌==◌, if◌then◌else◌}

abbrev pub Octets : Type 0
Octets = List ℕ

abbrev pub is_empty : Octets → Bool
is_empty [] = true
is_empty (x ∷ xs) = false

unfoldable pub eq_octets : Octets → Octets → Bool
eq_octets [] [] = true
eq_octets (x ∷ xs) (y ∷ ys) = (x == y) && eq_octets xs ys
eq_octets _ _ = false

-- The lexicographic order.
unfoldable pub lt_octets : Octets → Octets → Bool
lt_octets [] [] = false
lt_octets [] (y ∷ ys) = true
lt_octets (x ∷ xs) [] = false
lt_octets (x ∷ xs) (y ∷ ys) =
    let rest = lt_octets xs ys in if ltb x y then true else if x == y then rest else false

pub eq_octets_iff : (a b : Octets) → (eq_octets a b ≡ true) ↔ (a ≡ b)
unfolding eq_octets
eq_octets_iff [] [] = ((λ _. refl), (λ _. refl))
eq_octets_iff [] (y ∷ ys) = ((λ e. cc), (λ e. cc))
eq_octets_iff (x ∷ xs) [] = ((λ e. cc), (λ e. cc))
eq_octets_iff (x ∷ xs) (y ∷ ys) =
    let h = eq_octets_iff xs ys in ((λ e. ground (arith, h)), (λ e. ground (arith, h)))
