-- ===== src/Manifest/Laws.antt =====
-- The blob of spsync/core/data/data_manifest.cpp and its digests.
use spsync.Prelude.{
  ℕ, zero, suc, ◌+◌, ◌*◌, ◌/◌, ◌%◌, ◌≤◌, ◌<◌, ◌≡◌, refl, sym, ap, ◌∙◌, subst, inl, inr, true, none,
  some, List, [], ◌∷◌, ◌++◌, arith, ltb, ◌==◌, Bool-cases, ==_iff, length, get_elem?, take, All,
  length-append, Octets, eq_octets_iff,
}
use spsync.Manifest.{joined, skip, cut, from_octets, verify_chunk}
use native.Mathlib.Nat.{mul-div_cancel, mul-mod_left}

-- The digest at a place of the blob.
unfoldable pub digest_at : ℕ → Octets → ℕ → Octets
digest_at size blob n = take size (skip (n * size) blob)

skip_nil : (a : ℕ) → skip a [] ≡ []
unfolding skip
skip_nil zero = refl
skip_nil (suc a) = refl

skip-skip : (a b : ℕ) (os : Octets) → skip a (skip b os) ≡ skip (b + a) os
unfolding skip
skip-skip a zero os = ap (λ (t : ℕ). skip t os) (omega arith)
skip-skip a (suc b) [] = rw (skip_nil a, skip_nil (suc b + a)) refl
skip-skip a (suc b) (o ∷ os) =
    let e : suc b + a ≡ suc (b + a) = omega arith in rw (e, skip) (skip-skip a b os)

get_elem?-cut :
    (size k n : ℕ) (os : Octets) → n < k → get_elem? (cut size k os) n ≡ some (digest_at size os n)
unfolding cut digest_at skip
get_elem?-cut size zero n os h = absurd (omega arith)
get_elem?-cut size (suc k) zero os h =
    let e : 0 * size ≡ 0 = omega arith in ap (λ (t : ℕ). some (take size (skip t os))) (sym e)
get_elem?-cut size (suc k) (suc n) os h =
    let e : size + n * size ≡ suc n * size = omega arith in
    get_elem?-cut size k n (skip size os) (omega arith)
    ∙ ap (λ t. some (take size t)) (skip-skip (n * size) size os ∙ ap (λ (t : ℕ). skip t os) e)

get_elem?-cut_past : (size k n : ℕ) (os : Octets) → k ≤ n → get_elem? (cut size k os) n ≡ none
unfolding cut
get_elem?-cut_past size zero n os h = refl
get_elem?-cut_past size (suc k) zero os h = absurd (omega arith)
get_elem?-cut_past size (suc k) (suc n) os h =
    get_elem?-cut_past size k n (skip size os) (omega arith)

take-append : (xs ys : Octets) → take (length xs) (xs ++ ys) ≡ xs
take-append [] ys = refl
take-append (x ∷ xs) ys = ap (λ t. x ∷ t) (take-append xs ys)

skip-append : (xs ys : Octets) → skip (length xs) (xs ++ ys) ≡ ys
unfolding skip
skip-append [] ys = refl
skip-append (x ∷ xs) ys = skip-append xs ys

module _ (digest_size : ℕ) where
  length-joined :
      (digests : List Octets)
      → All (λ d. length d ≡ digest_size) digests
      → length (joined digests) ≡ length digests * digest_size
  unfolding joined
  length-joined [] h = omega arith
  length-joined (d ∷ digests) h =
      omega (arith, h.0, length-append d (joined digests), length-joined digests h.1)

  cut-joined :
      (digests : List Octets)
      → All (λ d. length d ≡ digest_size) digests
      → cut digest_size (length digests) (joined digests) ≡ digests
  unfolding cut joined
  cut-joined [] h = refl
  cut-joined (d ∷ digests) h =
      rw (sym h.0, take-append d (joined digests), skip-append d (joined digests))
        (ap (λ t. d ∷ t) (cut-joined digests h.1))

  verify_chunk-cut :
      (hash : Octets → Octets) (blob : Octets) (k n : ℕ) (c : Octets)
      → verify_chunk hash (cut digest_size k blob) n c ≡ true
      → digest_at digest_size blob n ≡ hash c
  unfolding verify_chunk
  verify_chunk-cut hash blob k n c h = elim (Bool-cases (ltb n k)) [
    | inl e ↦
        let at = get_elem?-cut digest_size k n blob (ground arith) in
        (eq_octets_iff (digest_at digest_size blob n) (hash c)).0 (ground (arith, at))
    | inr e ↦ ground (arith, get_elem?-cut_past digest_size k n blob (ground arith))
  ]

  -- What a chunk is verified against is the digest in the blob.
  pub verify_chunk-digest_at :
      (hash : Octets → Octets) (blob : Octets) (digests : List Octets) (n : ℕ) (c : Octets)
      → from_octets digest_size blob ≡ some digests
      → verify_chunk hash digests n c ≡ true
      → digest_at digest_size blob n ≡ hash c
  unfolding from_octets
  verify_chunk-digest_at hash blob digests n c e h =
      let same : cut digest_size (length blob / digest_size) blob ≡ digests = ground (arith, e) in
      verify_chunk-cut hash blob (length blob / digest_size) n c
        (subst (λ t. verify_chunk hash t n c ≡ true) (sym same) h)

  -- Digests of the digest size are read back from their blob as they were.
  pub from_octets-joined :
      (digests : List Octets)
      → 0 < digest_size
      → All (λ d. length d ≡ digest_size) digests
      → from_octets digest_size (joined digests) ≡ some digests
  unfolding from_octets
  from_octets-joined digests p h =
      let l = length-joined digests h in
      let q : length (joined digests) / digest_size ≡ length digests =
        rw l (mul-div_cancel (length digests) p) in
      let r : (length (joined digests) % digest_size == 0) ≡ true =
        rw l ((==_iff _ 0).1 (mul-mod_left (length digests) digest_size)) in
      rw (r, q) (ap some (cut-joined digests h))
