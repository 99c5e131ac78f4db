-- ===== src/RecordStorage/Laws.antt =====
-- What the queries of spsync/core/record_storage.cpp find after a row is put at the end.
use spsync.Prelude.{
  ℕ, ◌≤◌, ◌<◌, max, ◌≡◌, refl, subst, ◌⊎◌, inl, inr, Bool, true, some, List, [], ◌∷◌, ◌++◌, arith,
  if◌then◌else◌, Option-cases, All,
}
use spsync.RecordStorage.{Row, later, newest, max_seq}

max_seq-append :
    (p : Row → Bool) (rows : List Row) (r : Row)
    → max_seq p (rows ++ (r ∷ [])) ≡ (if p r then max (max_seq p rows) r.seq else max_seq p rows)
unfolding max_seq
max_seq-append p [] r = ground arith
max_seq-append p (s ∷ rows) r = ground (arith, max_seq-append p rows r)

max_seq_le :
    (p : Row → Bool) (rows : List Row) (top : ℕ)
    → All (λ (r : Row). r.seq ≤ top) rows
    → max_seq p rows ≤ top
unfolding max_seq
max_seq_le p [] top h = omega arith
max_seq_le p (s ∷ rows) top h = ground (arith, max_seq_le p rows top h.1, h.0)

-- A row of a greater sequence than the others.
pub max_seq-last :
    (p : Row → Bool) (rows : List Row) (r : Row) (top : ℕ)
    → All (λ (s : Row). s.seq ≤ top) rows
    → top < r.seq
    → max_seq p (rows ++ (r ∷ [])) ≡ (if p r then r.seq else max_seq p rows)
max_seq-last p rows r top h lt = ground (arith, max_seq-append p rows r, max_seq_le p rows top h)

newest_cases :
    (p : Row → Bool) (s : Row) (rows : List Row) (r : Row)
    → newest p (s ∷ rows) ≡ some r
    → (newest p rows ≡ some r) ⊎ (s ≡ r)
unfolding newest
newest_cases p s rows r e = elim (Option-cases (newest p rows)) [
  | inl gone ↦ ground (arith, gone, e)
  | inr (t, found) ↦ ground (arith, found, e)
]

pub newest-All :
    (P : Row → Type 0) (p : Row → Bool) (rows : List Row) (r : Row)
    → All P rows
    → newest p rows ≡ some r
    → P r
unfolding newest
newest-All P p [] r h e = cc
newest-All P p (s ∷ rows) r h e = elim (newest_cases p s rows r e) [
  | inl later ↦ newest-All P p rows r h.1 later
  | inr here ↦ subst P here h.0
]

pub newest-last :
    (p : Row → Bool) (rows : List Row) (r : Row) (top : ℕ)
    → All (λ (s : Row). s.seq ≤ top) rows
    → top < r.seq
    → p r ≡ true
    → newest p (rows ++ (r ∷ [])) ≡ some r
unfolding newest
newest-last p [] r top h lt t = rw t refl
newest-last p (s ∷ rows) r top h lt t = ground (arith, newest-last p rows r top h.1 lt t, h.0)
