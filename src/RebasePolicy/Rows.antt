-- ===== src/RebasePolicy/Rows.antt =====
-- Rows of the table of spsync/core/record_storage.cpp whose tags and sequences are distinct.
use spsync.Prelude.{
  ◌≤◌, ◌<◌, ◌≡◌, refl, sym, ap, ◌∙◌, subst, ◌≢◌, ◌⊎◌, inl, inr, Bool, true, false, none, some, List,
  [], ◌∷◌, arith, ltb, Bool-cases, All, Any, All-mono, All-Any_meet,
}
use spsync.RecordStorage.{Row, find_row, max_seq}

-- UNIQUE tags, and sequences that are unique as long as the rows are confirmed.
abbrev pub DistinctRows : List Row → Type 0
DistinctRows [] = Unit
DistinctRows (r ∷ rows) = All (λ s. (s.tag ≢ r.tag) × (s.seq ≢ r.seq)) rows × DistinctRows rows

abbrev pub In : Row → List Row → Type 0
In r rows = Any (λ x. x ≡ r) rows

pub All-In : (P : Row → Type 0) (r : Row) (rows : List Row) → All P rows → In r rows → P r
All-In P r rows h i = All-Any_meet rows h i (λ x p e. subst P e p)

pub same_row :
    (r s : Row) (rows : List Row)
    → DistinctRows rows
    → In r rows
    → In s rows
    → (r.tag ≡ s.tag) ⊎ (r.seq ≡ s.seq)
    → r ≡ s
same_row r s [] d i j k = absurd i
same_row r s (x ∷ rows) d (inl i) (inl j) k = sym i ∙ j
same_row r s (x ∷ rows) d (inr i) (inr j) k = same_row r s rows d.1 i j k
same_row r s (x ∷ rows) d (inl i) (inr j) k =
    let (t, q) = All-In (λ y. (y.tag ≢ x.tag) × (y.seq ≢ x.seq)) s rows d.0 j in
    absurd (elim k [
      | inl a ↦ t (sym a ∙ ap (λ y. y.tag) (sym i))
      | inr b ↦ q (sym b ∙ ap (λ y. y.seq) (sym i))
    ])
same_row r s (x ∷ rows) d (inr i) (inl j) k =
    let (t, q) = All-In (λ y. (y.tag ≢ x.tag) × (y.seq ≢ x.seq)) r rows d.0 i in
    absurd
      (elim k [ inl a ↦ t (a ∙ ap (λ y. y.tag) (sym j)) | inr b ↦ q (b ∙ ap (λ y. y.seq) (sym j)) ])

pub find_row-some :
    (p : Row → Bool) (rows : List Row) (r : Row)
    → find_row p rows ≡ some r
    → (p r ≡ true) × In r rows
unfolding find_row
find_row-some p [] r h = cc
find_row-some p (x ∷ rows) r h = elim (Bool-cases (p x)) [
  | inl e ↦ let same : x ≡ r = ground arith in (subst (λ y. p y ≡ true) same e, inl same)
  | inr e ↦ let (t, i) = find_row-some p rows r (ground arith) in (t, inr i)
]

pub find_row-none :
    (p : Row → Bool) (rows : List Row) → find_row p rows ≡ none → All (λ r. p r ≡ false) rows
unfolding find_row
find_row-none p [] h = tt
find_row-none p (x ∷ rows) h = elim (Bool-cases (p x)) [
  | inl e ↦ absurd (ground arith)
  | inr e ↦ (e, find_row-none p rows (ground arith))
]

pub max_seq-bound :
    (p : Row → Bool) (rows : List Row) → All (λ r. p r ≡ true → r.seq ≤ max_seq p rows) rows
unfolding max_seq
max_seq-bound p [] = tt
max_seq-bound p (x ∷ rows) =
    ((λ h. ground arith), All-mono (λ r b h. ground (arith, b h)) rows (max_seq-bound p rows))

-- A greatest sequence that is not 0 is that of a row.
pub max_seq-In :
    (p : Row → Bool) (rows : List Row)
    → 0 < max_seq p rows
    → (w : Row) × (In w rows × ((p w ≡ true) × (w.seq ≡ max_seq p rows)))
unfolding max_seq
max_seq-In p [] h = absurd (omega arith)
max_seq-In p (x ∷ rows) h = elim (Bool-cases (p x)) [
  | inr e ↦
      let (w, (i, (t, k))) = max_seq-In p rows (ground arith) in (w, (inr i, (t, ground arith)))
  | inl e ↦ elim (Bool-cases (ltb x.seq (max_seq p rows))) [
    | inl below ↦
        let (w, (i, (t, k))) = max_seq-In p rows (ground arith) in (w, (inr i, (t, ground arith)))
    | inr top ↦ (x, (inl refl, (e, ground arith)))
  ]
]
