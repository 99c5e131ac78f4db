-- ===== src/DataTable/Laws.antt =====
-- Finding and changing the rows of spsync/core/data/data_state_table.cpp.
use spsync.Prelude.{
  ℕ, ◌≡◌, refl, sym, ap, ◌∙◌, subst, ◌≢◌, ◌⊎◌, inl, inr, none, some, List, [], ◌∷◌, ◌++◌, arith,
  ◌==◌, if◌then◌else◌, Bool-cases, All, All-mono, All-append, Octets, eq_octets, eq_octets_iff,
}
use spsync.DataTable.{DataRow, data_id_of, find_id, update, delete}

abbrev pub Apart : DataRow → DataRow → Type 0
Apart r s = (s.local_id ≢ r.local_id) × (data_id_of s ≢ data_id_of r)

-- PRIMARY KEY and UNIQUE.
abbrev pub Distinct : List DataRow → Type 0
Distinct [] = Unit
Distinct (r ∷ rows) = All (Apart r) rows × Distinct rows

abbrev pub Other : DataRow → DataRow → Type 0
Other r s = (s ≡ r) ⊎ Apart r s

-- A change of a row that leaves its key and its id.
abbrev pub Keeps : (DataRow → DataRow) → Type 0
Keeps f = (r : DataRow) → ((f r).local_id ≡ r.local_id) × (data_id_of (f r) ≡ data_id_of r)

pub find_id-id :
    (id : Octets) (rows : List DataRow) (r : DataRow) → find_id id rows ≡ some r → data_id_of r ≡ id
unfolding find_id
find_id-id id [] r h = cc
find_id-id id (s ∷ rows) r h = elim (Bool-cases (eq_octets id (data_id_of s))) [
  | inl e ↦ ground (arith, eq_octets_iff id (data_id_of s))
  | inr e ↦ find_id-id id rows r (ground arith)
]

pub find_id-none :
    (id : Octets) (rows : List DataRow) → find_id id rows ≡ none → All (λ s. data_id_of s ≢ id) rows
unfolding find_id
find_id-none id [] h = tt
find_id-none id (s ∷ rows) h = elim (Bool-cases (eq_octets id (data_id_of s))) [
  | inl e ↦ ground arith
  | inr e ↦ (
    (λ same. ground (arith, eq_octets_iff id (data_id_of s))),
    find_id-none id rows (ground arith),
  )
]

pub All-find_id :
    (P : DataRow → Type 0) (id : Octets) (rows : List DataRow) (r : DataRow)
    → All P rows
    → find_id id rows ≡ some r
    → P r
unfolding find_id
All-find_id P id [] r h e = cc
All-find_id P id (s ∷ rows) r h e = elim (Bool-cases (eq_octets id (data_id_of s))) [
  | inl at ↦ subst P (ground arith) h.0
  | inr past ↦ All-find_id P id rows r h.1 (ground arith)
]

-- The row that is found is the only one with its key or its id.
pub find_id-only :
    (id : Octets) (rows : List DataRow) (r : DataRow)
    → Distinct rows
    → find_id id rows ≡ some r
    → All (Other r) rows
unfolding find_id
find_id-only id [] r d h = cc
find_id-only id (s ∷ rows) r d h = elim (Bool-cases (eq_octets id (data_id_of s))) [
  | inl e ↦
      let same : s ≡ r = ground arith in
      (inl same, All-mono (λ t a. inr (subst (λ u. Apart u t) same a)) rows d.0)
  | inr e ↦
      let rest : find_id id rows ≡ some r = ground arith in
      (
        inr (
            let (k, i) = All-find_id (Apart s) id rows r d.0 rest in
            ((λ e. k (sym e)), (λ e. i (sym e)))),
        find_id-only id rows r d.1 rest,
      )
]

pub All-update :
    (P Q : DataRow → Type 0) (k : ℕ) (f : DataRow → DataRow) (rows : List DataRow)
    → ((r : DataRow) → P r → r.local_id ≡ k → Q (f r))
    → ((r : DataRow) → P r → r.local_id ≢ k → Q r)
    → All P rows
    → All Q (update k f rows)
unfolding update
All-update P Q k f [] at off h = tt
All-update P Q k f (r ∷ rows) at off h = elim (Bool-cases (k == r.local_id)) [
  | inl e ↦ rw e (at r h.0 (ground arith), All-update P Q k f rows at off h.1)
  | inr e ↦ rw e (off r h.0 (ground arith), All-update P Q k f rows at off h.1)
]

abbrev Same : DataRow → DataRow → Type 0
Same r s = (s.local_id ≡ r.local_id) × (data_id_of s ≡ data_id_of r)

Apart-Same : (r r' s s' : DataRow) → Same r r' → Same s s' → Apart r s → Apart r' s'
Apart-Same r r' s s' p q a = ((λ e. a.0 (sym q.0 ∙ e ∙ p.0)), (λ e. a.1 (sym q.1 ∙ e ∙ p.1)))

Apart-update :
    (k : ℕ) (f : DataRow → DataRow) (r r' : DataRow) (rows : List DataRow)
    → Keeps f
    → Same r r'
    → All (Apart r) rows
    → All (Apart r') (update k f rows)
Apart-update k f r r' rows keeps p =
    All-update (Apart r) (Apart r') k f rows (λ s a _. Apart-Same r r' s (f s) p (keeps s) a)
      (λ s a _. Apart-Same r r' s s p (refl, refl) a)

pub update-Distinct :
    (k : ℕ) (f : DataRow → DataRow) (rows : List DataRow)
    → Keeps f
    → Distinct rows
    → Distinct (update k f rows)
unfolding update
update-Distinct k f [] keeps d = tt
update-Distinct k f (r ∷ rows) keeps d = elim (Bool-cases (k == r.local_id)) [
  | inl e ↦
      rw e (Apart-update k f r (f r) rows keeps (keeps r) d.0, update-Distinct k f rows keeps d.1)
  | inr e ↦
      rw e (Apart-update k f r r rows keeps (refl, refl) d.0, update-Distinct k f rows keeps d.1)
]

-- The row with the id, after a change of the row with a key.
pub find_id-update :
    (k : ℕ) (f : DataRow → DataRow) (id : Octets) (rows : List DataRow)
    → Keeps f
    → find_id id (update k f rows)
      ≡ elim (find_id id rows) [ none ↦ none | some r ↦ some (if k == r.local_id then f r else r) ]
unfolding find_id update
find_id-update k f id [] keeps = refl
find_id-update k f id (r ∷ rows) keeps =
    let same : eq_octets id (data_id_of (f r)) ≡ eq_octets id (data_id_of r) =
      ap (eq_octets id) (keeps r).1 in
    elim (Bool-cases (k == r.local_id)) [
      | inl e ↦ elim (Bool-cases (eq_octets id (data_id_of r))) [
        | inl a ↦ rw (e, same, a, e) refl
        | inr a ↦ rw (e, same, a) (find_id-update k f id rows keeps)
      ]
      | inr e ↦ elim (Bool-cases (eq_octets id (data_id_of r))) [
        | inl a ↦ rw (e, a, e) refl
        | inr a ↦ rw (e, a) (find_id-update k f id rows keeps)
      ]
    ]

pub All-delete :
    (P Q : DataRow → Type 0) (k : ℕ) (rows : List DataRow)
    → ((r : DataRow) → P r → r.local_id ≢ k → Q r)
    → All P rows
    → All Q (delete k rows)
unfolding delete
All-delete P Q k [] off h = tt
All-delete P Q k (r ∷ rows) off h = elim (Bool-cases (k == r.local_id)) [
  | inl e ↦ rw e (All-delete P Q k rows off h.1)
  | inr e ↦ rw e (off r h.0 (ground arith), All-delete P Q k rows off h.1)
]

pub delete-Distinct : (k : ℕ) (rows : List DataRow) → Distinct rows → Distinct (delete k rows)
unfolding delete
delete-Distinct k [] d = tt
delete-Distinct k (r ∷ rows) d = elim (Bool-cases (k == r.local_id)) [
  | inl e ↦ rw e (delete-Distinct k rows d.1)
  | inr e ↦
      rw e (All-delete (Apart r) (Apart r) k rows (λ s a _. a) d.0, delete-Distinct k rows d.1)
]

pub append-Distinct :
    (rows : List DataRow) (r : DataRow)
    → All (λ s. (s.local_id ≢ r.local_id) × (data_id_of s ≢ data_id_of r)) rows
    → Distinct rows
    → Distinct (rows ++ (r ∷ []))
append-Distinct [] r h d = (tt, tt)
append-Distinct (s ∷ rows) r h d = (
  All-append (Apart s) rows (r ∷ []) d.0 (((λ e. h.0.0 (sym e)), (λ e. h.0.1 (sym e))), tt),
  append-Distinct rows r h.1 d.1,
)
