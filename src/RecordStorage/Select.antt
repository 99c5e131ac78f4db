-- ===== src/RecordStorage/Select.antt =====
-- What the queries of spsync/core/record_storage.cpp select.
use spsync.Prelude.{
  ℕ, ◌≤◌, ◌≡◌, refl, sym, ap, subst, ◌⊎◌, inl, inr, Bool, true, false, none, some, List, [], ◌∷◌,
  arith, leb, map, Octets, eq_octets_iff, if◌then◌else◌, Bool-cases, Option-cases, All, Any,
  All-mono,
}
use spsync.Records.{eq_tags}
use spsync.RecordStorage.{Row, newest, insert_by_seq, select_by_seq, in_range, tags_in_range}

pub newest-none :
    (p : Row → Bool) (rows : List Row) → newest p rows ≡ none → All (λ x. p x ≡ false) rows
unfolding newest
newest-none p [] e = tt
newest-none p (s ∷ rows) e = elim (Bool-cases (p s)) [
  | inl on ↦ cc
  | inr off ↦ (off, newest-none p rows (ground (arith, off, e)))
]

-- What the newest of the selected rows is.
pub newest-selected :
    (p : Row → Bool) (rows : List Row) (r : Row)
    → newest p rows ≡ some r
    → Any (λ x. x ≡ r) rows × (p r ≡ true) × All (λ x. p x ≡ true → x.seq ≤ r.seq) rows
unfolding newest
newest-selected p [] r e = cc
newest-selected p (s ∷ rows) r e = elim (Bool-cases (p s)) [
  | inr off ↦
      let (i, t, b) = newest-selected p rows r (ground (arith, off, e)) in
      (inr i, t, ((λ on. cc), b))
  | inl on ↦ elim (Option-cases (newest p rows)) [
    | inl gone ↦
        let here : s ≡ r = ground (arith, on, gone, e) in
        (
          inl here,
          subst (λ x. p x ≡ true) here on,
          ((λ _. ground (arith, here)), All-mono (λ x off t. cc) rows (newest-none p rows gone)),
        )
    | inr (t, found) ↦
        let (i, sel, b) = newest-selected p rows t found in
        elim (Bool-cases (leb s.seq t.seq)) [
          | inl below ↦
              let here : t ≡ r = ground (arith, on, found, e, below) in
              subst
                (λ x.
                  Any (λ y. y ≡ x) (s ∷ rows)
                  × (p x ≡ true)
                  × All (λ y. p y ≡ true → y.seq ≤ x.seq) (s ∷ rows))
                here (inr i, sel, ((λ _. ground arith), b))
          | inr above ↦
              let here : s ≡ r = ground (arith, on, found, e, above) in
              subst
                (λ x.
                  Any (λ y. y ≡ x) (s ∷ rows)
                  × (p x ≡ true)
                  × All (λ y. p y ≡ true → y.seq ≤ x.seq) (s ∷ rows))
                here
                (inl refl, on, ((λ _. omega arith), All-mono (λ y q k. ground (arith, q k)) rows b))
        ]
  ]
]

-- A list of tags is that of selected rows: it has the tag of every selected row, and only such tags.
pub record Tags (p : Row → Bool) (rows : List Row) (tags : List Octets) : Type 0 where
  pub complete : All (λ r. p r ≡ true → Any (λ t. t ≡ r.tag) tags) rows
  pub sound : All (λ t. Any (λ r. (p r ≡ true) × (t ≡ r.tag)) rows) tags

insert_has :
    (r s : Row) (rows : List Row)
    → (s ≡ r) ⊎ Any (λ x. x ≡ s) rows
    → Any (λ x. x ≡ s) (insert_by_seq r rows)
unfolding insert_by_seq
insert_has r s [] h = elim h [ inl e ↦ inl (sym e) | inr i ↦ absurd i ]
insert_has r s (t ∷ rows) h = elim (Bool-cases (leb r.seq t.seq)) [
  | inl below ↦ rw below (elim h [ inl e ↦ inl (sym e) | inr i ↦ inr i ])
  | inr above ↦ rw above (elim h [
    | inl e ↦ inr (insert_has r s rows (inl e))
    | inr i ↦ elim i [ inl e ↦ inl e | inr k ↦ inr (insert_has r s rows (inr k)) ]
  ])
]

insert_only :
    (P : Row → Type 0) (r : Row) (rows : List Row) → P r → All P rows → All P (insert_by_seq r rows)
unfolding insert_by_seq
insert_only P r [] p h = (p, tt)
insert_only P r (t ∷ rows) p h = elim (Bool-cases (leb r.seq t.seq)) [
  | inl below ↦ rw below (p, h)
  | inr above ↦ rw above (h.0, insert_only P r rows p h.1)
]

select_step :
    (p : Row → Bool) (s : Row) (rows : List Row)
    → select_by_seq p (s ∷ rows)
      ≡ (if p s then insert_by_seq s (select_by_seq p rows) else select_by_seq p rows)
unfolding select_by_seq
select_step p s rows = refl

abbrev Has : (Row → Bool) → List Row → List Row → Type 0
Has p rows out = All (λ r. p r ≡ true → Any (λ x. x ≡ r) out) rows

select-Has : (p : Row → Bool) (rows : List Row) → Has p rows (select_by_seq p rows)
select-Has p [] = tt
select-Has p (s ∷ rows) =
    subst (Has p (s ∷ rows)) (sym (select_step p s rows)) (elim (Bool-cases (p s)) [
      | inl on ↦
          subst
            (λ b.
              Has p (s ∷ rows)
                (if b then insert_by_seq s (select_by_seq p rows) else select_by_seq p rows))
            (sym on)
            (
              (λ _. insert_has s s (select_by_seq p rows) (inl refl)),
              All-mono (λ r h k. insert_has s r (select_by_seq p rows) (inr (h k))) rows
                  (select-Has p rows),
            )
      | inr off ↦
          subst
            (λ b.
              Has p (s ∷ rows)
                (if b then insert_by_seq s (select_by_seq p rows) else select_by_seq p rows))
            (sym off) ((λ on. cc), select-Has p rows)
    ])

abbrev Only : (Row → Bool) → List Row → List Row → Type 0
Only p rows out = All (λ s. Any (λ r. (p r ≡ true) × (s.tag ≡ r.tag)) rows) out

select-Only : (p : Row → Bool) (rows : List Row) → Only p rows (select_by_seq p rows)
unfolding select_by_seq
select-Only p [] = tt
select-Only p (s ∷ rows) =
    let rest : Only p (s ∷ rows) (select_by_seq p rows) =
      All-mono (λ t h. inr h) (select_by_seq p rows) (select-Only p rows) in
    subst (Only p (s ∷ rows)) (sym (select_step p s rows)) (elim (Bool-cases (p s)) [
      | inl on ↦
          subst
            (λ b.
              Only p (s ∷ rows)
                (if b then insert_by_seq s (select_by_seq p rows) else select_by_seq p rows))
            (sym on) (insert_only _ s (select_by_seq p rows) (inl (on, refl)) rest)
      | inr off ↦
          subst
            (λ b.
              Only p (s ∷ rows)
                (if b then insert_by_seq s (select_by_seq p rows) else select_by_seq p rows))
            (sym off) rest
    ])

map_has :
    (r : Row) (rows : List Row)
    → Any (λ x. x ≡ r) rows
    → Any (λ t. t ≡ r.tag) (map (λ x. x.tag) rows)
map_has r [] h = absurd h
map_has r (s ∷ rows) (inl e) = inl (ap (λ x. x.tag) e)
map_has r (s ∷ rows) (inr i) = inr (map_has r rows i)

map_only :
    (P : Octets → Type 0) (rows : List Row)
    → All (λ s. P s.tag) rows
    → All P (map (λ x. x.tag) rows)
map_only P [] h = tt
map_only P (s ∷ rows) h = (h.0, map_only P rows h.1)

eq_tags_path : (a b : List Octets) → eq_tags a b ≡ true → a ≡ b
unfolding eq_tags
eq_tags_path [] [] h = refl
eq_tags_path [] (y ∷ b) h = cc
eq_tags_path (x ∷ a) [] h = cc
eq_tags_path (x ∷ a) (y ∷ b) h =
    let first : x ≡ y = (eq_octets_iff x y).0 (ground arith) in
    let rest : a ≡ b = eq_tags_path a b (ground arith) in λ i. first i ∷ rest i

-- Tags that are equal to those of a range.
pub tags_in_range-Tags :
    (first last : ℕ) (rows : List Row) (tags : List Octets)
    → eq_tags tags (tags_in_range first last rows) ≡ true
    → Tags (in_range first last) rows tags
unfolding tags_in_range
tags_in_range-Tags first last rows tags h =
    let p = in_range first last in
    subst (Tags p rows) (sym (eq_tags_path tags (map (λ r. r.tag) (select_by_seq p rows)) h))
      (record {
        complete =
            All-mono (λ r i k. map_has r (select_by_seq p rows) (i k)) rows (select-Has p rows);
        sound = map_only _ (select_by_seq p rows) (select-Only p rows);
      })
