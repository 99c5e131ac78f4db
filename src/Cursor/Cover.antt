-- ===== src/Cursor/Cover.antt =====
-- How the cursor of spsync/transfer/piece_cursor.cpp moves over the octets of its chunks.
pub mod Drain
use spsync.Prelude.{
  ℕ, zero, suc, ◌+◌, ◌-◌, ◌%◌, ◌^◌, ◌≤◌, ◌<◌, min, max, ◌≡◌, refl, sym, ap, ◌∙◌, subst, inl, inr,
  true, false, Option, none, some, List, [], ◌∷◌, ◌++◌, arith, leb, if◌then◌else◌, Bool-cases,
  add64, sub64, length, All, length-append,
}
use native.Mathlib.Nat.{suc-add}
use mathlib.Core.Path.{ap₂}
use mathlib.Core.List.{append_assoc, append-nil}
use spsync.Descriptor.{DataDescriptor, chunk_count, chunk_enc_size}
use spsync.Descriptor.Sizes.{IsWide, chunk_enc_size_le, chunk_enc_size_pos}
use spsync.Cursor.{
  PieceRange, PieceCursor, new_cursor, add, done, enter_chunk, take_piece, piece_of, next,
}

-- The octets [offset, offset + n) of a chunk, as positions.
unfoldable pub octets_at : ℕ → ℕ → ℕ → List (ℕ × ℕ)
octets_at k offset zero = []
octets_at k offset (suc n) = (k, offset) ∷ octets_at k (suc offset) n

octets_at_split :
    (k offset a b : ℕ)
    → octets_at k offset (a + b) ≡ octets_at k offset a ++ octets_at k (offset + a) b
unfolding octets_at
octets_at_split k offset zero b =
    let here : offset ≡ offset + 0 = omega arith in
    let rest : 0 + b ≡ b = omega arith in ap₂ (octets_at k) here rest
octets_at_split k offset (suc a) b = rw (suc-add a b) (
    ap (◌∷◌ (k, offset)) (
      octets_at_split k (suc offset) a b
      ∙ ap (λ (t : ℕ). octets_at k (suc offset) a ++ octets_at k t b) {x = suc offset + a}
          {y = offset + suc a} (omega arith)))

pub length-octets_at : (k offset n : ℕ) → length (octets_at k offset n) ≡ n
unfolding octets_at
length-octets_at k offset zero = refl
length-octets_at k offset (suc n) = ap suc (length-octets_at k (suc offset) n)

abbrev cursor_at : DataDescriptor → List ℕ → Option ℕ → ℕ → PieceCursor
cursor_at d pending current offset = record {
  descriptor = d;
  pending = pending;
  current = current;
  offset = offset;
}

module _ (tag_size : ℕ) where
  unfoldable pub octets_of_chunks : DataDescriptor → List ℕ → List (ℕ × ℕ)
  octets_of_chunks d [] = []
  octets_of_chunks d (k ∷ chunks) =
      octets_at k 0 (chunk_enc_size tag_size d k) ++ octets_of_chunks d chunks

  current_octets : DataDescriptor → Option ℕ → ℕ → List (ℕ × ℕ)
  current_octets d none offset = []
  current_octets d (some k) offset = octets_at k offset (chunk_enc_size tag_size d k - offset)

  -- What is left to move.
  pub left : PieceCursor → List (ℕ × ℕ)
  unfolding current_octets octets_of_chunks
  left c = current_octets c.descriptor c.current c.offset ++ octets_of_chunks c.descriptor c.pending

  -- The current chunk has octets left.
  abbrev pub IsInside : DataDescriptor → Option ℕ → ℕ → Type 0
  IsInside d none offset = Unit
  IsInside d (some k) offset = offset < chunk_enc_size tag_size d k

  pub record IsValid (c : PieceCursor) : Type 0 where
    pub wide : IsWide tag_size c.descriptor
    pub chunks : All (λ k. k < chunk_count tag_size c.descriptor) c.pending
    pub inside : IsInside c.descriptor c.current c.offset

  -- What a step of the cursor does to a piece and the rest.
  pub record Moves (piece_size : ℕ) (c : PieceCursor) (p : PieceRange) (c' : PieceCursor)
      : Type 0 where
    pub valid : IsValid c'
    pub same : c'.descriptor ≡ c.descriptor
    pub nonempty : 0 < p.size
    pub bounded : p.size ≤ max piece_size 1
    pub octets : left c ≡ octets_at p.chunk_no p.offset p.size ++ left c'

  enter_lem :
      (d : DataDescriptor) (pending : List ℕ) (current : Option ℕ) (offset : ℕ)
      → let c = cursor_at d pending current offset in
        IsValid c
        → done c ≡ false
        → (k : ℕ) × ((enter_chunk tag_size c).current ≡ some k)
          × IsValid (enter_chunk tag_size c)
          × (left (enter_chunk tag_size c) ≡ left c)
          × ((enter_chunk tag_size c).descriptor ≡ d)
  unfolding enter_chunk left done
  enter_lem d [] none offset v e = cc
  enter_lem d (x ∷ xs) none offset v e = (
    x,
    refl,
    record {
      wide = v.wide;
      chunks = v.chunks.1;
      inside = chunk_enc_size_pos tag_size d x v.wide v.chunks.0;
    },
    (let e : chunk_enc_size tag_size d x - 0 ≡ chunk_enc_size tag_size d x = omega arith in rw e),
    refl,
  )
  enter_lem d [] (some k) offset v e = (k, refl, v, refl, refl)
  enter_lem d (x ∷ xs) (some k) offset v e = (k, refl, v, refl, refl)

  take_lem :
      (d : DataDescriptor) (pending : List ℕ) (k offset piece_size : ℕ)
      → let c = cursor_at d pending (some k) offset in
        IsValid c
        → piece_size < 2 ^ 32
        → (c' : PieceCursor) × (p : PieceRange) × (take_piece tag_size c k piece_size
            ≡ (c', some p))
          × Moves piece_size c p c'
  unfolding take_piece left
  take_lem d pending k offset piece_size v l =
      let chunk = chunk_enc_size tag_size d k in
      let size = min (max piece_size 1) (chunk - offset) in
      let bound : chunk < 2 ^ 34 =
        omega (arith, chunk_enc_size_le tag_size d k v.wide, v.wide.chunk, v.wide.tag) in
      let word : min (max piece_size 1) (sub64 chunk offset) % 2 ^ 32 ≡ size = omega arith in
      let end : add64 offset size ≡ offset + size = omega arith in
      (
        cursor_at d pending (if leb chunk (offset + size) then none else some k) (offset + size),
        record { chunk_no = k; offset = offset; size = size },
        rw (word, end),
        elim (Bool-cases (leb chunk (offset + size))) [
          | inl over ↦ rw over (record {
            valid = record { wide = v.wide; chunks = v.chunks; inside = tt };
            same = refl;
            nonempty = omega arith;
            bounded = omega arith;
            octets =
                let e : chunk - offset ≡ size = ground arith in
                ap (λ (t : ℕ). octets_at k offset t ++ octets_of_chunks d pending) e;
          })
          | inr more ↦ rw more (record {
            valid = record { wide = v.wide; chunks = v.chunks; inside = ground arith };
            same = refl;
            nonempty = omega arith;
            bounded = omega arith;
            octets =
                let rest = chunk - (offset + size) in
                let e : chunk - offset ≡ size + rest = ground arith in
                ap (λ (t : ℕ). octets_at k offset t ++ octets_of_chunks d pending) e
                ∙ (ap (λ (t : List (ℕ × ℕ)). t ++ octets_of_chunks d pending)
                      (octets_at_split k offset size rest)
                    ∙ append_assoc (octets_at k offset size) (octets_at k (offset + size) rest)
                        (octets_of_chunks d pending));
          })
        ],
      )

  next_at :
      (c : PieceCursor) (k piece_size : ℕ)
      → (enter_chunk tag_size c).current ≡ some k
      → next tag_size c piece_size ≡ take_piece tag_size (enter_chunk tag_size c) k piece_size
  unfolding next
  next_at c k piece_size h =
      ap (λ (o : Option ℕ). piece_of tag_size (enter_chunk tag_size c) o piece_size) h

  pub next_lem :
      (c : PieceCursor) (piece_size : ℕ)
      → IsValid c
      → piece_size < 2 ^ 32
      → done c ≡ false
      → (c' : PieceCursor) × (p : PieceRange) × (next tag_size c piece_size ≡ (c', some p))
        × Moves piece_size c p c'
  unfolding next
  next_lem c piece_size v l e =
      let (k, here, valid, same, d) = enter_lem c.descriptor c.pending c.current c.offset v e in
      let entered = enter_chunk tag_size c in
      let q : entered ≡ cursor_at entered.descriptor entered.pending (some k) entered.offset =
        λ i. record entered { current = here i } in
      let (c', p, step, m) =
        take_lem entered.descriptor entered.pending k entered.offset piece_size
          (subst IsValid q valid) l in
      (
        c',
        p,
        next_at c k piece_size here
            ∙ (ap (λ (x : PieceCursor). take_piece tag_size x k piece_size) q ∙ step),
        record {
          valid = m.valid;
          same = m.same ∙ d;
          nonempty = m.nonempty;
          bounded = m.bounded;
          octets = sym same ∙ (ap left q ∙ m.octets);
        },
      )

  pub next-done :
      (d : DataDescriptor) (pending : List ℕ) (current : Option ℕ) (offset piece_size : ℕ)
      → let c = cursor_at d pending current offset in
        done c ≡ true → (next tag_size c piece_size ≡ (c, none)) × (left c ≡ [])
  unfolding next done left
  next-done d [] none offset piece_size e = (refl, refl)
  next-done d (x ∷ xs) none offset piece_size e = cc
  next-done d [] (some k) offset piece_size e = cc
  next-done d (x ∷ xs) (some k) offset piece_size e = cc

  next-some_at :
      (d : DataDescriptor) (pending : List ℕ) (current : Option ℕ) (offset piece_size : ℕ)
      → done (cursor_at d pending current offset) ≡ false
      → (p : PieceRange) × ((next tag_size (cursor_at d pending current offset) piece_size).1
          ≡ some p)
  unfolding next done take_piece
  next-some_at d [] none offset piece_size e = cc
  next-some_at d (x ∷ xs) none offset piece_size e = (_, refl)
  next-some_at d [] (some k) offset piece_size e = (_, refl)
  next-some_at d (x ∷ xs) (some k) offset piece_size e = (_, refl)

  -- A cursor that is not done gives a piece, whatever its chunks.
  pub next-some :
      (c : PieceCursor) (piece_size : ℕ)
      → done c ≡ false
      → (p : PieceRange) × ((next tag_size c piece_size).1 ≡ some p)
  next-some c piece_size e = next-some_at c.descriptor c.pending c.current c.offset piece_size e
