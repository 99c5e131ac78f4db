-- ===== src/Cursor/Cover/Drain.antt =====
-- The pieces that a cursor of spsync/transfer/piece_cursor.cpp gives until it ends.
use spsync.Prelude.{
  ℕ, zero, suc, ◌^◌, ◌≤◌, ◌<◌, max, ◌≡◌, refl, sym, ap, ◌∙◌, subst, inl, inr, true, Option, none,
  some, List, [], ◌∷◌, ◌++◌, arith, Bool-cases, length, All, length-append,
}
use mathlib.Core.List.{append_assoc, append-nil}
use spsync.Descriptor.{DataDescriptor, chunk_count}
use spsync.Descriptor.Sizes.{IsWide}
use spsync.Cursor.{PieceRange, PieceCursor, new_cursor, add, done, next}
use spsync.Cursor.Cover.{
  octets_at, length-octets_at, octets_of_chunks, left, IsValid, next_lem, next-done,
}

module _ (tag_size : ℕ) where
  -- The pieces that the cursor gives until it is done, with fuel.
  pub drain : ℕ → PieceCursor → ℕ → List PieceRange
  drain zero c piece_size = []
  drain (suc fuel) c piece_size =
      let (c', piece) = next tag_size c piece_size in
      elim piece [ none ↦ [] | some p ↦ p ∷ drain fuel c' piece_size ]

  pub octets_of_pieces : List PieceRange → List (ℕ × ℕ)
  octets_of_pieces [] = []
  octets_of_pieces (p ∷ pieces) = octets_at p.chunk_no p.offset p.size ++ octets_of_pieces pieces

  drain_end :
      (fuel : ℕ) (c c' : PieceCursor) (piece_size : ℕ)
      → next tag_size c piece_size ≡ (c', none)
      → drain (suc fuel) c piece_size ≡ []
  unfolding drain
  drain_end fuel c c' piece_size h = rw (h, drain)

  drain_step :
      (fuel : ℕ) (c c' : PieceCursor) (p : PieceRange) (piece_size : ℕ)
      → next tag_size c piece_size ≡ (c', some p)
      → drain (suc fuel) c piece_size ≡ p ∷ drain fuel c' piece_size
  unfolding drain
  drain_step fuel c c' p piece_size h =
      rw (h, drain) (ap (λ (x : PieceCursor × Option PieceRange). p ∷ drain fuel x.0 piece_size) h)

  drain-left :
      (fuel : ℕ) (c : PieceCursor) (piece_size : ℕ)
      → IsValid tag_size c
      → piece_size < 2 ^ 32
      → length (left tag_size c) < fuel
      → octets_of_pieces (drain fuel c piece_size) ≡ left tag_size c
  unfolding octets_of_pieces
  drain-left zero c piece_size v l f = absurd (omega arith)
  drain-left (suc fuel) c piece_size v l f = elim (Bool-cases (done c)) [
    | inl e ↦
        let (step, none_left) =
          next-done tag_size c.descriptor c.pending c.current c.offset piece_size e in
        rw (drain_end fuel c c piece_size step) (sym none_left)
    | inr e ↦
        let (c', p, step, m) = next_lem tag_size c piece_size v l e in
        rw (drain_step fuel c c' p piece_size step) (
          ap (◌++◌ (octets_at p.chunk_no p.offset p.size)) (
            drain-left fuel c' piece_size m.valid l (
              omega (
                arith,
                ap length m.octets,
                length-append (octets_at p.chunk_no p.offset p.size) (left tag_size c'),
                length-octets_at p.chunk_no p.offset p.size,
                m.nonempty,
              )))
          ∙ sym m.octets)
  ]

  -- The cursor after a number of rounds.
  pub after_rounds : ℕ → PieceCursor → ℕ → PieceCursor
  after_rounds zero c piece_size = c
  after_rounds (suc fuel) c piece_size = after_rounds fuel (next tag_size c piece_size).0 piece_size

  -- A cursor that is done gives no piece and stays.
  pub record Ends (c : PieceCursor) (piece_size : ℕ) : Type 0 where
    pub is_done : done c ≡ true
    pub gives_none : next tag_size c piece_size ≡ (c, none)

  stays :
      (fuel : ℕ) (c : PieceCursor) (piece_size : ℕ)
      → next tag_size c piece_size ≡ (c, none)
      → after_rounds fuel c piece_size ≡ c
  unfolding after_rounds
  stays zero c piece_size h = refl
  stays (suc fuel) c piece_size h = rw h (stays fuel c piece_size h)

  rounds_end :
      (fuel : ℕ) (c : PieceCursor) (piece_size : ℕ)
      → IsValid tag_size c
      → piece_size < 2 ^ 32
      → length (left tag_size c) < fuel
      → Ends (after_rounds fuel c piece_size) piece_size
  unfolding after_rounds
  rounds_end zero c piece_size v l f = absurd (omega arith)
  rounds_end (suc fuel) c piece_size v l f = elim (Bool-cases (done c)) [
    | inl e ↦
        let (step, none_left) =
          next-done tag_size c.descriptor c.pending c.current c.offset piece_size e in
        rw (step, stays fuel c piece_size step) (record { is_done = e; gives_none = step })
    | inr e ↦
        let (c', p, step, m) = next_lem tag_size c piece_size v l e in
        rw step (
          rounds_end fuel c' piece_size m.valid l (
            omega (
              arith,
              ap length m.octets,
              length-append (octets_at p.chunk_no p.offset p.size) (left tag_size c'),
              length-octets_at p.chunk_no p.offset p.size,
              m.nonempty,
            )))
  ]

  -- The pieces are not empty and of the piece size at most, or of one octet for a piece size of 0.
  drain_sizes :
      (fuel : ℕ) (c : PieceCursor) (piece_size : ℕ)
      → IsValid tag_size c
      → piece_size < 2 ^ 32
      → All (λ p. (0 < p.size) × (p.size ≤ max piece_size 1)) (drain fuel c piece_size)
  unfolding drain
  drain_sizes zero c piece_size v l = tt
  drain_sizes (suc fuel) c piece_size v l = elim (Bool-cases (done c)) [
    | inl e ↦
        let (step, none_left) =
          next-done tag_size c.descriptor c.pending c.current c.offset piece_size e in
        subst (All _) (sym (drain_end fuel c c piece_size step)) tt
    | inr e ↦
        let (c', p, step, m) = next_lem tag_size c piece_size v l e in
        subst (All _) (sym (drain_step fuel c c' p piece_size step))
          ((m.nonempty, m.bounded), drain_sizes fuel c' piece_size m.valid l)
  ]

  -- A cursor to which chunks were added.
  pub add_all : PieceCursor → List ℕ → PieceCursor
  add_all c [] = c
  add_all c (k ∷ chunks) = add_all (add c k) chunks

  add_all_lem :
      (c : PieceCursor) (chunks : List ℕ)
      → add_all c chunks ≡ record c { pending = c.pending ++ chunks }
  unfolding add_all add
  add_all_lem c [] = (λ i. record c { pending = sym (append-nil c.pending) i })
  add_all_lem c (k ∷ chunks) =
      add_all_lem (add c k) chunks
      ∙ (λ i. record c { pending = append_assoc c.pending (k ∷ []) chunks i })

  -- The pieces of a cursor to which chunks of a data were added cover the octets of the chunks, each once and in order;
  -- none is empty or larger than the piece size (than one octet for a piece size of 0); and after rounds for one more
  -- than the octets the cursor is done, gives no piece and stays as it is.
  pub drain-octets_of_chunks :
      (d : DataDescriptor) (chunks : List ℕ) (piece_size fuel : ℕ)
      → IsWide tag_size d
      → All (λ k. k < chunk_count tag_size d) chunks
      → piece_size < 2 ^ 32
      → length (octets_of_chunks tag_size d chunks) < fuel
      → let c = add_all (new_cursor d) chunks in
        (octets_of_pieces (drain fuel c piece_size) ≡ octets_of_chunks tag_size d chunks)
        × All (λ p. (0 < p.size) × (p.size ≤ max piece_size 1)) (drain fuel c piece_size)
        × Ends (after_rounds fuel c piece_size) piece_size
  unfolding new_cursor left
  drain-octets_of_chunks d chunks piece_size fuel w a l f =
      let c : PieceCursor = record (new_cursor d) { pending = chunks } in
      let v : IsValid tag_size c = record { wide = w; chunks = a; inside = tt } in
      rw (add_all_lem (new_cursor d) chunks) (
        drain-left fuel c piece_size v l f,
        drain_sizes fuel c piece_size v l,
        rounds_end fuel c piece_size v l f,
      )
