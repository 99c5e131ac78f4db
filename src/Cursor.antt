-- ===== src/Cursor.antt =====
-- spsync/transfer/piece_cursor.hpp and piece_cursor.cpp: where the transfer of a data is, by pieces.
pub mod Tests
pub mod Cover
use spsync.Prelude.{
  ℕ, zero, suc, ◌+◌, ◌-◌, ◌*◌, ◌/◌, ◌%◌, ◌^◌, ◌≤◌, ◌<◌, min, max, ◌≡◌, refl, sym, ap, ◌∙◌, subst,
  ◌≢◌, ◌↔◌, ◌⊎◌, inl, inr, Bool, true, false, not, ◌&&◌, ◌||◌, Option, none, some, List, [], ◌∷◌,
  ◌++◌, map, arith, ltb, leb, ◌==◌, if◌then◌else◌, Bool-cases, Option-cases, ==_iff, u64_mod, add64,
  sub64, length, get_elem?, take, All, Any, length-append, Octets, is_empty, eq_octets, lt_octets,
  eq_octets_iff,
}
use spsync.Descriptor.{DataDescriptor, chunk_enc_size}

pub record PieceRange : Type 0 where
  pub chunk_no : ℕ
  pub offset : ℕ
  pub size : ℕ

pub record PieceCursor : Type 0 where
  pub descriptor : DataDescriptor
  pub pending : List ℕ
  pub current : Option ℕ
  pub offset : ℕ

pub new_cursor : DataDescriptor → PieceCursor
new_cursor d = record { descriptor = d; pending = []; current = none; offset = 0 }

pub add : PieceCursor → ℕ → PieceCursor
add c chunk_no = record c { pending = c.pending ++ (chunk_no ∷ []) }

abbrev pub is_none {ℓ} : {A : Type ℓ} → Option A → Bool
is_none none = true
is_none (some a) = false

abbrev pub no_chunks : List ℕ → Bool
no_chunks [] = true
no_chunks (x ∷ xs) = false

unfoldable pub done : PieceCursor → Bool
done c = no_chunks c.pending && is_none c.current

abbrev pub front : List ℕ → Option ℕ
front [] = none
front (x ∷ xs) = some x

abbrev pub pop_front : List ℕ → List ℕ
pop_front [] = []
pop_front (x ∷ xs) = xs

unfoldable pub starting_chunk : PieceCursor → Option ℕ
starting_chunk c = if is_none c.current && not (no_chunks c.pending) then front c.pending else none

module _ (tag_size : ℕ) where
  -- The next pending chunk becomes the current one, when there is none.
  pub enter_chunk : PieceCursor → PieceCursor
  enter_chunk c =
      if is_none c.current && not (no_chunks c.pending)
      then record c { current = front c.pending; pending = pop_front c.pending; offset = 0 }
      else c

  -- The piece at the cursor in the chunk `k`. A piece size is a 32 bit word.
  pub take_piece : PieceCursor → ℕ → ℕ → PieceCursor × Option PieceRange
  take_piece c k piece_size =
      let chunk = chunk_enc_size tag_size c.descriptor k in
      let size = min (max piece_size 1) (sub64 chunk c.offset) % 2 ^ 32 in
      let offset = add64 c.offset size in
      (
        record c { offset = offset; current = if leb chunk offset then none else c.current },
        some (record { chunk_no = k; offset = c.offset; size = size }),
      )

  -- The piece of the current chunk, when there is one.
  pub piece_of : PieceCursor → Option ℕ → ℕ → PieceCursor × Option PieceRange
  piece_of c none piece_size = (c, none)
  piece_of c (some k) piece_size = take_piece c k piece_size

  unfoldable pub next : PieceCursor → ℕ → PieceCursor × Option PieceRange
  unfolding enter_chunk piece_of
  next c piece_size = let c' = enter_chunk c in piece_of c' c'.current piece_size
