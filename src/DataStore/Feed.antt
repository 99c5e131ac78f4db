-- ===== src/DataStore/Feed.antt =====
-- The pieces of a chunk that spsync/core/data/record_data_store.cpp takes one after the other.
use spsync.Prelude.{
  ℕ, ◌+◌, ◌≤◌, ◌<◌, ◌≡◌, refl, sym, ap, ◌∙◌, subst, inl, inr, Bool, true, false, not, ◌&&◌, List,
  [], ◌∷◌, ◌++◌, arith, ◌==◌, Bool-cases, u64_mod, add64, length, length-append, Octets, is_empty,
  eq_octets,
}
use mathlib.Core.List.{append_assoc, append-nil}
use spsync.DataStore.Checked.{IncomingChunk, fits, append_piece, is_whole}

-- The pieces given one after the other; each one is written.
unfoldable pub feed : List (ℕ × Octets) → IncomingChunk → IncomingChunk
feed [] c = c
feed ((offset, piece) ∷ pieces) c = feed pieces (append_piece offset piece true c).0

-- The pieces follow on one another, none is empty.
unfoldable pub in_order : ℕ → List (ℕ × Octets) → Bool
in_order n [] = true
in_order n ((offset, piece) ∷ pieces) =
    (offset == n && not (is_empty piece)) && in_order (n + length piece) pieces

unfoldable pub contents : List (ℕ × Octets) → Octets
contents [] = []
contents ((offset, piece) ∷ pieces) = piece ++ contents pieces

module _ (hash : Octets → Octets) where
  -- The octets are the chunk.
  unfoldable pub is_chunk : IncomingChunk → Octets → Bool
  is_chunk c os =
      length os == c.expected_size && (eq_octets (hash os) c.expected_digest && not (is_empty os))

  pub append_closed :
      (c : IncomingChunk) (offset : ℕ) (piece : Octets)
      → c.is_open ≡ false
      → (append_piece offset piece true c).0.is_open ≡ false
  unfolding append_piece
  append_closed c offset piece h = ground arith

  pub closed_whole :
      (pieces : List (ℕ × Octets)) (c : IncomingChunk)
      → c.is_open ≡ false
      → is_whole hash (feed pieces c) ≡ false
  unfolding feed is_whole
  closed_whole [] c h = ground arith
  closed_whole ((offset, piece) ∷ pieces) c h =
      closed_whole pieces (append_piece offset piece true c).0 (append_closed c offset piece h)

  pub record Fed (c : IncomingChunk) : Type 0 where
    pub opened : c.is_open ≡ true
    pub same : c.staged ≡ c.hashed
    pub counted : c.received ≡ length c.staged
    pub within : c.received ≤ c.expected_size
    pub wide : c.expected_size < u64_mod

  nil_whole : (c : IncomingChunk) → Fed c → is_whole hash c ≡ is_chunk c c.staged
  unfolding is_whole is_chunk
  nil_whole c f = ground (arith, ap hash f.same)

  taken : IncomingChunk → Octets → IncomingChunk
  taken c piece = record c {
    staged = c.staged ++ piece;
    hashed = c.hashed ++ piece;
    received = add64 c.received (length piece);
  }

  append_taken :
      (c : IncomingChunk) (offset : ℕ) (piece : Octets)
      → fits offset piece c ≡ true
      → (append_piece offset piece true c).0 ≡ taken c piece
  unfolding append_piece taken
  append_taken c offset piece h = rw (h, append_piece) refl

  append_refused :
      (c : IncomingChunk) (offset : ℕ) (piece : Octets)
      → fits offset piece c ≡ false
      → (append_piece offset piece true c).0.is_open ≡ false
  unfolding append_piece
  append_refused c offset piece h = rw (h, append_piece) refl

  taken-Fed :
      (c : IncomingChunk) (offset : ℕ) (piece : Octets)
      → Fed c
      → fits offset piece c ≡ true
      → Fed (taken c piece)
  unfolding fits taken
  taken-Fed c offset piece f h = record {
    opened = f.opened;
    same = ap (λ t. t ++ piece) f.same;
    counted = ground (arith, length-append c.staged piece);
    within = ground arith;
    wide = f.wide;
  }

  -- The piece that was taken, moved from the octets so far to those that follow.
  regroup :
      (c : IncomingChunk) (offset : ℕ) (piece : Octets) (pieces : List (ℕ × Octets))
      → Fed c
      → fits offset piece c ≡ true
      → (in_order (length (taken c piece).staged) pieces
          && is_chunk (taken c piece) ((taken c piece).staged ++ contents pieces))
        ≡ (in_order (length c.staged) ((offset, piece) ∷ pieces)
            && is_chunk c (c.staged ++ contents ((offset, piece) ∷ pieces)))
  unfolding fits taken is_chunk in_order contents
  regroup c offset piece pieces f h =
      rw (append_assoc c.staged piece (contents pieces), length-append c.staged piece)
        (ground arith)

  refused_whole :
      (c : IncomingChunk) (offset : ℕ) (piece : Octets) (pieces : List (ℕ × Octets))
      → Fed c
      → fits offset piece c ≡ false
      → (in_order (length c.staged) ((offset, piece) ∷ pieces)
          && is_chunk c (c.staged ++ contents ((offset, piece) ∷ pieces)))
        ≡ false
  unfolding fits is_chunk in_order contents
  refused_whole c offset piece pieces f h = ground (
    arith,
    length-append c.staged (piece ++ contents pieces),
    length-append piece (contents pieces),
  )

  pub Fed-whole :
      (pieces : List (ℕ × Octets)) (c : IncomingChunk)
      → Fed c
      → is_whole hash (feed pieces c)
        ≡ (in_order (length c.staged) pieces && is_chunk c (c.staged ++ contents pieces))
  unfolding feed in_order contents
  Fed-whole [] c f = rw (append-nil c.staged) (nil_whole c f)
  Fed-whole ((offset, piece) ∷ pieces) c f = elim (Bool-cases (fits offset piece c)) [
    | inl on ↦
        let c' = taken c piece in
        let step = Fed-whole pieces c' (taken-Fed c offset piece f on) in
        rw (append_taken c offset piece on) (step ∙ regroup c offset piece pieces f on)
    | inr off ↦
        closed_whole pieces (append_piece offset piece true c).0 (append_refused c offset piece off)
        ∙ sym (refused_whole c offset piece pieces f off)
  ]

  append_names :
      (c : IncomingChunk) (offset : ℕ) (piece : Octets)
      → ((append_piece offset piece true c).0.id ≡ c.id)
        × ((append_piece offset piece true c).0.chunk_no ≡ c.chunk_no)
  unfolding append_piece
  append_names c offset piece = (ground arith, ground arith)

  taken_staged :
      (c : IncomingChunk) (piece : Octets) (pieces : List (ℕ × Octets))
      → (taken c piece).staged ++ contents pieces ≡ c.staged ++ (piece ++ contents pieces)
  unfolding taken
  taken_staged c piece pieces = append_assoc c.staged piece (contents pieces)

  pub feed_names :
      (pieces : List (ℕ × Octets)) (c : IncomingChunk)
      → ((feed pieces c).id ≡ c.id) × ((feed pieces c).chunk_no ≡ c.chunk_no)
  unfolding feed
  feed_names [] c = (refl, refl)
  feed_names ((offset, piece) ∷ pieces) c =
      let (i, n) = feed_names pieces (append_piece offset piece true c).0 in
      let (i', n') = append_names c offset piece in (i ∙ i', n ∙ n')

  -- What is in the file at the end of a chunk that is whole.
  pub Fed-staged :
      (pieces : List (ℕ × Octets)) (c : IncomingChunk)
      → Fed c
      → is_whole hash (feed pieces c) ≡ true
      → (feed pieces c).staged ≡ c.staged ++ contents pieces
  unfolding feed contents
  Fed-staged [] c f h = sym (append-nil c.staged)
  Fed-staged ((offset, piece) ∷ pieces) c f h = elim (Bool-cases (fits offset piece c)) [
    | inl on ↦
        let c' = taken c piece in
        let same = append_taken c offset piece on in
        let rest =
          Fed-staged pieces c' (taken-Fed c offset piece f on)
            (subst (λ t. is_whole hash (feed pieces t) ≡ true) same h) in
        ap (λ t. (feed pieces t).staged) same ∙ (rest ∙ taken_staged c piece pieces)
    | inr off ↦ cc (
      closed_whole pieces (append_piece offset piece true c).0 (append_refused c offset piece off),
      h,
    )
  ]
