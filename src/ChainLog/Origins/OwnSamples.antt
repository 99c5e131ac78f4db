-- ===== src/ChainLog/Origins/OwnSamples.antt =====
-- The samples of an origin in spsync/server/server_lib/chain_log.cpp, against the records of its own log.
use spsync.Prelude.{
  ℕ, ◌≤◌, ◌<◌, max, ◌≡◌, refl, sym, ap, ◌∙◌, subst, ◌≢◌, ◌⊎◌, inl, inr, true, false, ◌&&◌, Option,
  none, some, List, [], ◌∷◌, arith, leb, ◌==◌, if◌then◌else◌, Bool-cases, All, Any, All-mono,
  Any-mono, All-Any_meet, Octets, is_empty,
}
use spsync.Sequence.{is_valid}
use spsync.Divergence.{ChainBlockId, Divergence, sample_sequences, find_divergence, diverged}
use spsync.Divergence.Merge.{find_divergence-Finds}
use spsync.Divergence.Samples.{sample_sequences_pos}
use spsync.Records.{ChainBlock}
use spsync.RecordStorage.{Row}
use spsync.ChainLog.Origins.{
  assigned_by, seq_of, of_origin, newest_of, later_of, seq_of_row, last_origin_seq, envelope_hash,
  at_seq, origin_block_hash, samples_at, samples_of, find_origin_divergence,
}

later_seq :
    (r : Row) (o : Option Row)
    → seq_of_row (some (later_of r o)) ≡ max (seq_of r.origin) (seq_of_row o)
later_seq r none = ground arith
later_seq r (some s) = ground arith

last_origin_step :
    (origin : Octets) (r : Row) (rows : List Row)
    → last_origin_seq origin (r ∷ rows) ≡ (
        if of_origin origin r
        then max (seq_of r.origin) (last_origin_seq origin rows)
        else last_origin_seq origin rows)
unfolding last_origin_seq newest_of
last_origin_step origin r rows = elim (Bool-cases (of_origin origin r)) [
  | inl on ↦ rw on (later_seq r (newest_of origin rows))
  | inr off ↦ rw off refl
]

last_origin_bound :
    (origin : Octets) (rows : List Row)
    → All (λ r. of_origin origin r ≡ true → seq_of r.origin ≤ last_origin_seq origin rows) rows
last_origin_bound origin [] = tt
last_origin_bound origin (r ∷ rows) = (
  (λ on. ground (arith, on, last_origin_step origin r rows)),
  All-mono (λ s h on. ground (arith, h on, last_origin_step origin r rows)) rows
      (last_origin_bound origin rows),
)

last_origin_found :
    (origin : Octets) (rows : List Row)
    → 0 < last_origin_seq origin rows
    → Any (λ r. (of_origin origin r ≡ true) × (seq_of r.origin ≡ last_origin_seq origin rows)) rows
unfolding last_origin_seq newest_of
last_origin_found origin [] p = absurd (omega arith)
last_origin_found origin (r ∷ rows) p =
    let step = last_origin_step origin r rows in
    let further : last_origin_seq origin rows ≡ last_origin_seq origin (r ∷ rows)
        → Any
            (λ s.
              (of_origin origin s ≡ true) × (seq_of s.origin ≡ last_origin_seq origin (r ∷ rows)))
            (r ∷ rows) =
      λ e. inr (
        Any-mono (λ s q. (q.0, q.1 ∙ e)) rows
          (last_origin_found origin rows (omega (arith, e, p)))) in
    elim (Bool-cases (of_origin origin r)) [
      | inr off ↦ further (ground (arith, off, step))
      | inl on ↦ elim (Bool-cases (leb (last_origin_seq origin rows) (seq_of r.origin))) [
        | inl top ↦ inl (on, ground (arith, on, step, top))
        | inr below ↦ further (ground (arith, on, step, below))
      ]
    ]

at_seq-seq_of :
    (hash : ChainBlock → Octets) (seq : ℕ) (o : Option (Octets × ℕ))
    → at_seq hash seq o ≡ true
    → seq_of o ≡ seq
at_seq-seq_of hash seq none h = cc
at_seq-seq_of hash seq (some (o, n)) h = ground (arith, h)

assigned-at_seq :
    (hash : ChainBlock → Octets) (origin : Octets) (seq : ℕ) (o : Option (Octets × ℕ))
    → assigned_by origin o ≡ true
    → seq_of o ≡ seq
    → at_seq hash seq o ≡ true
assigned-at_seq hash origin seq none h e = cc
assigned-at_seq hash origin seq (some (o, n)) h e = ground (arith, e)

of_origin-assigned :
    (origin : Octets) (r : Row) → of_origin origin r ≡ true → assigned_by origin r.origin ≡ true
unfolding of_origin
of_origin-assigned origin r h = ground (arith, h)

module _ (hash : ChainBlock → Octets) (origin : Octets) where
  -- A record of the origin at a sequence, with the hash of its block.
  pub record IsRecord (seq : ℕ) (h : Octets) (r : Row) : Type 0 where
    pub assigned : of_origin origin r ≡ true
    pub at : seq_of r.origin ≡ seq
    pub hashed : envelope_hash hash r.envelope ≡ h

  hash_step :
      (r : Row) (rows : List Row) (seq : ℕ)
      → origin_block_hash hash origin (r ∷ rows) seq ≡ (
          if of_origin origin r && at_seq hash seq r.origin
          then envelope_hash hash r.envelope
          else origin_block_hash hash origin rows seq)
  unfolding origin_block_hash
  hash_step r rows seq = refl

  no_hash : (seq : ℕ) → is_empty (origin_block_hash hash origin [] seq) ≡ true
  unfolding origin_block_hash
  no_hash seq = refl

  -- A hash that is found is that of a record.
  hash_found :
      (rows : List Row) (seq : ℕ)
      → is_empty (origin_block_hash hash origin rows seq) ≡ false
      → Any (IsRecord seq (origin_block_hash hash origin rows seq)) rows
  hash_found [] seq h = cc (no_hash seq, h)
  hash_found (r ∷ rows) seq h =
      let step = hash_step r rows seq in
      elim (Bool-cases (of_origin origin r && at_seq hash seq r.origin)) [
        | inl on ↦ inl (record {
          assigned = ground (arith, on);
          at = at_seq-seq_of hash seq r.origin (ground (arith, on));
          hashed = sym (step ∙ rw on refl);
        })
        | inr off ↦
            let rest : origin_block_hash hash origin rows seq
                ≡ origin_block_hash hash origin (r ∷ rows) seq =
              sym (step ∙ rw off refl) in
            inr (
              Any-mono
                (λ s q. record { assigned = q.assigned; at = q.at; hashed = q.hashed ∙ rest }) rows
                (hash_found rows seq (ap is_empty rest ∙ h)))
      ]

  -- Every record of the origin has an envelope, of a block with a hash.
  abbrev pub Enveloped : List Row → Type 0
  Enveloped rows =
      All (λ r. of_origin origin r ≡ true → is_empty (envelope_hash hash r.envelope) ≡ false) rows

  hash_known :
      (rows : List Row) (seq : ℕ)
      → Enveloped rows
      → Any (λ r. (of_origin origin r ≡ true) × (seq_of r.origin ≡ seq)) rows
      → is_empty (origin_block_hash hash origin rows seq) ≡ false
  hash_known [] seq e i = absurd i
  hash_known (r ∷ rows) seq e i =
      let step = hash_step r rows seq in
      elim (Bool-cases (of_origin origin r && at_seq hash seq r.origin)) [
        | inl on ↦ ap is_empty (step ∙ rw on refl) ∙ e.0 (ground (arith, on))
        | inr off ↦ elim i [
          | inl here ↦
              let at =
                assigned-at_seq hash origin seq r.origin (of_origin-assigned origin r here.0)
                  here.1 in
              absurd (ground (arith, off, at, here.0))
          | inr later ↦ ap is_empty (step ∙ rw off refl) ∙ hash_known rows seq e.1 later
        ]
      ]

  samples_step :
      (held : ℕ → Octets) (seq : ℕ) (seqs : List ℕ)
      → is_empty (held seq) ≡ false
      → samples_at hash held (seq ∷ seqs)
        ≡ record { sequence = seq; hash = held seq } ∷ samples_at hash held seqs
  unfolding samples_at
  samples_step held seq seqs h = rw h refl

  -- What holds of every sequence that is held holds of the samples.
  samples_at-All :
      (P : ChainBlockId → Type 0) (held : ℕ → Octets) (seqs : List ℕ)
      → All
          (λ seq. is_empty (held seq) ≡ false → P (record { sequence = seq; hash = held seq }))
          seqs
      → All P (samples_at hash held seqs)
  unfolding samples_at
  samples_at-All P held [] h = tt
  samples_at-All P held (seq ∷ seqs) h = elim (Bool-cases (is_empty (held seq))) [
    | inl gone ↦ rw gone (samples_at-All P held seqs h.1)
    | inr there ↦
        subst (All P) (sym (samples_step held seq seqs there))
          (h.0 there, samples_at-All P held seqs h.1)
  ]

  all_of : (P : ℕ → Type 0) (seqs : List ℕ) → ((seq : ℕ) → P seq) → All P seqs
  all_of P [] h = tt
  all_of P (seq ∷ seqs) h = (h seq, all_of P seqs h)

  module _ (rows : List Row) (enveloped : Enveloped rows) where
    abbrev held : ℕ → Octets
    held = origin_block_hash hash origin rows

    abbrev top : ℕ
    top = last_origin_seq origin rows

    abbrev own : List ChainBlockId
    own = samples_at hash held (sample_sequences top)

    samples-IsRecord : All (λ b. Any (IsRecord b.sequence b.hash) rows) own
    samples-IsRecord =
        samples_at-All _ held (sample_sequences top)
          (all_of _ (sample_sequences top) (λ seq h. hash_found rows seq h))

    samples-same : All (λ b. held b.sequence ≡ b.hash) own
    samples-same =
        samples_at-All _ held (sample_sequences top)
          (all_of _ (sample_sequences top) (λ seq h. refl))

    -- What a log finds of its own samples of an origin.
    pub record FindsItself (samples : List ChainBlockId) (d : Divergence) : Type 0 where
      pub sampled : All (λ b. Any (IsRecord b.sequence b.hash) rows) samples
      pub no_fork : diverged d ≡ false
      pub reaches : All (λ r. of_origin origin r ≡ true → seq_of r.origin ≤ d.last_common) rows
      pub found :
          (d.last_common ≡ 0)
          ⊎ Any (λ r. (of_origin origin r ≡ true) × (seq_of r.origin ≡ d.last_common)) rows

    top_common :
        0 < top
        → All
            (λ b.
              (0 < b.sequence) × (held b.sequence ≢ []) × (held b.sequence ≡ b.hash)
              → b.sequence ≤ (find_divergence own held).last_common)
            own
        → top ≤ (find_divergence own held).last_common
    top_common p bound =
        let known = hash_known rows top enveloped (last_origin_found origin rows p) in
        let first =
          ap (samples_at hash held) (sample_sequences_pos top p) ∙ samples_step held top _ known in
        (subst
            (All (λ b.
              (0 < b.sequence) × (held b.sequence ≢ []) × (held b.sequence ≡ b.hash)
              → b.sequence ≤ (find_divergence own held).last_common))
            first bound).0
          (p, (λ e. cc (ap is_empty e, known)), refl)

    own_fork : diverged (find_divergence own held) ≡ false
    unfolding diverged is_valid
    own_fork = elim (find_divergence-Finds held own).divergent_found [
      | inl none_found ↦ ground (arith, none_found)
      | inr some_found ↦
          All-Any_meet own samples-same some_found (λ b same other. absurd (other.0.2 same))
    ]

    -- In a log that has an envelope, with a block that has a hash, for every record of an origin, the samples of the
    -- origin are sequences and hashes of its records, and the log finds no divergence at them: what it finds in common
    -- is the newest sequence of the origin, or 0 when it has none.
    pub find_origin_divergence-samples_of :
        FindsItself
          (samples_of hash origin rows)
          (find_origin_divergence hash origin rows (samples_of hash origin rows))
    unfolding samples_of find_origin_divergence
    find_origin_divergence-samples_of =
        let finds = find_divergence-Finds held own in
        record {
          sampled = samples-IsRecord;
          no_fork = own_fork;
          reaches =
              All-mono
                (λ r b on. elim (Bool-cases (top == 0)) [
                  | inl nil ↦ ground (arith, b on)
                  | inr more ↦ omega (arith, b on, top_common (ground arith) finds.common_bound)
                ])
                rows (last_origin_bound origin rows);
          found = elim finds.common_found [
            | inl nil ↦ inl nil
            | inr some_common ↦ inr (
                All-Any_meet own samples-IsRecord some_common
                  (λ b is common. Any-mono (λ r q. (q.assigned, q.at ∙ sym common.1)) rows is))
          ];
        }
