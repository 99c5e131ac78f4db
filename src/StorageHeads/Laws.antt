-- ===== src/StorageHeads/Laws.antt =====
-- What `advance` of spsync/server/server_lib/storage_heads.cpp keeps.
use spsync.Prelude.{
  ◌<◌, ◌≤◌, ◌≡◌, refl, sym, subst, ◌∙◌, ◌⊎◌, inl, inr, Bool, true, false, All, Any, not, ◌&&◌, ◌||◌,
  Option, none, some, List, [], ◌∷◌, arith, if◌then◌else◌, Bool-cases, Octets, is_empty, eq_octets,
  eq_octets_iff,
}
use spsync.KeyMap.{find}
use spsync.KeyMap.Laws.{find-assign}
use spsync.Sequence.{is_valid}
use spsync.Divergence.{ChainBlockId}
use spsync.StorageHeads.{OriginHead, older, is_valid_block, newer, advance}

-- The table after each head of a list is advanced; what is refused leaves it.
abbrev pub kept :
    List (Octets × OriginHead)
    → Option (Bool × List (Octets × OriginHead))
    → List (Octets × OriginHead)
kept heads none = heads
kept heads (some (stored, after)) = after

unfoldable pub advances : List (Octets × OriginHead) → List OriginHead → List (Octets × OriginHead)
advances heads [] = heads
advances heads (h ∷ hs) = advances (kept heads (advance heads h)) hs

-- The order of term and sequence: the first head is not newer than the second.
pub NotNewer : OriginHead → OriginHead → Type 0
NotNewer a b = (a.term < b.term) ⊎ ((a.term ≡ b.term) × (a.block.sequence ≤ b.block.sequence))

-- A valid head of an origin.
pub record IsHeadOf (origin : Octets) (h : OriginHead) : Type 0 where
  pub same : h.origin ≡ origin
  pub named : is_empty h.origin ≡ false
  pub numbered : 0 < h.block.sequence
  pub hashed : is_empty h.block.hash ≡ false

-- There is a head that is held, and it is at least as new.
pub Covered : OriginHead → Option OriginHead → Type 0
Covered h none = ⊥
Covered h (some held) = NotNewer h held

-- What the table holds for an origin that it held `before` of, after some heads.
pub record HoldsNewest (origin : Octets) (before : Option OriginHead) (hs : List OriginHead)
    (held : Option OriginHead) : Type 0 where
  pub from : (held ≡ before) ⊎ Any (λ h. IsHeadOf origin h × (held ≡ some h)) hs
  pub covers_before : (h : OriginHead) → before ≡ some h → Covered h held
  pub covers_heads : All (λ h. IsHeadOf origin h → Covered h held) hs

advance_step :
    (heads : List (Octets × OriginHead)) (h : OriginHead) (origin : Octets)
    → find origin (kept heads (advance heads h)) ≡ (
        if eq_octets h.origin origin
          && ((not (is_empty h.origin) && is_valid_block h.block) && newer (find origin heads) h)
        then some h
        else find origin heads)
unfolding advance
advance_step heads h origin =
    elim (Bool-cases (is_empty h.origin || not (is_valid_block h.block))) [
      | inl bad ↦ rw (bad) (ground (arith, bad))
      | inr good ↦ elim (Bool-cases (newer (find h.origin heads) h)) [
        | inl t ↦
            rw (good, t)
              (ground (
                arith,
                good,
                t,
                find-assign h.origin origin h heads,
                eq_octets_iff h.origin origin,
              ))
        | inr f ↦ rw (good, f) (ground (arith, good, f, eq_octets_iff h.origin origin))
      ]
    ]

block_parts :
    (b : ChainBlockId) → is_valid_block b ≡ true → (0 < b.sequence) × (is_empty b.hash ≡ false)
unfolding is_valid_block is_valid
block_parts b h = ground arith

block_whole :
    (b : ChainBlockId) → 0 < b.sequence → is_empty b.hash ≡ false → is_valid_block b ≡ true
unfolding is_valid_block is_valid
block_whole b p h = ground arith

older-NotNewer : (a b : OriginHead) → older a b ≡ true → NotNewer a b
unfolding older NotNewer
older-NotNewer a b h = ground (arith, h)

not_older : (a b : OriginHead) → older a b ≡ false → NotNewer b a
unfolding older NotNewer
not_older a b h = ground (arith, h)

same-NotNewer : (a : OriginHead) → NotNewer a a
unfolding NotNewer
same-NotNewer a = inr (refl, omega arith)

stays_covered : (k : OriginHead) (before : Option OriginHead) → before ≡ some k → Covered k before
unfolding Covered
stays_covered k before e = subst (Covered k) (sym e) (same-NotNewer k)

replaced :
    (k h : OriginHead) (before : Option OriginHead)
    → before ≡ some k
    → newer before h ≡ true
    → NotNewer k h
unfolding newer
replaced k h before e t = older-NotNewer k h (subst (λ b. newer b h ≡ true) e t)

refused : (h : OriginHead) (before : Option OriginHead) → newer before h ≡ false → Covered h before
unfolding newer Covered
refused h none t = cc
refused h (some k) t = not_older k h t

-- One head changes what is held when it is a valid head of the origin, and newer.
step-HoldsNewest :
    (origin : Octets) (before : Option OriginHead) (h : OriginHead)
    → HoldsNewest origin before (h ∷ []) (
        if eq_octets h.origin origin
          && ((not (is_empty h.origin) && is_valid_block h.block) && newer before h)
        then some h
        else before)
unfolding Covered
step-HoldsNewest origin before h =
    let test =
      eq_octets h.origin origin
      && ((not (is_empty h.origin) && is_valid_block h.block) && newer before h) in
    elim (Bool-cases test) [
      | inl on ↦
          let (numbered, hashed) = block_parts h.block (ground arith) in
          let v : IsHeadOf origin h = record {
            same = (eq_octets_iff h.origin origin).0 (ground arith);
            named = ground arith;
            numbered = numbered;
            hashed = hashed;
          } in
          rw on (record {
            from = inr (inl (v, refl));
            covers_before = λ k e. replaced k h before e (ground arith);
            covers_heads = ((λ _. same-NotNewer h), tt);
          })
      | inr off ↦ rw off (record {
        from = inl refl;
        covers_before = λ k e. stays_covered k before e;
        covers_heads = (
          λ v.
              let same : eq_octets h.origin origin ≡ true =
                (eq_octets_iff h.origin origin).1 v.same in
              let named : is_empty h.origin ≡ false = v.named in
              let whole : is_valid_block h.block ≡ true = block_whole h.block v.numbered v.hashed in
              refused h before (ground arith),
          tt,
        );
      })
    ]

Covered-trans :
    (h k : OriginHead) (held : Option OriginHead) → NotNewer h k → Covered k held → Covered h held
unfolding Covered NotNewer
Covered-trans h k none a b = b
Covered-trans h k (some held) a b = ground arith

Covered-both :
    (h : OriginHead) (held after : Option OriginHead)
    → Covered h held
    → ((k : OriginHead) → held ≡ some k → Covered k after)
    → Covered h after
unfolding Covered
Covered-both h none after a b = absurd a
Covered-both h (some k) after a b = Covered-trans h k after a (b k refl)

-- After any heads are advanced, in any order, what the table holds for an origin is what it held before or one of the
-- heads that is valid and of the origin, and by term, then by sequence, neither what it held before nor any valid head
-- of the origin among them is newer.
pub advances-HoldsNewest :
    (heads : List (Octets × OriginHead)) (hs : List OriginHead) (origin : Octets)
    → HoldsNewest origin (find origin heads) hs (find origin (advances heads hs))
unfolding advances
advances-HoldsNewest heads [] origin = record {
  from = inl refl;
  covers_before = λ k e. stays_covered k (find origin heads) e;
  covers_heads = tt;
}
advances-HoldsNewest heads (h ∷ hs) origin =
    let after = kept heads (advance heads h) in
    let one : HoldsNewest origin (find origin heads) (h ∷ []) (find origin after) =
      subst (HoldsNewest origin (find origin heads) (h ∷ [])) (sym (advance_step heads h origin))
        (step-HoldsNewest origin (find origin heads) h) in
    let rest = advances-HoldsNewest after hs origin in
    let held = find origin (advances after hs) in
    record {
      from = elim rest.from [
        | inl same ↦ elim one.from [
          | inl kept_it ↦ inl (same ∙ kept_it)
          | inr this ↦ inr (inl (elim this [ inl q ↦ (q.0, same ∙ q.1) | inr q ↦ absurd q ]))
        ]
        | inr later ↦ inr (inr later)
      ];
      covers_before =
          λ k e. Covered-both k (find origin after) held (one.covers_before k e) rest.covers_before;
      covers_heads = (
        λ v. Covered-both h (find origin after) held (one.covers_heads.0 v) rest.covers_before,
        rest.covers_heads,
      );
    }
