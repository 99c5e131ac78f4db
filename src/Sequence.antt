-- ===== src/Sequence.antt =====
-- spsync/util/sequence_number.hpp and sequence_number.cpp: 64 bit numbers, 0 is no sequence.
use spsync.Prelude.{ℕ, ◌==◌, Bool, not, add64, sub64}

unfoldable pub is_valid : ℕ → Bool
is_valid value = not (value == 0)

-- `operator+` and `operator-` with a number on the right; both wrap.
unfoldable pub seq_add : ℕ → ℕ → ℕ
seq_add seq v = add64 seq v

unfoldable pub seq_sub : ℕ → ℕ → ℕ
seq_sub seq v = sub64 seq v
