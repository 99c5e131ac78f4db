-- ===== src/HaveBitmap/Tests.antt =====
-- Runs of the operations of spsync/core/data/have_bitmap.cpp at a data of ten chunks.
use spsync.Prelude.{◌≡◌, refl, true, false, List, [], ◌∷◌, arith}
use spsync.HaveBitmap.{nothing_held, of_octets, set, set_all, first_missing}
use spsync.HaveBitmap.Chunks.{
  Change, mark, everything, run, run_set, Represents, run-Represents, Reads, of_octets-Reads,
}

abbrev some_changes : List Change
some_changes = everything ∷ mark 9 false ∷ mark 3 false ∷ mark 3 true ∷ mark 12 false ∷ []

run-Represents_example :
    Represents (run some_changes (nothing_held 10)) 10 (run_set some_changes (λ _. false))
run-Represents_example = run-Represents some_changes 10 (omega arith)

bits_after : (run some_changes (nothing_held 10)).bits ≡ (255 ∷ 1 ∷ [])
unfolding run nothing_held set set_all
bits_after = refl

stray_bits : of_octets 10 (255 ∷ 255 ∷ 7 ∷ []) ≡ record { bits = 255 ∷ 3 ∷ []; chunk_count = 10 }
unfolding of_octets
stray_bits = refl

first_after : first_missing (run some_changes (nothing_held 10)) 2 ≡ 9
unfolding first_missing run nothing_held set set_all
first_after = refl

of_octets-Reads_example : Reads 10 (255 ∷ 255 ∷ 7 ∷ []) (of_octets 10 (255 ∷ 255 ∷ 7 ∷ []))
of_octets-Reads_example = of_octets-Reads 10 (255 ∷ 255 ∷ 7 ∷ []) (omega arith) (omega arith)
