-- ===== src/Decoders/Chunker/Tests.antt =====
-- Runs of the chunker, and the theorems at an input.
use httpxp.Prelude.{List, Text, [], codes, concat, refl, some, ◌∷◌, ◌≡◌}
use httpxp.Exceptions.Result.{ok}
use httpxp.Decoders.Chunker.{
  but_last, last_of, chunk_from, unsized, flush, emit, decode_sized, decode_at, decode, init, run,
  chunks,
}
use httpxp.Decoders.Chunker.Stream.{run-eq-chunks}

abbrev parts : List Text
parts = codes "ab" ∷ codes "cdef" ∷ codes "g" ∷ []

run_test : run (init (some 3)) parts ≡ ok (codes "abc" ∷ codes "def" ∷ codes "g" ∷ [])
unfolding run init decode decode_at decode_sized emit flush unsized chunks chunk_from last_of
    but_last
run_test = refl

run-eq-chunks_example : run (init (some 3)) parts ≡ ok (chunks 3 (concat parts))
run-eq-chunks_example = run-eq-chunks 2 parts
