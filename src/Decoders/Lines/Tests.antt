-- ===== src/Decoders/Lines/Tests.antt =====
-- Runs of the line decoder, and the theorem at an input.
use httpxp.Prelude.{List, Text, [], codes, concat, refl, ◌∷◌, ◌≡◌}
use httpxp.Decoders.Lines.{lines_from, is_newline, newline_chars, init, run, splitlines}
use httpxp.Decoders.Lines.Stream.{run-splitlines}

abbrev parts : List Text
parts = codes "a\r" ∷ codes "\nb" ∷ codes "c\n\nd\r" ∷ []

splitlines_test : splitlines (concat parts) ≡ codes "a" ∷ codes "bc" ∷ codes "" ∷ codes "d" ∷ []
unfolding splitlines lines_from is_newline newline_chars
splitlines_test = refl

run-splitlines_example : run init parts ≡ splitlines (concat parts)
run-splitlines_example = run-splitlines parts
