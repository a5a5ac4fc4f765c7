-- ===== src/UrlParse/Quote/Tests.antt =====
-- Runs of percent-encoding, and the theorems at an input.
use httpxp.Prelude.{Text, arith, codes, refl, ◌≡◌}
use httpxp.UrlParse.Quote.Quoted.{Quoted, quote-Quoted, quote-quote}
use httpxp.UrlParse.Quote.Loop.{quote_each, quote-eq-quote_each}
use httpxp.UrlParse.Chars.{path_safe}
use httpxp.UrlParse.Quote.{quote}

quote_test : quote (codes "/a b%20%zé") path_safe ≡ codes "/a%20b%20%z%C3%A9"
unfolding quote path_safe
quote_test = refl

abbrev sample : Text
sample = codes "/a b%20%zé"

quote-Quoted_example : Quoted path_safe (quote sample path_safe)
quote-Quoted_example = quote-Quoted sample path_safe (omega arith)

quote-quote_example : quote (quote sample path_safe) path_safe ≡ quote sample path_safe
quote-quote_example = quote-quote sample path_safe (omega arith)

quote-eq-quote_each_example : quote sample path_safe ≡ quote_each path_safe sample
quote-eq-quote_each_example = quote-eq-quote_each sample path_safe
