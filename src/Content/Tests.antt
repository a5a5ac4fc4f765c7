-- ===== src/Content/Tests.antt =====
-- The theorem on the headers of a body at an input: an iterable whose length is known.
use httpxp.Prelude.{All, [], codes, none, some, subst, sym, ◌∙◌, ◌∷◌, ◌≡◌}
use httpxp.Exceptions.Result.{ok-inj}
use httpxp.Content.{Content, ContentPlatform, Source, encode_request, iterable}
use httpxp.Content.Framing.{AreMeasured, IsFramedResult, IsMeasured, encode_request-IsFramed}
use httpxp.Multipart.Length.{IsMeasuredField, file_fields-nil}

abbrev platform : ContentPlatform
platform = record {
  urlencode = λ _. [];
  bytes_repr = λ b. b;
  multipart = record { path_name = λ s. s; guess_type = λ _. none; random_boundary = codes "0123" };
}

abbrev source : Source
source = record { parts = codes "ab" ∷ codes "c" ∷ []; known_length = some 3 }

source-IsMeasured : IsMeasured (iterable source)
source-IsMeasured n e = sym (cc e)

some-IsMeasured : (c : Content) → some (iterable source) ≡ some c → IsMeasured c
some-IsMeasured c e = let q : iterable source ≡ c = cc e in subst IsMeasured q source-IsMeasured

no_files-AreMeasured : AreMeasured platform []
no_files-AreMeasured rest e =
    subst (All IsMeasuredField) (ok-inj (sym (file_fields-nil platform.multipart) ∙ e)) tt

encode_request-IsFramed_example :
    IsFramedResult (encode_request platform (some (iterable source)) none [] none none)
encode_request-IsFramed_example =
    encode_request-IsFramed platform (some (iterable source)) none [] none none some-IsMeasured tt
      no_files-AreMeasured
