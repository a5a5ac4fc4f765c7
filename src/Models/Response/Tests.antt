-- ===== src/Models/Response/Tests.antt =====
-- The theorems on reading a body at an input: a stream of three parts, one of them empty, that is
-- not encoded.
use httpxp.Decoders.Chunker.{chunks}
use httpxp.Decoders.Content.Identity.{decode-identity, flush-identity}
use httpxp.Decoders.Content.{Codecs, identity, single}
use httpxp.Exceptions.Result.{ok}
use httpxp.Models.Headers.Exec.{Headers}
use httpxp.Models.Response.{Response, collect, get_content_decoder, iter_bytes, read}
use httpxp.Models.Response.Whole.{Decodes}
use httpxp.Models.Response.Finished.{IsReadable, finished}
use httpxp.Models.Response.Chunks.{iter_bytes-eq-chunks, read_lem}
use httpxp.Models.Response.Kept.{IsSingleUse}
use httpxp.Models.Response.SingleUse.{
  Use, bytes, closing, raw, used_all, used_all-IsSingleUse, whole,
}
use httpxp.Prelude.{Bytes, List, [], codes, false, none, refl, some, true, ◌∷◌, ◌≡◌}

abbrev codecs : Codecs (Unit {0})
codecs = record {
  zlib_object = tt;
  raw_object = tt;
  gzip_object = tt;
  zlib_decompress = λ content d. (none, d);
  zlib_flush = λ d. (none, d);
  brotli_object = tt;
  brotli_decompress = λ content d. (none, d);
  brotli_finish = λ d. true;
  zstd_object = tt;
  zstd_decompress = λ content d. (none, d);
  zstd_eof = λ d. true;
  zstd_unused_data = λ d. [];
  zstd_flush = λ d. ([], d);
  has_brotli = false;
  has_zstandard = false;
}

abbrev headers : Headers
headers = record { entries = []; encoding = none }

abbrev response : Response (Unit {0})
response = record {
  headers = headers;
  stream = record {
    parts = codes "abc" ∷ [] ∷ codes "de" ∷ [];
    ending = ok tt;
    closing = ok tt;
    is_sync = true;
    iterations = 0;
    closings = 0;
  };
  is_closed = false;
  is_stream_consumed = false;
  num_bytes_downloaded = 0;
  content = none;
  decoder = some (single identity);
}

response-IsReadable : IsReadable codecs response
response-IsReadable = record {
  unread_yet = refl;
  unconsumed = refl;
  unclosed = refl;
  sync = refl;
  ends = refl;
  closes = refl;
}

abbrev outs : List Bytes
outs = codes "abc" ∷ codes "de" ∷ [] ∷ []

response-decoder : get_content_decoder codecs response ≡ (ok (single identity), response)
unfolding get_content_decoder
response-decoder = refl

outs-Decodes : Decodes codecs (single identity) response.stream.parts outs (single identity)
outs-Decodes = (
  codes "abc",
  single identity,
  codes "de" ∷ [] ∷ [],
  decode-identity codecs (codes "abc"),
  refl,
  (
    codes "de",
    single identity,
    [] ∷ [],
    decode-identity codecs (codes "de"),
    refl,
    ([], flush-identity codecs, refl),
  ),
)

read_lem_example : read codecs response ≡ (
  ok (codes "abcde"),
  record (finished codecs headers (single identity) response) { content = some (codes "abcde") },
)
read_lem_example =
    read_lem codecs response headers (single identity) (single identity) outs response-IsReadable
      response-decoder outs-Decodes

iter_bytes-eq-chunks_example :
    (iter_bytes codecs (collect codecs) (some 2) (response, [])
      ≡ (ok tt, (finished codecs headers (single identity) response, chunks 2 (codes "abcde"))))
    × (iter_bytes codecs (collect codecs) (some 2) ((read codecs response).1, [])
        ≡ (ok tt, ((read codecs response).1, chunks 2 (codes "abcde"))))
iter_bytes-eq-chunks_example =
    iter_bytes-eq-chunks codecs response headers (single identity) (single identity) outs 1
      response-IsReadable response-decoder outs-Decodes

abbrev uses : List (Use (List Bytes))
uses = bytes (some 2) (collect codecs) [] ∷ raw none (collect codecs) [] ∷ whole ∷ closing ∷ []

used_all-IsSingleUse_example : IsSingleUse (used_all codecs uses response)
used_all-IsSingleUse_example =
    used_all-IsSingleUse codecs uses response (record { iterated = refl; closed = refl })
