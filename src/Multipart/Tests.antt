-- ===== src/Multipart/Tests.antt =====
-- Runs of a form, and the theorems at an input.
use httpxp.Codec.{decode, encode_utf8}
use httpxp.Exceptions.Result.{ok}
use httpxp.Multipart.{
  Field, MultipartStream, OpenFile, Platform, data_field, file_field, raw_bytes, primitive,
  open_file, one, init, get_content_length, iter_chunks, format_form_param,
  get_multipart_boundary_from_content_type, length_from, get_length, render_data_headers,
  render_file_headers, data_bytes, file_length, if_known, replaced, replace_all, filename_part,
  header_parts, file_fields, data_fields, given_boundary,
}
use httpxp.Multipart.Length.{get_content_length_lem}
use httpxp.Multipart.Params.{IsParam, format_form_param_lem}
use httpxp.Multipart.Boundary.{init-boundary}
use httpxp.Utils.{primitive_value_to_str, str}
use httpxp.Prelude.{
  Bytes, List, [], codes, concat, inl, length, none, refl, some, true, ℕ, ◌++◌, ◌∷◌, ◌≡◌,
}

abbrev report : OpenFile
report = record { content = codes "data"; position = 2; seekable = true; known_length = some 4 }

abbrev fields : List Field
fields =
    data_field (record { name = codes "a\"b"; value = primitive (str (codes "1")) })
    ∷ file_field (record {
      name = codes "f";
      filename = some (codes "r.txt");
      file = open_file report;
      headers = (codes "Content-Type", codes "text/plain") ∷ [];
    })
    ∷ []

abbrev form : MultipartStream
form = record { boundary = codes "xyz"; content_type = codes ""; fields = fields }

form_length : get_content_length form ≡ some 168
unfolding get_content_length length_from get_length render_data_headers render_file_headers
    data_bytes file_length if_known format_form_param replaced replace_all filename_part
    header_parts encode_utf8 primitive_value_to_str
form_length = refl

get_content_length_lem_example :
    ◌≡◌ {A = ℕ} 168 (length (concat (iter_chunks form.boundary form.fields)))
get_content_length_lem_example =
    get_content_length_lem form 168 (tt, ((refl, inl refl), tt)) form_length

format_form_param_lem_example :
    (body : Bytes) × (format_form_param (codes "name") (codes "a\"\r\nb")
      ≡ encode_utf8 (codes "name") ++ (codes "=\"" ++ (body ++ codes "\"")))
    × IsParam body
format_form_param_lem_example = format_form_param_lem (codes "name") (codes "a\"\r\nb")

abbrev platform : Platform
platform = record { path_name = λ s. s; guess_type = λ _. none; random_boundary = codes "0123" }

abbrev posted : MultipartStream
posted = record {
  boundary = codes "xyz";
  content_type = codes "multipart/form-data; boundary=xyz";
  fields = data_field (record { name = codes "a"; value = raw_bytes (codes "1") }) ∷ [];
}

init-posted :
    init platform ((codes "a", one (raw_bytes (codes "1"))) ∷ []) [] (some (codes "xyz"))
    ≡ ok posted
unfolding init given_boundary file_fields data_fields decode
init-posted = refl

init-boundary_example :
    (posted.boundary ≡ codes "xyz")
    × (get_multipart_boundary_from_content_type posted.content_type ≡ some (codes "xyz"))
init-boundary_example =
    init-boundary platform ((codes "a", one (raw_bytes (codes "1"))) ∷ []) [] (codes "xyz") posted
      refl init-posted
