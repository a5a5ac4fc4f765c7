-- ===== src/Models/Headers/Ascii.antt =====
-- On ASCII headers the methods are operations on the entries, whatever the encoding is.
use httpxp.Prelude.{
  All, Bytes, List, Text, [], arith, lower, lower_char, refl, true, ◌∷◌, ◌≡◌, list_eq,
}
use httpxp.Exceptions.Result.{ok}
use httpxp.Codec.{Encoding}
use httpxp.Codec.Ascii.{IsAscii, encode-ascii, decode-ascii}
use httpxp.Models.Headers.Entries.{Entry, values_for, has_entry}
use httpxp.Models.Headers.Entries.Values.{has_lower_entry-eq-has_entry, values_for-All, IsEntry}
use httpxp.Models.Headers.Exec.{Headers}
use httpxp.Models.Headers.{
  cache, answer, set_entry, del_entries, set_item, del_item, write_encoding, encoding_of, encoding,
  decode_all, get_item, contains,
}

-- The invariant: keys and values are ASCII, and each key stands in lower case beside its raw form.
abbrev pub IsAsciiEntry : Entry → Type 0
IsAsciiEntry e = IsEntry e × IsAscii e.raw × IsAscii e.value

abbrev pub AsciiEntries : List Entry → Type 0
AsciiEntries l = All IsAsciiEntry l

pub lower-IsAscii : (s : Text) → IsAscii s → IsAscii (lower s)
unfolding lower lower_char
lower-IsAscii [] h = tt
lower-IsAscii (c ∷ s) (h, hs) = (ground arith, lower-IsAscii s hs)

pub AsciiEntries-IsEntry : (l : List Entry) → AsciiEntries l → All IsEntry l
AsciiEntries-IsEntry [] h = tt
AsciiEntries-IsEntry (e ∷ l) (h, hs) = (h.0, AsciiEntries-IsEntry l hs)

AsciiEntries-values : (l : List Entry) → AsciiEntries l → All (λ e. IsAscii e.value) l
AsciiEntries-values [] h = tt
AsciiEntries-values (e ∷ l) (h, hs) = (h.2, AsciiEntries-values l hs)

pub values_for-IsAscii :
    (k : Bytes) (l : List Entry) → AsciiEntries l → All IsAscii (values_for k l)
values_for-IsAscii k l h = values_for-All IsAscii k l (AsciiEntries-values l h)

pub decode_all-ascii : (e : Encoding) (l : List Bytes) → All IsAscii l → decode_all e l ≡ ok l
unfolding decode_all
decode_all-ascii e [] h = refl
decode_all-ascii e (b ∷ l) (h, hs) = rw (decode-ascii e b h, decode_all-ascii e l hs)

module _ (h : Headers) (key : Text) (a : AsciiEntries h.entries) (k : IsAscii key) where
  -- `in` looks the key up in lower case.
  pub contains_lem : contains key h ≡ (ok (has_entry (lower key) h.entries), cache h)
  unfolding contains cache encoding
  contains_lem = rw (encode-ascii (encoding_of h) (lower key) (lower-IsAscii key k))

  pub get_item_lem : get_item key h ≡ (answer (values_for (lower key) h.entries), cache h)
  unfolding get_item cache encoding
  get_item_lem = rw (
    encode-ascii (encoding_of h) (lower key) (lower-IsAscii key k),
    decode_all-ascii (encoding_of h) _ (values_for-IsAscii (lower key) h.entries a),
  )

  pub del_item_lem :
      has_entry (lower key) h.entries ≡ true
      → del_item key h ≡ (ok tt, record (cache h) { entries = del_entries (lower key) h.entries })
  unfolding del_item cache encoding
  del_item_lem e = rw (
    encode-ascii (encoding_of h) (lower key) (lower-IsAscii key k),
    has_lower_entry-eq-has_entry (lower key) h.entries (AsciiEntries-IsEntry h.entries a),
    e,
  )

module _ (h : Headers) (key value : Text) (k : IsAscii key) (v : IsAscii value) where
  pub set_item_lem : set_item key value h ≡ (
    ok tt,
    record h {
      entries = set_entry (record { raw = key; key = lower key; value = value }) h.entries;
    },
  )
  unfolding set_item
  set_item_lem = rw (
    encode-ascii (write_encoding h.encoding) key k,
    encode-ascii (write_encoding h.encoding) value v,
  )
