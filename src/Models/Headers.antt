-- ===== src/Models/Headers.antt =====
-- `Headers` of httpxp/_models.py, a multi-dictionary whose keys are compared without their case.
-- A method is an action on the object: it may raise, and reading the encoding stores it.
pub mod Entries
pub mod Exec
pub mod Ascii
pub mod Methods
pub mod Default
pub mod Update
pub mod Views
pub mod Raw
mod Tests
use httpxp.Prelude.{
  Bool, Bytes, List, Option, Text, [], all, codes, false, if◌then◌else◌, is_nil, join, keep, lower,
  map, none, not, some, true, ◌&&◌, ◌++◌, ◌==◌, ◌∷◌, nat_eq, list_eq,
}
use httpxp.Exceptions.{key_error}
use httpxp.Exceptions.Result
use httpxp.Exceptions.Result.{Result, ok, err}
use httpxp.Codec.{Encoding, ascii, utf8, latin1, encode, decode}
use httpxp.Models.Headers.Entries.{
  values_for_lower, Entry, set_entry, del_entries, values_for, has_entry, has_lower_entry,
}
use httpxp.Models.Headers.Exec.{Headers, M, pure, lift, modify, ◌>>=◌, ◌>>◌, caught, gets}

-- a key or value that is given to the constructor
pub data Field : Type 0 where
  text : Text → Field
  raw_bytes : Bytes → Field

-- `HeaderTypes`; a mapping stands with its items
pub data HeaderTypes : Type 0 where
  absent : HeaderTypes
  headers : Headers → HeaderTypes
  fields : List (Field × Field) → HeaderTypes

get_or_ascii : Option Encoding → Encoding
get_or_ascii none = ascii
get_or_ascii (some e) = e

-- `_normalize_header_key` and `_normalize_header_value`
normalize : Option Encoding → Field → Result Bytes
normalize encoding (raw_bytes b) = ok b
normalize encoding (text t) = encode (get_or_ascii encoding) t

entries_of : Option Encoding → List (Field × Field) → Result (List Entry)
entries_of encoding [] = ok []
entries_of encoding ((k, v) ∷ l) = Result.◌>>=◌ (normalize encoding k) λ bytes_key.
    Result.◌>>=◌ (normalize encoding v) λ bytes_value.
      Result.◌>>=◌ (entries_of encoding l)
        λ rest. ok (record { raw = bytes_key; key = lower bytes_key; value = bytes_value } ∷ rest)

pub init : HeaderTypes → Option Encoding → Result Headers
init absent encoding = ok (record { entries = []; encoding = encoding })
init (headers h) encoding = ok (record { entries = h.entries; encoding = encoding })
init (fields l) encoding =
    Result.◌>>=◌ (entries_of encoding l)
      λ entries. ok (record { entries = entries; encoding = encoding })

is_ok {ℓ} : {A : Type ℓ} → Result A → Bool
is_ok (ok _) = true
is_ok (err _) = false

decodes : Encoding → Entry → Bool
decodes e x = is_ok (decode e x.raw) && is_ok (decode e x.value)

-- the first of ASCII and UTF-8 that fits all keys and values, or else ISO-8859-1
choose : List Entry → Encoding
choose l = if all (decodes ascii) l then ascii else if all (decodes utf8) l then utf8 else latin1

pub encoding_of : Headers → Encoding
encoding_of h = elim h.encoding [ none ↦ choose h.entries | some e ↦ e ]

unfoldable pub cache : Headers → Headers
cache h = record h { encoding = some (encoding_of h) }

-- the property `encoding`, which stores what it chooses
encoding : M Encoding
encoding h = (ok (encoding_of h), cache h)

-- `text.encode(headers.encoding)`
pub encode_with : Text → M Bytes
encode_with content = do e ← encoding; lift (encode e content)

-- the encoding as a loop over the headers reads it: not at all if there are none
pub loop_encoding : M Encoding
loop_encoding h = if is_nil h.entries then (ok (encoding_of h), h) else encoding h

pub decode_all : Encoding → List Bytes → Result (List Text)
decode_all e [] = ok []
decode_all e (b ∷ l) =
    Result.◌>>=◌ (decode e b) λ t. Result.◌>>=◌ (decode_all e l) λ ts. ok (t ∷ ts)

-- `if items: return ", ".join(items)`, and `raise KeyError(key)`
pub answer : List Text → Result Text
answer [] = err key_error
answer (v ∷ vs) = ok (join (codes ", ") (v ∷ vs))

-- `__getitem__`
pub get_item : Text → M Text
get_item key = do
  e ← encoding
  normalized_key ← lift (encode e (lower key))
  stored ← gets (values_for normalized_key)
  items ← lift (decode_all e stored)
  lift (answer items)

-- `get`
pub get : Text → Option Text → M (Option Text)
get key default h = caught ((do v ← get_item key; pure (some v)) h) (pure default)

-- `get_list` without `split_commas`
pub get_list : Text → M (List Text)
get_list key = do
  e ← encoding
  get_header_key ← lift (encode e (lower key))
  stored ← gets (values_for_lower get_header_key)
  lift (decode_all e stored)

-- `__contains__`
pub contains : Text → M Bool
contains key = do
  e ← encoding
  header_key ← lift (encode e (lower key))
  gets (has_entry header_key)

-- `self._encoding or "utf-8"`
write_encoding : Option Encoding → Encoding
write_encoding none = utf8
write_encoding (some e) = e

-- `__setitem__`
pub set_item : Text → Text → M (Unit {0})
set_item key value h =
    (do
      set_key ← lift (encode (write_encoding h.encoding) key)
      set_value ← lift (encode (write_encoding h.encoding) value)
      modify (set_entry (record { raw = set_key; key = lower set_key; value = set_value })))
      h

-- `__delitem__`
pub del_item : Text → M (Unit {0})
del_item key = do
  e ← encoding
  del_key ← lift (encode e (lower key))
  found ← gets (has_lower_entry del_key)
  if found then modify (del_entries del_key) else lift (err key_error)

pop_found : Text → Option Text → M (Option Text)
pop_found key none = pure none
pop_found key (some v) = do del_item key; pure (some v)

-- `MutableMapping.pop(key, None)`
pub pop : Text → M (Option Text)
pop key = do v ← get key none; pop_found key v

-- `MutableMapping.setdefault(key, default)`
pub setdefault : Text → Text → M Text
setdefault key default h = caught (get_item key h) (do set_item key default; pure default)

-- a `dict` with these keys, in order
distinct : List Text → List Text
distinct [] = []
distinct (k ∷ l) = k ∷ keep (λ j. not (j == k)) (distinct l)

pub keys : M (List Text)
keys = do
  e ← loop_encoding
  stored ← gets (map (λ x. x.key))
  decoded ← lift (decode_all e stored)
  pure (distinct decoded)

-- `if key in self: self.pop(key)`
pub remove_key : Text → M (Unit {0})
remove_key key = do found ← contains key; if found then (do get_item key; del_item key) else pure tt

remove_keys : List Text → M (Unit {0})
remove_keys [] = pure tt
remove_keys (key ∷ keys) = do remove_key key; remove_keys keys

pub update : HeaderTypes → M (Unit {0})
update argument = do
  other ← lift (init argument none)
  names ← lift (keys other).0
  remove_keys names
  modify (λ l. l ++ other.entries)
