-- ===== src/Models/Headers/Views.antt =====
-- What `Headers` of httpxp/_models.py shows of its list: `multi_items`, `items`, `values`, `raw`,
-- `copy` and `__len__`.
use httpxp.Prelude.{Bytes, List, Option, Text, [], codes, length, map, none, some, ℕ, ◌++◌, ◌∷◌}
use httpxp.Dict
use httpxp.Dict.{Dict}
use httpxp.Exceptions.Result
use httpxp.Exceptions.Result.{Result, ok}
use httpxp.Codec.{Encoding, decode}
use httpxp.Models.Headers.Entries.{Entry}
use httpxp.Models.Headers.Exec.{Headers, M, lift, pure, gets, ◌>>=◌}
use httpxp.Models.Headers.{encoding}

unfoldable pub raw : Headers → List (Bytes × Bytes)
raw h = map (λ e. (e.raw, e.value)) h.entries

len : Headers → ℕ
len h = length h.entries

-- the keys in lower case and the values, decoded
decode_items : Encoding → List Entry → Result (List (Text × Text))
decode_items e [] = ok []
decode_items e (x ∷ l) = Result.◌>>=◌ (decode e x.key) λ k.
    Result.◌>>=◌ (decode e x.value) λ v. Result.◌>>=◌ (decode_items e l) λ rest. ok ((k, v) ∷ rest)

multi_items : M (List (Text × Text))
multi_items = do e ← encoding; stored ← gets (λ l. l); lift (decode_items e stored)

-- a value more for a key of `values_dict`
joined : Option Text → Text → Text
joined none v = v
joined (some old) v = old ++ codes ", " ++ v

values_dict : Dict Text → List (Text × Text) → Dict Text
values_dict d [] = d
values_dict d ((k, v) ∷ l) = values_dict (Dict.put k (joined (Dict.lookup k d) v) d) l

items : M (Dict Text)
items = do l ← multi_items; pure (values_dict [] l)

values : M (List Text)
values = do d ← items; pure (map (λ p. p.1) d)

-- a copy has the encoding that the original then stores
copy : M Headers
copy = do
  e ← encoding
  stored ← gets (λ l. l)
  pure (record { entries = stored; encoding = some e })
