-- ===== src/Models/Headers/Raw.antt =====
-- Headers are made again from the pairs that `raw` shows.
use httpxp.Prelude.{All, Bytes, List, [], lower, lower_char, map, none, refl, ◌∷◌, ◌≡◌, list_eq}
use httpxp.Exceptions.Result.{ok}
use httpxp.Models.Headers.Entries.{Entry}
use httpxp.Models.Headers.Entries.Values.{IsEntry}
use httpxp.Models.Headers.Exec.{Headers}
use httpxp.Models.Headers.Views.{raw}
use httpxp.Models.Headers.{init, entries_of, raw_bytes, fields, Field, normalize}

-- the entry of a pair
unfoldable pub to_entry : Bytes × Bytes → Entry
unfolding lower lower_char
to_entry x = record { raw = x.0; key = lower x.0; value = x.1 }

abbrev to_field : Bytes × Bytes → Field × Field
to_field x = (raw_bytes x.0, raw_bytes x.1)

entries_of-raws :
    (l : List (Bytes × Bytes)) → entries_of none (map to_field l) ≡ ok (map to_entry l)
unfolding entries_of normalize to_entry
entries_of-raws [] = refl
entries_of-raws (x ∷ l) = rw (entries_of-raws l) refl

pub init-pairs_of :
    (l : List (Bytes × Bytes))
    → init (fields (map (λ x. (raw_bytes x.0, raw_bytes x.1)) l)) none
      ≡ ok (record { entries = map to_entry l; encoding = none })
unfolding init
init-pairs_of l = rw (entries_of-raws l) refl

raw_entries : (l : List Entry) → All IsEntry l → map to_entry (map (λ e. (e.raw, e.value)) l) ≡ l
unfolding to_entry
raw_entries [] h = refl
raw_entries (e ∷ l) (h, hs) = rw (raw_entries l hs, ← h) refl

pub raw-to_entry : (h : Headers) → All IsEntry h.entries → map to_entry (raw h) ≡ h.entries
unfolding raw
raw-to_entry h a = raw_entries h.entries a
