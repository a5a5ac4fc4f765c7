-- ===== src/Models/Headers/Tests.antt =====
-- The theorems on headers at an input.
use httpxp.Prelude.{
  Bytes, Text, [], arith, codes, if◌then◌else◌, lower, none, refl, ◌==◌, ◌∷◌, ◌≡◌, nat_eq, list_eq,
}
use httpxp.Exceptions.Result.{ok}
use httpxp.Codec.{encode}
use httpxp.Models.Headers.Exec.{Headers}
use httpxp.Models.Headers.{
  get_or_ascii, HeaderTypes, fields, text, normalize, entries_of, init, get_item, set_item, update,
}
use httpxp.Models.Headers.Ascii.{AsciiEntries}
use httpxp.Models.Headers.Entries.{has_entry, set_entry, Entry, values_for}
use httpxp.Models.Headers.Entries.Assigned.{assigned, set_entry-eq-assigned}
use httpxp.Models.Headers.Methods.{get_item-set_item}
use httpxp.Models.Headers.Update.{update_lem}

abbrev field : Text → Text → Text → Entry
field raw key value = record { raw = raw; key = key; value = value }

abbrev accept_json : Entry
accept_json = field (codes "Accept") (codes "accept") (codes "json")

abbrev sample : Headers
sample = record {
  entries = accept_json ∷ field (codes "X") (codes "x") (codes "1") ∷ [];
  encoding = none;
}

sample-AsciiEntries : AsciiEntries sample.entries
unfolding lower
sample-AsciiEntries = ((refl, omega arith, omega arith), ((refl, omega arith, omega arith), tt))

get_item-set_item_example :
    (get_item (codes "ACCEPT") (set_item (codes "accept") (codes "text") sample).1).0 ≡ (
      if lower (codes "accept") == lower (codes "ACCEPT")
      then ok (codes "text")
      else (get_item (codes "ACCEPT") sample).0)
get_item-set_item_example =
    get_item-set_item sample (codes "accept") (codes "text") (codes "ACCEPT") sample-AsciiEntries
      (omega arith) (omega arith) (omega arith)

set_entry-eq-assigned_example :
    set_entry accept_json sample.entries ≡ assigned accept_json sample.entries
set_entry-eq-assigned_example = set_entry-eq-assigned accept_json sample.entries

abbrev argument : HeaderTypes
argument = fields ((text (codes "ACCEPT"), text (codes "xml")) ∷ [])

abbrev other : Headers
other = record {
  entries = field (codes "ACCEPT") (codes "accept") (codes "xml") ∷ [];
  encoding = none;
}

other-AsciiEntries : AsciiEntries other.entries
unfolding lower
other-AsciiEntries = ((refl, omega arith, omega arith), tt)

init-argument : init argument none ≡ ok other
unfolding init entries_of normalize encode get_or_ascii lower
init-argument = refl

update_lem_example :
    ((update argument sample).0 ≡ ok tt)
    × ((j : Bytes)
        → values_for j (update argument sample).1.entries ≡ (
            if has_entry j other.entries
            then values_for j other.entries
            else values_for j sample.entries))
update_lem_example =
    update_lem sample other argument init-argument sample-AsciiEntries other-AsciiEntries
