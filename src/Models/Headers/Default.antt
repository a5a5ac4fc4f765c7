-- ===== src/Models/Headers/Default.antt =====
-- What `setdefault` does on ASCII headers.
use httpxp.Prelude.{
  Bytes, List, Text, [], arith, codes, if◌then◌else◌, join, lower, not, refl, ◌&&◌, ◌==◌, ◌∷◌, ◌≡◌,
  nat_eq, list_eq,
}
use httpxp.Codec.Ascii.{IsAscii}
use httpxp.Exceptions.Result.{ok}
use httpxp.Models.Headers.Entries.{Entry, set_entry, values_for, has_entry}
use httpxp.Models.Headers.Entries.Assigned.{set_entry-All}
use httpxp.Models.Headers.Entries.Values.{has_entry-eq-values_for, values_for-set_entry}
use httpxp.Models.Headers.Exec.{Headers}
use httpxp.Models.Headers.{cache, answer, setdefault}
use httpxp.Models.Headers.Ascii.{AsciiEntries, IsAsciiEntry, get_item_lem, set_item_lem}

-- The header stands with its value if there was none with its name.
pub record Defaulted (key value : Text) (l l' : List Entry) : Type 0 where
  pub ascii : AsciiEntries l'
  pub values :
      (j : Bytes)
      → values_for j l'
        ≡ (if not (has_entry (lower key) l) && lower key == j then value ∷ [] else values_for j l)

module _ (h : Headers) (key value : Text) (a : AsciiEntries h.entries) (k : IsAscii key)
    (v : IsAscii value) where
  -- what the method ends with
  abbrev pub Ends : Type 0
  Ends =
      (t : Text) × (h' : Headers) × (setdefault key value h ≡ (ok t, h'))
      × Defaulted key value h.entries h'.entries

  setdefault-values : (vs : List Bytes) → vs ≡ values_for (lower key) h.entries → Ends
  unfolding setdefault answer
  setdefault-values [] e =
      let e' : Entry = record { raw = key; key = lower key; value = value } in
      (
        value,
        record (cache h) { entries = set_entry e' h.entries },
        rw (get_item_lem h key a k, ← e, set_item_lem (cache h) key value k v)
            (unfold cache in refl),
        record {
          ascii = set_entry-All IsAsciiEntry e' h.entries (refl, k, v) a;
          values = λ j. ground (
            arith,
            values_for-set_entry e' j h.entries,
            has_entry-eq-values_for (lower key) h.entries,
          );
        },
      )
  setdefault-values (w ∷ vs) e = (
    join (codes ", ") (w ∷ vs),
    cache h,
    rw (get_item_lem h key a k, ← e) refl,
    record {
      ascii = unfold cache in a;
      values = λ j. unfold cache in ground (arith, has_entry-eq-values_for (lower key) h.entries);
    },
  )

  -- On ASCII headers `setdefault` succeeds, and adds the header if none has its name.
  pub setdefault_lem : Ends
  setdefault_lem = setdefault-values (values_for (lower key) h.entries) refl
