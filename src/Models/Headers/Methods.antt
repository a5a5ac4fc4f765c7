-- ===== src/Models/Headers/Methods.antt =====
-- What assignments, deletions, `pop` and `update` do on ASCII headers, as a lookup sees it.
use httpxp.Prelude.{
  ==_iff, All, Bool-cases, Bytes, List, Option, Text, [], arith, codes, false, if◌then◌else◌, inl,
  inr, is_nil, join, lower, none, not, refl, some, true, ◌==◌, ◌∙◌, ◌∷◌, ◌≡◌, nat_eq, list_eq,
}
use httpxp.Exceptions.Result.{ok}
use httpxp.Codec.Ascii.{IsAscii}
use httpxp.Models.Headers.Entries.{Entry, set_entry, del_entries, values_for, has_entry}
use httpxp.Models.Headers.Entries.Assigned.{del_entries-All, set_entry-All}
use httpxp.Models.Headers.Entries.Values.{
  IsEntry, has_entry-eq-values_for, values_for-set_entry, values_for-del_entries,
}
use httpxp.Models.Headers.Exec.{◌>>◌, Headers, lift, pure, caught, ◌>>=◌}
use httpxp.Models.Headers.{
  del_item, encoding_of, pop_found, cache, answer, get_item, set_item, get, pop, remove_key,
}
use httpxp.Models.Headers.Ascii.{
  del_item_lem, AsciiEntries, IsAsciiEntry, contains_lem, get_item_lem, set_item_lem,
}

-- On ASCII headers, for ASCII keys and an ASCII value: after `h[key] = value`, a lookup of the same
-- key in any case returns the value, and a lookup of another key returns, or raises, what it did
-- before.
pub get_item-set_item :
    (h : Headers) (key value j : Text)
    → AsciiEntries h.entries
    → IsAscii key
    → IsAscii value
    → IsAscii j
    → (get_item j (set_item key value h).1).0
      ≡ (if lower key == lower j then ok value else (get_item j h).0)
get_item-set_item h key value j a k v i =
    rw
      (
        set_item_lem h key value k v,
        get_item_lem
            (record h {
              entries = set_entry (record { raw = key; key = lower key; value = value }) h.entries;
            })
            j (set_entry-All IsAsciiEntry _ h.entries (refl, k, v) a) i,
        get_item_lem h j a i,
        values_for-set_entry,
      )
      (unfold answer join in ground arith)

none_found : (vs : List Bytes) → not (is_nil vs) ≡ false → vs ≡ []
none_found [] h = refl
none_found (v ∷ vs) h = cc

-- the entries without a key
pub removed : Bytes → List Entry → List Entry
removed k l = if has_entry k l then del_entries k l else l

pub values_for-removed :
    (k j : Bytes) (l : List Entry)
    → All IsEntry l
    → values_for j (removed k l) ≡ (if k == j then [] else values_for j l)
unfolding removed
values_for-removed k j l h = ground (
  arith,
  values_for-del_entries k j l h,
  has_entry-eq-values_for k l,
  none_found (values_for k l),
  ==_iff k j,
)

pub removed-AsciiEntries :
    (k : Bytes) (l : List Entry) → AsciiEntries l → AsciiEntries (removed k l)
unfolding removed
removed-AsciiEntries k l h = elim (Bool-cases (has_entry k l)) [
  | inl e ↦ rw e (del_entries-All IsAsciiEntry k l h)
  | inr e ↦ rw e h
]

-- what `pop` returns for the values of its key
pub popped : List Bytes → Option Text
popped [] = none
popped (v ∷ vs) = some (join (codes ", ") (v ∷ vs))

get-answer :
    (vs : List Bytes) (h : Headers)
    → caught ((lift (answer vs) >>= λ v. pure (some v)) h) (pure none) ≡ (ok (popped vs), h)
unfolding answer popped
get-answer [] h = refl
get-answer (v ∷ vs) h = refl

module _ (h : Headers) (key : Text) (a : AsciiEntries h.entries) (k : IsAscii key) where
  get_none_lem : get key none h ≡ (ok (popped (values_for (lower key) h.entries)), cache h)
  unfolding get
  get_none_lem =
      rw (get_item_lem h key a k) (get-answer (values_for (lower key) h.entries) (cache h))

  has-of_values :
      (vs : List Bytes)
      → vs ≡ values_for (lower key) h.entries
      → has_entry (lower key) h.entries ≡ not (is_nil vs)
  has-of_values vs e = rw (e, has_entry-eq-values_for (lower key) h.entries)

  delete-found :
      has_entry (lower key) h.entries ≡ true
      → del_item key (cache h)
        ≡ (ok tt, record (cache h) { entries = removed (lower key) h.entries })
  unfolding cache encoding_of removed
  delete-found e = del_item_lem (cache h) key a k e ∙ (rw e)

  pop_found_lem :
      (vs : List Bytes)
      → vs ≡ values_for (lower key) h.entries
      → pop_found key (popped vs) (cache h)
        ≡ (ok (popped vs), record (cache h) { entries = removed (lower key) h.entries })
  unfolding pop_found popped
  pop_found_lem [] e = unfold removed cache in rw (has-of_values [] e)
  pop_found_lem (v ∷ vs) e = rw (delete-found (has-of_values (v ∷ vs) e))

  -- On ASCII headers and for an ASCII key, `pop` with the default `None` removes every entry of the
  -- key and returns its values joined by commas, or the default if there is none.
  pub pop_lem : pop key h ≡ (
    ok (popped (values_for (lower key) h.entries)),
    record (cache h) { entries = removed (lower key) h.entries },
  )
  unfolding pop
  pop_lem = rw get_none_lem (pop_found_lem (values_for (lower key) h.entries) refl)

  get-found :
      (v : Bytes) (vs : List Bytes)
      → ◌≡◌ {A = List Bytes} (v ∷ vs) (values_for (lower key) h.entries)
      → get_item key (cache h) ≡ (ok (join (codes ", ") (v ∷ vs)), cache h)
  unfolding cache encoding_of
  get-found v vs e = get_item_lem (cache h) key a k ∙ (rw (← e) (unfold answer in refl))

  remove_found_lem :
      (vs : List Bytes)
      → vs ≡ values_for (lower key) h.entries
      → (if not (is_nil vs) then get_item key >> del_item key else pure tt) (cache h)
        ≡ (ok tt, record (cache h) { entries = removed (lower key) h.entries })
  remove_found_lem [] e = unfold removed cache in rw (has-of_values [] e)
  remove_found_lem (v ∷ vs) e = rw (get-found v vs e, delete-found (has-of_values (v ∷ vs) e))

  -- A key that is there is removed.
  pub remove_key_lem :
      remove_key key h ≡ (ok tt, record (cache h) { entries = removed (lower key) h.entries })
  unfolding remove_key
  remove_key_lem =
      rw (contains_lem h key a k, has-of_values _ refl)
        (remove_found_lem (values_for (lower key) h.entries) refl)
