-- ===== src/Models/Headers/Update.antt =====
-- `update` replaces the values of the names that its argument has, and keeps the others.
use httpxp.Prelude.{
  ==_iff, All, Bool, Bool-cases, Bytes, List, Text, [], append-nil, arith, false, if◌then◌else◌,
  inl, inr, is_nil, keep, lower, map, mem, none, not, refl, sym, ◌&&◌, ◌++◌, ◌==◌, ◌∙◌, ◌∷◌, ◌≡◌,
  nat_eq, list_eq,
}
use httpxp.Exceptions.Result.{ok}
use httpxp.Codec.Ascii.{IsAscii}
use httpxp.Models.Headers.Entries.{Entry, values_for, has_entry}
use httpxp.Models.Headers.Entries.Values.{
  mem-keys, values_for-append, has_entry-eq-values_for, lower-lower,
}
use httpxp.Models.Headers.Exec.{Headers}
use httpxp.Models.Headers.{
  loop_encoding, encoding_of, HeaderTypes, init, encoding, cache, distinct, keys, remove_keys,
  update,
}
use httpxp.Models.Headers.Ascii.{
  decode_all-ascii, AsciiEntries, AsciiEntries-IsEntry, lower-IsAscii,
}
use httpxp.Models.Headers.Methods.{
  removed, remove_key_lem, values_for-removed, removed-AsciiEntries,
}

-- A name as `keys` returns it.
abbrev IsName : Text → Type 0
IsName k = IsAscii k × (lower k ≡ k)

mem-keep :
    (j k : Text) (l : List Text) → mem j (keep (λ x. not (x == k)) l) ≡ (not (j == k) && mem j l)
mem-keep j k [] = ground arith
mem-keep j k (x ∷ l) = ground (arith, mem-keep j k l, ==_iff x k, ==_iff j k, ==_iff j x)

mem-distinct : (j : Text) (l : List Text) → mem j (distinct l) ≡ mem j l
unfolding distinct
mem-distinct j [] = refl
mem-distinct j (k ∷ l) = ground (arith, mem-keep j k (distinct l), mem-distinct j l)

keep-IsName : (p : Text → Bool) (l : List Text) → All IsName l → All IsName (keep p l)
keep-IsName p [] h = tt
keep-IsName p (k ∷ l) (h, hs) = elim (Bool-cases (p k)) [
  | inl e ↦ rw e (h, keep-IsName p l hs)
  | inr e ↦ rw e (keep-IsName p l hs)
]

distinct-IsName : (l : List Text) → All IsName l → All IsName (distinct l)
unfolding distinct
distinct-IsName [] h = tt
distinct-IsName (k ∷ l) (h, hs) = (h, keep-IsName _ (distinct l) (distinct-IsName l hs))

keys-IsName : (l : List Entry) → AsciiEntries l → All IsName (map (λ e. e.key) l)
keys-IsName [] h = tt
keys-IsName (e ∷ l) ((q, r, _), hs) =
    ((rw q (lower-IsAscii e.raw r), rw q (lower-lower e.raw)), keys-IsName l hs)

IsName-IsAscii : (l : List Text) → All IsName l → All IsAscii l
IsName-IsAscii [] h = tt
IsName-IsAscii (k ∷ l) (h, hs) = (h.0, IsName-IsAscii l hs)

-- the object without the given names
record Without (ks : List Text) (h h' : Headers) : Type 0 where
  pub invariant : AsciiEntries h'.entries
  pub values :
      (j : Bytes) → values_for j h'.entries ≡ (if mem j ks then [] else values_for j h.entries)

remove_keys_lem :
    (ks : List Text) (h : Headers)
    → All IsName ks
    → AsciiEntries h.entries
    → (h' : Headers) × (remove_keys ks h ≡ (ok tt, h')) × Without ks h h'
unfolding remove_keys
remove_keys_lem [] h n a = (h, refl, record { invariant = a; values = λ j. refl })
remove_keys_lem (k ∷ ks) h (n, ns) a =
    let h₁ : Headers = record (cache h) { entries = removed (lower k) h.entries } in
    let (h', e, w) = remove_keys_lem ks h₁ ns (removed-AsciiEntries (lower k) h.entries a) in
    (
      h',
      rw (remove_key_lem h k a n.0) e,
      record {
        invariant = w.invariant;
        values = λ j.
            w.values j
            ∙ ground (
              arith,
              values_for-removed (lower k) j h.entries (AsciiEntries-IsEntry h.entries a),
              n.1,
              ==_iff j k,
              ==_iff (lower k) j,
            );
      },
    )

keys_lem :
    (h : Headers) → AsciiEntries h.entries → (keys h).0 ≡ ok (distinct (map (λ e. e.key) h.entries))
unfolding keys loop_encoding encoding cache
keys_lem h a = elim (Bool-cases (is_nil h.entries)) [
  | inl e ↦ rw (e, decode_all-ascii (encoding_of h) _ (IsName-IsAscii _ (keys-IsName h.entries a)))
  | inr e ↦ rw (e, decode_all-ascii (encoding_of h) _ (IsName-IsAscii _ (keys-IsName h.entries a)))
]

is_nil-eq : (l : List Bytes) → not (is_nil l) ≡ false → l ≡ []
is_nil-eq [] h = refl
is_nil-eq (x ∷ l) h = cc

nothing-of_not_has : (j : Bytes) (m : List Entry) → has_entry j m ≡ false → values_for j m ≡ []
nothing-of_not_has j m h = is_nil-eq (values_for j m) (sym (has_entry-eq-values_for j m) ∙ h)

extended :
    (j : Bytes) (ks : List Text) (l m : List Entry)
    → mem j ks ≡ has_entry j m
    → (if mem j ks then [] else values_for j l) ++ values_for j m
      ≡ (if has_entry j m then values_for j m else values_for j l)
extended j ks l m e = elim (Bool-cases (has_entry j m)) [
  | inl t ↦ rw (e, t)
  | inr t ↦ rw (e, t, nothing-of_not_has j m t, append-nil)
]

-- `update` succeeds on ASCII headers; a name that its argument has, in any case, then has the
-- values of the argument, and every other name the values that it had.
pub update_lem :
    (h other : Headers) (argument : HeaderTypes)
    → init argument none ≡ ok other
    → AsciiEntries h.entries
    → AsciiEntries other.entries
    → ((update argument h).0 ≡ ok tt)
      × ((j : Bytes)
          → values_for j (update argument h).1.entries ≡ (
              if has_entry j other.entries
              then values_for j other.entries
              else values_for j h.entries))
unfolding update
update_lem h other argument e a b =
    let ks : List Text = distinct (map (λ x. x.key) other.entries) in
    let (h', r, w) = remove_keys_lem ks h (distinct-IsName _ (keys-IsName other.entries b)) a in
    rw (e, keys_lem other b, r)
      (
        refl,
        λ j.
            rw (values_for-append j h'.entries other.entries, w.values j)
              (extended j ks h.entries other.entries (mem-distinct j _ ∙ mem-keys j other.entries)),
      )
