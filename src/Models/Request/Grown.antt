-- ===== src/Models/Request/Grown.antt =====
-- The default headers of a request, added to ASCII headers one after the other.
use httpxp.Models.Headers.Default.{Defaulted, setdefault_lem}
use httpxp.Models.Headers.Exec.{◌>>◌, Headers, pure, M}
use httpxp.Codec.Ascii.{IsAscii}
use httpxp.Models.Headers.{cache, setdefault}
use httpxp.Models.Headers.Ascii.{contains_lem, AsciiEntries}
use httpxp.Models.Request.{is_skipped, add_default, add_defaults}
use httpxp.Dict.{Dict}
use httpxp.Prelude.{
  ==_iff, All, Bool, Bytes, List, Text, [], arith, codes, false, if◌then◌else◌, lower, lower_char,
  refl, subst, sym, true, ◌&&◌, ◌==◌, ◌∙◌, ◌∷◌, ◌≡◌, nat_eq, list_eq,
}
use httpxp.Exceptions.Result.{ok}
use httpxp.Models.Headers.Entries.{Entry, values_for, has_entry}
use httpxp.Models.Headers.Entries.Values.{has_entry-eq-values_for}

abbrev pub content_length : Bytes
content_length = codes "content-length"

abbrev pub transfer_encoding : Bytes
transfer_encoding = codes "transfer-encoding"

-- the entry of a header that is added
abbrev pub entry : Text → Text → Entry
entry key value = record { raw = key; key = lower key; value = value }

-- Every name that was there keeps its values, and beside a Content-Length no Transfer-Encoding is added.
pub record Grown (l l' : List Entry) : Type 0 where
  pub ascii : AsciiEntries l'
  pub keeps : (j : Bytes) → has_entry j l ≡ true → values_for j l' ≡ values_for j l
  pub unchunked :
      has_entry content_length l ≡ true
      → values_for transfer_encoding l' ≡ values_for transfer_encoding l

pub has-eq :
    (j : Bytes) (l m : List Entry) → values_for j l ≡ values_for j m → has_entry j l ≡ has_entry j m
has-eq j l m e = rw (has_entry-eq-values_for j l, has_entry-eq-values_for j m, e) refl

pub Grown-refl : (l : List Entry) → AsciiEntries l → Grown l l
Grown-refl l a = record { ascii = a; keeps = λ j h. refl; unchunked = λ h. refl }

pub Grown-trans : (l m n : List Entry) → Grown l m → Grown m n → Grown l n
Grown-trans l m n g h = record {
  ascii = h.ascii;
  keeps = λ j e. h.keeps j (has-eq j m l (g.keeps j e) ∙ e) ∙ g.keeps j e;
  unchunked =
      λ e. h.unchunked (has-eq content_length m l (g.keeps content_length e) ∙ e) ∙ g.unchunked e;
}

-- what an action on ASCII headers ends with
abbrev pub Grows : M (Unit {0}) → Headers → Type 0
Grows m h = (h' : Headers) × (m h ≡ (ok tt, h')) × Grown h.entries h'.entries

setdefault-Grown :
    (key value : Text) (l l' : List Entry)
    → (lower key == transfer_encoding && has_entry content_length l) ≡ false
    → Defaulted key value l l'
    → Grown l l'
setdefault-Grown key value l l' u d = record {
  ascii = d.ascii;
  keeps = λ j h. ground (arith, d.values j, ==_iff (lower key) j);
  unchunked = λ h. ground (arith, d.values transfer_encoding);
}

module _ (h : Headers) (key value : Text) (a : AsciiEntries h.entries) (k : IsAscii key)
    (v : IsAscii value) where
  skipped-Grows :
      (b : Bool) (g : Headers)
      → g.entries ≡ h.entries
      → b ≡ (lower key == transfer_encoding && has_entry content_length h.entries)
      → (h' : Headers) × ((if b then pure tt else (setdefault key value >> pure tt)) g
          ≡ (ok tt, h'))
        × Grown h.entries h'.entries
  skipped-Grows true g e u = (g, refl, rw e (Grown-refl h.entries a))
  skipped-Grows false g e u =
      let (t, h', s, d) = setdefault_lem g key value (rw e a) k v in
      (
        h',
        rw s refl,
        setdefault-Grown key value h.entries h'.entries (sym u)
            (subst (λ l. Defaulted key value l h'.entries) e d),
      )

  is_skipped_lem :
      (b : Bool)
      → b ≡ (lower key == transfer_encoding)
      → (g : Headers) × (is_skipped key h ≡ (ok (b && has_entry content_length h.entries), g))
        × (g.entries ≡ h.entries)
  unfolding is_skipped cache lower lower_char
  is_skipped_lem true e =
      (cache h, rw (← e) (contains_lem h (codes "Content-Length") a (omega arith)), refl)
  is_skipped_lem false e = (h, rw (← e) refl, refl)

  add_default-Grows : Grows (add_default key value) h
  unfolding add_default
  add_default-Grows =
      let (g, s, e) = is_skipped_lem (lower key == transfer_encoding) refl in
      let (h', t, w) = skipped-Grows _ g e refl in (h', rw s t, w)

abbrev pub AsciiDict : Dict Text → Type 0
AsciiDict d = All (λ x. IsAscii x.0 × IsAscii x.1) d

pub add_defaults-Grows :
    (d : Dict Text) (h : Headers) → AsciiDict d → AsciiEntries h.entries → Grows (add_defaults d) h
unfolding add_defaults
add_defaults-Grows [] h p a = (h, refl, Grown-refl h.entries a)
add_defaults-Grows ((key, value) ∷ d) h ((k, v), ps) a =
    let (g, s, w) = add_default-Grows h key value a k v in
    let (h', t, x) = add_defaults-Grows d g ps w.ascii in
    (h', rw s t, Grown-trans h.entries g.entries h'.entries w x)
