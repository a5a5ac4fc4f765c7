-- ===== src/Models/Request/Prepared.antt =====
-- What `_prepare` of a request does to ASCII headers.
use httpxp.Models.Headers.Exec.{Headers}
use httpxp.Codec.Ascii.{IsAscii, encode-ascii}
use httpxp.Models.Headers.{cache}
use httpxp.Models.Headers.Views.{raw}
use httpxp.Models.Headers.Ascii.{contains_lem, AsciiEntries, AsciiEntries-IsEntry}
use httpxp.Models.Request.{
  is_framed, has_body, host_headers, length_headers, with_auto, replaced, prepare,
}
use httpxp.Dict.{Dict}
use httpxp.Urls.Url
use httpxp.Urls.Url.{Url, UrlPlatform}
use httpxp.Codec.{ascii}
use httpxp.Prelude.{
  ==_iff, Bool, Bool-cases, Bytes, List, Text, [], append_assoc, arith, codes, false, inl, inr,
  is_nil, list_beq, lower, lower_char, map, none, not, refl, sym, true, ◌++◌, ◌==◌, ◌||◌, ◌∷◌, ◌≡◌,
  ◌⊎◌, nat_eq, list_eq,
}
use mathlib.Core.List.{map-append}
use httpxp.Models.Headers.Raw.{to_entry, init-pairs_of, raw-to_entry}
use httpxp.Exceptions.Result.{ok}
use httpxp.Models.Headers.Entries.{Entry, values_for, has_entry}
use httpxp.Models.Request.Grown.{
  content_length, transfer_encoding, entry, Grown, Grown-refl, Grown-trans, has-eq,
  add_defaults-Grows, AsciiDict,
}

with_auto_lem :
    (auto : List (Bytes × Bytes)) (h : Headers)
    → AsciiEntries h.entries
    → with_auto auto h
      ≡ (ok tt, record { entries = map to_entry auto ++ h.entries; encoding = none })
unfolding with_auto replaced
with_auto_lem auto h a =
    rw
      (
        init-pairs_of (auto ++ raw h),
        map-append to_entry auto (raw h),
        raw-to_entry h (AsciiEntries-IsEntry h.entries a),
      )
      refl

entry-Grown :
    (key value : Text) (l : List Entry)
    → AsciiEntries l
    → IsAscii key
    → IsAscii value
    → has_entry (lower key) l ≡ false
    → (lower key == transfer_encoding) ≡ false
    → Grown l (entry key value ∷ l)
unfolding has_entry values_for
entry-Grown key value l a k v n t = record {
  ascii = ((refl, k, v), a);
  keeps = λ j h. ground (arith, ==_iff (lower key) j);
  unchunked = λ h. ground arith;
}

-- What the headers of a request are, once they are prepared: every name that was there keeps its
-- values; beside a Content-Length no Transfer-Encoding is added; there is a Host if the URL has one;
-- and for POST, PUT and PATCH there is a Content-Length or a Transfer-Encoding.
pub record IsPrepared (method url_host : Text) (l l' : List Entry) : Type 0 where
  pub grown : Grown l l'
  pub host : not (is_nil url_host) ≡ true → has_entry (codes "host") l' ≡ true
  pub framed :
      (method ≡ codes "POST") ⊎ (method ≡ codes "PUT") ⊎ (method ≡ codes "PATCH")
      → (has_entry content_length l' || has_entry transfer_encoding l') ≡ true

module _ (l : List Entry) (netloc : Text) (a : AsciiEntries l) (i : IsAscii netloc) where
  hosted-Grown :
      (b c : Bool) (host : Text)
      → b ≡ has_entry (codes "host") l
      → c ≡ is_nil host
      → (auto : List (Bytes × Bytes)) × (host_headers b (ok host) netloc ≡ ok auto)
        × Grown l (map to_entry auto ++ l)
        × (not c ≡ true → has_entry (codes "host") (map to_entry auto ++ l) ≡ true)
  unfolding host_headers to_entry lower lower_char has_entry list_beq
  hosted-Grown true c host e f = ([], refl, Grown-refl l a, λ h. sym e)
  hosted-Grown false true host e f = ([], rw (← f) refl, Grown-refl l a, λ h. absurd (cc h))
  hosted-Grown false false host e f = (
    (codes "Host", netloc) ∷ [],
    rw (← f, encode-ascii ascii netloc i) refl,
    entry-Grown (codes "Host") netloc l a (omega arith) i (sym e) refl,
    λ h. refl,
  )

module _ (l : List Entry) (method : Text) (a : AsciiEntries l) where
  framed-Grown :
      (b c : Bool)
      → b ≡ (has_entry content_length l || has_entry transfer_encoding l)
      → c ≡ has_body method
      → Grown l (map to_entry (length_headers b method) ++ l)
        × (c ≡ true
            → (has_entry content_length (map to_entry (length_headers b method) ++ l)
                || has_entry transfer_encoding (map to_entry (length_headers b method) ++ l))
              ≡ true)
        × (has_entry (codes "host") (map to_entry (length_headers b method) ++ l)
            ≡ has_entry (codes "host") l)
  unfolding length_headers to_entry lower lower_char has_entry list_beq
  framed-Grown true c e f = (Grown-refl l a, (λ h. sym e), refl)
  framed-Grown false false e f = rw (← f) (Grown-refl l a, (λ h. absurd (cc h)), refl)
  framed-Grown false true e f = rw (← f) (
    entry-Grown (codes "Content-Length") (codes "0") l a (omega arith) (omega arith) (ground arith)
        refl,
    (λ h. refl),
    refl,
  )

is_framed_lem :
    (h : Headers)
    → AsciiEntries h.entries
    → (g : Headers) × (is_framed h
        ≡ (ok (has_entry content_length h.entries || has_entry transfer_encoding h.entries), g))
      × (g.entries ≡ h.entries)
unfolding is_framed cache lower lower_char
is_framed_lem h a = elim (Bool-cases (has_entry content_length h.entries)) [
  | inl e ↦ (cache h, rw (contains_lem h (codes "Content-Length") a (omega arith), e) refl, refl)
  | inr e ↦ (
    cache (cache h),
    rw
        (
          contains_lem h (codes "Content-Length") a (omega arith),
          e,
          contains_lem (cache h) (codes "Transfer-Encoding") a (omega arith),
        )
        refl,
    refl,
  )
]

framed-kept :
    (l l' : List Entry)
    → Grown l l'
    → (has_entry content_length l || has_entry transfer_encoding l) ≡ true
    → (has_entry content_length l' || has_entry transfer_encoding l') ≡ true
framed-kept l l' g h = elim (Bool-cases (has_entry content_length l)) [
  | inl e ↦ rw (has-eq content_length l' l (g.keeps content_length e), e) refl
  | inr e ↦
      let k : has_entry transfer_encoding l ≡ true = ground arith in
      rw (has-eq transfer_encoding l' l (g.keeps transfer_encoding k), k) (ground arith)
]

has_body-of :
    (method : Text)
    → (method ≡ codes "POST") ⊎ (method ≡ codes "PUT") ⊎ (method ≡ codes "PATCH")
    → has_body method ≡ true
unfolding has_body
has_body-of method h = elim h [
  | inl e ↦ ground (arith, (==_iff method (codes "POST")).1 e)
  | inr (inl e) ↦ ground (arith, (==_iff method (codes "PUT")).1 e)
  | inr (inr e) ↦ ground (arith, (==_iff method (codes "PATCH")).1 e)
]

module _ (p : UrlPlatform) (method : Text) (url : Url) (url_host : Text) (d : Dict Text)
    (h : Headers) where
  -- On ASCII headers, for ASCII default headers and a URL with an ASCII netloc, whose host can be decoded,
  -- `_prepare` raises nothing: every name that the caller gave keeps its values, beside a Content-Length of the caller
  -- no Transfer-Encoding is added, there is a Host if the URL has a host, and for POST, PUT and PATCH
  -- there is a Content-Length or a Transfer-Encoding.
  pub prepare-IsPrepared :
      AsciiEntries h.entries
      → AsciiDict d
      → IsAscii (Url.netloc url)
      → Url.host p url ≡ ok url_host
      → (h' : Headers) × (prepare p method url d h ≡ (ok tt, h'))
        × IsPrepared method url_host h.entries h'.entries
  unfolding prepare cache lower lower_char
  prepare-IsPrepared a ds i u =
      let (h₁, s₁, g₁) = add_defaults-Grows d h ds a in
      let (h₂, s₂, e₂) = is_framed_lem (cache h₁) (unfold cache in g₁.ascii) in
      let (g₃, f₃, k₃) = framed-Grown h₁.entries method g₁.ascii _ (has_body method) refl refl in
      let (auto, s₄, g₄, k₄) =
        hosted-Grown _ (Url.netloc url) g₃.ascii i _ (_) url_host (sym k₃) refl in
      let len : List (Bytes × Bytes) =
        length_headers
          (has_entry content_length h₁.entries || has_entry transfer_encoding h₁.entries) method in
      let eq : map to_entry (auto ++ len) ++ h₂.entries
          ≡ map to_entry auto ++ (map to_entry len ++ h₁.entries) =
        rw (e₂, map-append to_entry auto len)
          (append_assoc (map to_entry auto) (map to_entry len) h₁.entries) in
      (
        record { entries = map to_entry (auto ++ len) ++ h₂.entries; encoding = none },
        rw
            (
              s₁,
              contains_lem h₁ (codes "Host") g₁.ascii (omega arith),
              s₂,
              u,
              s₄,
              with_auto_lem (auto ++ len) h₂ (rw e₂ g₁.ascii),
            )
            refl,
        rw eq (record {
          grown = Grown-trans _ _ _ g₁ (Grown-trans _ _ _ g₃ g₄);
          host = k₄;
          framed = λ m. framed-kept _ _ g₄ (f₃ (has_body-of method m));
        }),
      )
