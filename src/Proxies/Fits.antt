-- ===== src/Proxies/Fits.antt =====
-- Whether a pattern matches a URL, said without the code's tests.
use httpxp.Prelude.{
  ==_iff, Bool, Bool-cases, Option, Text, [], arith, false, inl, inr, is_nil, none, not, refl, some,
  sym, true, ◌&&◌, ◌==◌, ◌↔◌, ◌∙◌, ◌∷◌, ◌≡◌, ◌⊎◌, nat_eq, list_eq,
}
use httpxp.Exceptions.Result.{ok}
use httpxp.UrlParse.Port.{ℤ}
use httpxp.Client.Origin.Same.{port_eq_iff}
use httpxp.Urls.Url
use httpxp.Urls.Url.{Url, UrlPlatform}
use httpxp.Proxies.{matches, host_fits, regex_fits, port_fits, host_matches, UrlPattern, HostRegex}
use httpxp.Proxies.Matching.{Matches, host_matches_iff}

abbrev pub HostFits : Option HostRegex → Text → Type 0
HostFits none host = Unit
HostFits (some r) host = Matches r host

-- A pattern fits a URL with a host: it has no scheme or that of the URL, no host or one whose
-- expression matches, and no port or that of the URL.
abbrev pub Fits : Url → Text → UrlPattern → Type 0
Fits url host p =
    ((p.scheme ≡ []) ⊎ (p.scheme ≡ url.scheme))
    × ((p.host ≡ []) ⊎ HostFits p.host_regex host)
    × ((p.port ≡ none) ⊎ (p.port ≡ url.port))

regex-HostFits :
    (r : Option HostRegex) (host : Text)
    → (b : Bool) × (regex_fits r (ok host) ≡ ok b) × ((b ≡ true) ↔ HostFits r host)
unfolding regex_fits
regex-HostFits none host = (true, refl, ((λ _. tt), (λ _. refl)))
regex-HostFits (some r) host = (host_matches r host, refl, host_matches_iff r host)

port_fits_iff : (o q : Option ℤ) → (port_fits o q ≡ true) ↔ ((o ≡ none) ⊎ (o ≡ q))
unfolding port_fits
port_fits_iff none q = ((λ _. inl refl), (λ _. refl))
port_fits_iff (some p) q = (
  (λ h. inr ((port_eq_iff (some p) q).0 h)),
  (λ h. elim h [ inl e ↦ absurd (cc e) | inr e ↦ (port_eq_iff (some p) q).1 e ]),
)

is_nil-eq : (s : Text) → is_nil s ≡ true → s ≡ []
is_nil-eq [] h = refl
is_nil-eq (c ∷ s) h = absurd (cc h)

scheme_iff : (s t : Text) → ((not (is_nil s) && not (s == t)) ≡ false) ↔ ((s ≡ []) ⊎ (s ≡ t))
scheme_iff s t = (
  λ h. elim (Bool-cases (is_nil s)) [
    | inl e ↦ inl (is_nil-eq s e)
    | inr e ↦ inr ((==_iff s t).0 (ground arith))
  ],
  λ h. elim h [ inl e ↦ rw e refl | inr e ↦ ground (arith, (==_iff s t).1 e) ],
)

and_iff :
    {A B C : Type 0} (b c : Bool)
    → A
    → ((b ≡ true) ↔ B)
    → ((c ≡ true) ↔ C)
    → ((b && c) ≡ true) ↔ (A × B × C)
and_iff true true a f g = ((λ _. (a, f.0 refl, g.0 refl)), (λ _. refl))
and_iff true false a f g = ((λ h. absurd (cc h)), (λ h. g.1 h.2))
and_iff false c a f g = ((λ h. absurd (cc h)), (λ h. f.1 h.1))

module _ (p : UrlPlatform) (url : Url) (host : Text) (h : Url.host p url ≡ ok host) where
  host_fits-HostFits :
      (q : UrlPattern)
      → (b : Bool) × (host_fits p q url ≡ ok b)
        × ((b ≡ true) ↔ ((q.host ≡ []) ⊎ HostFits q.host_regex host))
  unfolding host_fits
  host_fits-HostFits q = elim (Bool-cases (is_nil q.host)) [
    | inl e ↦ (true, rw e refl, ((λ _. inl (is_nil-eq q.host e)), (λ _. refl)))
    | inr e ↦
        let (b, f, i) = regex-HostFits q.host_regex host in
        (
          b,
          rw (e, h) f,
          ((λ t. inr (i.0 t)), (λ t. elim t [ inl z ↦ absurd (cc (rw z at e)) | inr z ↦ i.1 z ])),
        )
  ]

  pub matches-Fits :
      (q : UrlPattern) → (b : Bool) × (matches p q url ≡ ok b) × ((b ≡ true) ↔ Fits url host q)
  unfolding matches
  matches-Fits q = elim (Bool-cases (not (is_nil q.scheme) && not (q.scheme == url.scheme))) [
    | inl e ↦ (
      false,
      rw e refl,
      (
        (λ t. absurd (cc t)),
        (λ t. let z : false ≡ true = sym ((scheme_iff q.scheme url.scheme).1 t.0) ∙ e in z),
      ),
    )
    | inr e ↦
        let (b, f, i) = host_fits-HostFits q in
        (
          b && port_fits q.port url.port,
          rw (e, f) refl,
          and_iff b (port_fits q.port url.port) ((scheme_iff q.scheme url.scheme).0 e) i
              (port_fits_iff q.port url.port),
        )
  ]
