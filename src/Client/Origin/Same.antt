-- ===== src/Client/Origin/Same.antt =====
-- What the tests of an origin decide.
use httpxp.Prelude.{
  ==_iff, Bool, Bool-cases, Option, Text, [], ap, arith, codes, false, if◌then◌else◌, inl, inr,
  none, refl, some, sym, true, ◌&&◌, ◌==◌, ◌↔◌, ◌∙◌, ◌∷◌, ◌≡◌, nat_eq, list_eq,
}
use httpxp.Exceptions.Result.{ok}
use httpxp.Dict
use httpxp.Dict.{Dict}
use httpxp.UrlParse.Port.{ℤ, pos, negsuc, int_eq, port_eq}
use httpxp.Urls.Url
use httpxp.Urls.Url.{Url, UrlPlatform}
use httpxp.Client.Origin.{port_or_default, same_origin, is_https_redirect}

abbrev default_ports : Dict ℤ
default_ports = (codes "http", pos 80) ∷ (codes "https", pos 443) ∷ []

-- The port that is written, or else the one of the scheme.
abbrev pub port_in_use : Text → Option ℤ → Option ℤ
port_in_use scheme (some q) = some q
port_in_use scheme none = Dict.lookup scheme default_ports

-- The same scheme, host and port, where the hosts are decoded.
abbrev pub IsSame : Url → Url → Text → Text → Type 0
IsSame u v u_host v_host =
    (u.scheme ≡ v.scheme)
    × (u_host ≡ v_host)
    × (port_in_use u.scheme u.port ≡ port_in_use v.scheme v.port)

-- From the default port of HTTP to that of HTTPS, on one host.
abbrev pub IsUpgrade : Url → Url → Text → Text → Type 0
IsUpgrade u v u_host v_host =
    (u_host ≡ v_host)
    × (u.scheme ≡ codes "http")
    × (port_in_use u.scheme u.port ≡ some (pos 80))
    × (v.scheme ≡ codes "https")
    × (port_in_use v.scheme v.port ≡ some (pos 443))

int_eq_iff : (a b : ℤ) → (int_eq a b ≡ true) ↔ (a ≡ b)
unfolding int_eq
int_eq_iff (pos m) (pos n) = ((λ h. ap pos ((==_iff m n).0 h)), (λ h. (==_iff m n).1 cc))
int_eq_iff (negsuc m) (negsuc n) = ((λ h. ap negsuc ((==_iff m n).0 h)), (λ h. (==_iff m n).1 cc))
int_eq_iff (pos m) (negsuc n) = ((λ h. absurd (cc h)), (λ h. absurd (cc h)))
int_eq_iff (negsuc m) (pos n) = ((λ h. absurd (cc h)), (λ h. absurd (cc h)))

pub port_eq_iff : (o q : Option ℤ) → (port_eq o q ≡ true) ↔ (o ≡ q)
unfolding port_eq
port_eq_iff none none = ((λ h. refl), (λ h. refl))
port_eq_iff (some a) (some b) =
    ((λ h. ap some ((int_eq_iff a b).0 h)), (λ h. (int_eq_iff a b).1 cc))
port_eq_iff none (some b) = ((λ h. absurd (cc h)), (λ h. absurd (cc h)))
port_eq_iff (some a) none = ((λ h. absurd (cc h)), (λ h. absurd (cc h)))

port_or_default_lem : (u : Url) → port_or_default u ≡ port_in_use u.scheme u.port
unfolding port_or_default Dict.lookup
port_or_default_lem u = of_port u.port
  where
    of_port :
        (o : Option ℤ)
        → (elim o [
          | some p ↦ some p
          | none ↦
              if u.scheme == codes "http"
              then some (pos 80)
              else if u.scheme == codes "https"
              then some (pos 443)
              else none
        ])
          ≡ port_in_use u.scheme o
    of_port (some q) = refl
    of_port none = ground (
      arith,
      ==_iff u.scheme (codes "http"),
      ==_iff u.scheme (codes "https"),
      ==_iff (codes "http") u.scheme,
      ==_iff (codes "https") u.scheme,
    )

and_left : (b c : Bool) → (b && c) ≡ true → b ≡ true
and_left b c h = ground arith

and_right : (b c : Bool) → (b && c) ≡ true → c ≡ true
and_right b c h = ground arith

and_both : (b c : Bool) → b ≡ true → c ≡ true → (b && c) ≡ true
and_both b c h k = ground arith

same_ports :
    (u v : Url)
    → (port_eq (port_or_default u) (port_or_default v) ≡ true)
      ↔ (port_in_use u.scheme u.port ≡ port_in_use v.scheme v.port)
same_ports u v = rw (port_or_default_lem u, port_or_default_lem v) (port_eq_iff _ _)

is_port :
    (u : Url) (q : ℤ)
    → (port_eq (port_or_default u) (some q) ≡ true) ↔ (port_in_use u.scheme u.port ≡ some q)
is_port u q = rw (port_or_default_lem u) (port_eq_iff _ _)

module _ (p : UrlPlatform) (u v : Url) (u_host v_host : Text) (h : Url.host p u ≡ ok u_host)
    (k : Url.host p v ≡ ok v_host) where
  pub same_origin_lem :
      (b : Bool) × (same_origin p u v ≡ ok b) × ((b ≡ true) ↔ IsSame u v u_host v_host)
  unfolding same_origin
  same_origin_lem = elim (Bool-cases (u.scheme == v.scheme)) [
    | inr e ↦ (
      false,
      rw e refl,
      (
        (λ t. absurd (cc t)),
        (λ s. let z : true ≡ false = sym ((==_iff u.scheme v.scheme).1 s.0) ∙ e in cc z),
      ),
    )
    | inl e ↦
        let ports : Bool = port_eq (port_or_default u) (port_or_default v) in
        (
          u_host == v_host && ports,
          rw (e, h, k) refl,
          (
            (λ t. (
              (==_iff u.scheme v.scheme).0 e,
              (==_iff u_host v_host).0 (and_left _ ports t),
              (same_ports u v).0 (and_right (u_host == v_host) ports t),
            )),
            (λ s. and_both _ _ ((==_iff u_host v_host).1 s.1) ((same_ports u v).1 s.2)),
          ),
        )
  ]

  pub is_https_redirect_lem :
      (b : Bool) × (is_https_redirect p u v ≡ ok b) × ((b ≡ true) ↔ IsUpgrade u v u_host v_host)
  unfolding is_https_redirect
  is_https_redirect_lem = elim (Bool-cases (u_host == v_host)) [
    | inr e ↦ (
      false,
      rw (h, k, e) refl,
      (
        (λ t. absurd (cc t)),
        (λ s. let z : true ≡ false = sym ((==_iff u_host v_host).1 s.0) ∙ e in cc z),
      ),
    )
    | inl e ↦ (
      (u.scheme == codes "http"
          && port_eq (port_or_default u) (some (pos 80))
          && v.scheme == codes "https"
          && port_eq (port_or_default v) (some (pos 443))),
      rw (h, k, e) refl,
      upgrade (u.scheme == codes "http") (port_eq (port_or_default u) (some (pos 80)))
          (v.scheme == codes "https") (port_eq (port_or_default v) (some (pos 443)))
          ((==_iff u_host v_host).0 e) (==_iff u.scheme (codes "http")) (is_port u (pos 80))
          (==_iff v.scheme (codes "https")) (is_port v (pos 443)),
    )
  ]
    where
      upgrade :
          {A B C D E : Type 0} (a b c d : Bool)
          → A
          → ((a ≡ true) ↔ B)
          → ((b ≡ true) ↔ C)
          → ((c ≡ true) ↔ D)
          → ((d ≡ true) ↔ E)
          → ((a && b && c && d) ≡ true) ↔ (A × B × C × D × E)
      upgrade a b c d w x y z t = (
        (λ r. (w, x.0 (ground arith), y.0 (ground arith), z.0 (ground arith), t.0 (ground arith))),
        (λ r. all_of a b c d (x.1 r.1) (y.1 r.2) (z.1 r.3) (t.1 r.4)),
      )
        where
          all_of :
              (a b c d : Bool)
              → a ≡ true
              → b ≡ true
              → c ≡ true
              → d ≡ true
              → (a && b && c && d) ≡ true
          all_of a b c d h i j k = ground arith
