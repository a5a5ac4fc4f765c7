-- ===== src/Transports/Wsgi/Environ.antt =====
-- What the headers of a request do to the environment.
use httpxp.Urls.Url.Parts
use httpxp.UrlParse.Port.{int_to_str, ℤ, pos, negsuc}
use httpxp.Urls.Url
use httpxp.Prelude.{
  ==_iff, Bool, Bool-cases, Bytes, List, Option, Text, [], ap, arith, codes, false, if◌then◌else◌,
  inl, inr, list_beq, map, none, refl, some, starts_with, suc, sym, true, zero, ◌==◌, ◌∙◌, ◌∷◌, ◌≡◌,
  ◌≢◌, ◌⊎◌, nat_eq, list_eq, list_eq,
}
use httpxp.Codec.{ascii, decode}
use httpxp.Dict
use httpxp.Dict.{lookup-put, Dict}
use httpxp.Exceptions.Result.{ok-inj, ok-of_bind, ok}
use httpxp.Transports.Wsgi.{
  key_char, scheme_port, server_port, base_environ, WsgiRequest, WsgiTransport, UrlPlatform,
  environ_of, EnvironValue, add_headers, header_key, text,
}

-- the first option that holds something
abbrev or_else {ℓ} : {A : Type ℓ} → Option A → Option A → Option A
or_else none b = b
or_else (some a) b = some a

-- the value of the last header for a variable
pub last_value : Text → List (Bytes × Bytes) → Option Text
last_value k [] = none
last_value k ((name, value) ∷ headers) =
    or_else (last_value k headers) (if header_key name == k then some value else none)

abbrev pub or_lookup : Option Text → Text → Dict EnvironValue → Option EnvironValue
or_lookup (some v) k d = some (text v)
or_lookup none k d = Dict.lookup k d

ascii-same : (s t : Bytes) → decode ascii s ≡ ok t → s ≡ t
unfolding decode
ascii-same s t e = ground (arith, e)

or_lookup-put :
    (o : Option Text) (k j : Text) (v : Text) (d : Dict EnvironValue)
    → or_lookup o k (Dict.put j (text v) d)
      ≡ or_lookup (or_else o (if j == k then some v else none)) k d
or_lookup-put (some w) k j v d = refl
or_lookup-put none k j v d = lookup-put j k (text v) d ∙ either (j == k)
  where
    either :
        (b : Bool)
        → (if b then some (text v) else Dict.lookup k d)
          ≡ or_lookup (if b then some v else none) k d
    either true = refl
    either false = refl

-- Under a variable stands the last header for it, or what stood there before.
add_headers-lookup :
    (headers : List (Bytes × Bytes)) (k : Text) (d e : Dict EnvironValue)
    → add_headers headers d ≡ ok e
    → Dict.lookup k e ≡ or_lookup (last_value k headers) k d
unfolding add_headers last_value
add_headers-lookup [] k d e h = ap (Dict.lookup k) (sym (ok-inj h))
add_headers-lookup ((name, value) ∷ headers) k d e h =
    let (key, p, h₁) = ok-of_bind (decode ascii name) _ e h in
    let (content, q, h₂) = ok-of_bind (decode ascii value) _ e h₁ in
    add_headers-lookup headers k (Dict.put (header_key key) (text content) d) e h₂
    ∙ or_lookup-put (last_value k headers) k (header_key key) content d
    ∙ rw (ascii-same name key p, ascii-same value content q) refl

-- what is no variable of a header
abbrev pub IsFree : Text → Type 0
IsFree k =
    (starts_with k (codes "HTTP_") ≡ false)
    × (k ≢ codes "CONTENT_TYPE")
    × (k ≢ codes "CONTENT_LENGTH")

header_key_cases :
    (name : Text)
    → (starts_with (header_key name) (codes "HTTP_") ≡ true)
      ⊎ (header_key name ≡ codes "CONTENT_TYPE")
      ⊎ (header_key name ≡ codes "CONTENT_LENGTH")
unfolding header_key starts_with
header_key_cases name = elim (Bool-cases (map key_char name == codes "CONTENT_TYPE")) [
  | inl e ↦ rw e (inr (inl ((==_iff _ _).0 e)))
  | inr e ↦ elim (Bool-cases (map key_char name == codes "CONTENT_LENGTH")) [
    | inl d ↦ rw (e, d) (inr (inr ((==_iff _ _).0 d)))
    | inr d ↦ rw (e, d) (inl refl)
  ]
]

header_key-free : (name k : Text) → IsFree k → (header_key name == k) ≡ false
header_key-free name k (a, b, c) = elim (Bool-cases (header_key name == k)) [
  | inr e ↦ e
  | inl e ↦
      let same : header_key name ≡ k = (==_iff (header_key name) k).0 e in
      elim (header_key_cases name) [
        | inl p ↦
            let q : starts_with k (codes "HTTP_") ≡ true = rw (← same) p in
            let z : true ≡ false = sym q ∙ a in cc
        | inr (inl p) ↦ absurd (b (sym same ∙ p))
        | inr (inr p) ↦ absurd (c (sym same ∙ p))
      ]
]

last_value-free :
    (k : Text) (headers : List (Bytes × Bytes)) → IsFree k → last_value k headers ≡ none
unfolding last_value
last_value-free k [] h = refl
last_value-free k ((name, value) ∷ headers) h =
    rw (last_value-free k headers h, header_key-free name k h) refl

abbrev pub IsSchemePort : Text → ℤ → Type 0
IsSchemePort scheme port =
    ((scheme ≡ codes "http") × (port ≡ pos 80)) ⊎ ((scheme ≡ codes "https") × (port ≡ pos 443))

-- A port of the URL that is not zero, or else the one of its scheme.
abbrev pub IsServerPort : Option ℤ → Text → ℤ → Type 0
IsServerPort (some (pos (suc n))) scheme port = port ≡ pos (suc n)
IsServerPort (some (negsuc n)) scheme port = port ≡ negsuc n
IsServerPort (some (pos zero)) scheme port = IsSchemePort scheme port
IsServerPort none scheme port = IsSchemePort scheme port

scheme_port-IsSchemePort :
    (scheme : Text) (port : ℤ) → scheme_port scheme ≡ ok port → IsSchemePort scheme port
unfolding scheme_port
scheme_port-IsSchemePort scheme port h = elim (Bool-cases (scheme == codes "http")) [
  | inl e ↦ inl ((==_iff scheme (codes "http")).0 e, sym (ok-inj (rw e at h)))
  | inr e ↦ elim (Bool-cases (scheme == codes "https")) [
    | inl d ↦ inr ((==_iff scheme (codes "https")).0 d, sym (ok-inj (rw (e, d) at h)))
    | inr d ↦ absurd (cc (rw (e, d) at h))
  ]
]

server_port-IsServerPort :
    (o : Option ℤ) (scheme : Text) (port : ℤ)
    → server_port o scheme ≡ ok port
    → IsServerPort o scheme port
unfolding server_port
server_port-IsServerPort (some (pos (suc n))) scheme port h = sym (ok-inj h)
server_port-IsServerPort (some (negsuc n)) scheme port h = sym (ok-inj h)
server_port-IsServerPort (some (pos zero)) scheme port h = scheme_port-IsSchemePort scheme port h
server_port-IsServerPort none scheme port h = scheme_port-IsSchemePort scheme port h

differs : (s t : Text) → (s == t) ≡ false → s ≢ t
differs s t h e = let z : true ≡ false = sym ((==_iff s t).1 e) ∙ h in absurd (cc z)

request_variables-IsFree :
    IsFree (codes "REQUEST_METHOD")
    × IsFree (codes "QUERY_STRING")
    × IsFree (codes "SERVER_NAME")
    × IsFree (codes "SERVER_PORT")
unfolding starts_with list_beq
request_variables-IsFree = (
  (refl, differs _ _ refl, differs _ _ refl),
  (refl, differs _ _ refl, differs _ _ refl),
  (refl, differs _ _ refl, differs _ _ refl),
  (refl, differs _ _ refl, differs _ _ refl),
)

-- The variables that hold the request.
abbrev pub Holds : WsgiRequest → Text → Text → ℤ → Dict EnvironValue → Type 0
Holds r query host port e =
    (Dict.lookup (codes "REQUEST_METHOD") e ≡ some (text r.method))
    × (Dict.lookup (codes "QUERY_STRING") e ≡ some (text query))
    × (Dict.lookup (codes "SERVER_NAME") e ≡ some (text host))
    × (Dict.lookup (codes "SERVER_PORT") e ≡ some (text (int_to_str port)))

base_environ-Holds :
    (p : UrlPlatform) (t : WsgiTransport) (r : WsgiRequest) (query host : Text) (port : ℤ)
    → Holds r query host port (base_environ p t r query host port)
unfolding base_environ Dict.lookup list_beq
base_environ-Holds p t r query host port = (refl, refl, refl, refl)

Holds-kept :
    (r : WsgiRequest) (query host : Text) (port : ℤ) (d e : Dict EnvironValue)
    → ((k : Text) → IsFree k → Dict.lookup k e ≡ Dict.lookup k d)
    → Holds r query host port d
    → Holds r query host port e
Holds-kept r query host port d e k (m, q, n, o) = (
  k _ request_variables-IsFree.0 ∙ m,
  k _ request_variables-IsFree.1 ∙ q,
  k _ request_variables-IsFree.2 ∙ n,
  k _ request_variables-IsFree.3 ∙ o,
)

-- The environment of a request holds under each variable the value of the last header for it, whose
-- name gives the variable, and otherwise what the transport has put there. So no header changes a
-- variable but CONTENT_TYPE, CONTENT_LENGTH and those that begin with HTTP_. REQUEST_METHOD is the
-- method, QUERY_STRING the query of the URL, SERVER_NAME its host as it is decoded, and SERVER_PORT
-- its port, or where it has none or zero, 80 for HTTP and 443 for HTTPS.
pub environ_of-lookup :
    (p : UrlPlatform) (t : WsgiTransport) (r : WsgiRequest) (e : Dict EnvironValue)
    → environ_of p t r ≡ ok e
    → (query : Text) × (host : Text) × (port : ℤ) × (Parts.query r.url ≡ ok query)
      × (Url.host p r.url ≡ ok host)
      × IsServerPort r.url.port r.url.scheme port
      × Holds r query host port e
      × ((k : Text)
          → (Dict.lookup k e
              ≡ or_lookup (last_value k r.raw_headers) k (base_environ p t r query host port))
            × (IsFree k → Dict.lookup k e ≡ Dict.lookup k (base_environ p t r query host port)))
unfolding environ_of
environ_of-lookup p t r e h =
    let (port, h₀, h₁) = ok-of_bind (server_port r.url.port r.url.scheme) _ e h in
    let (raw, q, h₂) = ok-of_bind (Parts.query r.url) _ e h₁ in
    let (query, d, h₃) = ok-of_bind (decode ascii raw) _ e h₂ in
    let (host, u, h₄) = ok-of_bind (Url.host p r.url) _ e h₃ in
    let base = base_environ p t r query host port in
    let kept : (k : Text) → IsFree k → Dict.lookup k e ≡ Dict.lookup k base = λ k free.
      add_headers-lookup r.raw_headers k base e h₄
      ∙ rw (last_value-free k r.raw_headers free) refl in
    (
      query,
      host,
      port,
      q ∙ ap ok (ascii-same raw query d),
      u,
      server_port-IsServerPort r.url.port r.url.scheme port h₀,
      Holds-kept r query host port base e kept (base_environ-Holds p t r query host port),
      λ k. (add_headers-lookup r.raw_headers k base e h₄, kept k),
    )
