-- ===== src/Proxies/Matching.antt =====
-- What the patterns of hosts match.
use httpxp.Urls.Url
use httpxp.Urls.Url.{Url, UrlPlatform}
use httpxp.Exceptions.Result.{ok}
use httpxp.Prelude.{
  ==_iff, Bool, Bool-cases, Option, Text, [], ap, arith, codes, drop, false, if◌then◌else◌, inl,
  inr, is_nil, length, length-append, list_beq, none, refl, some, starts_with, suc, sym, take,
  take-append-drop, true, zero, ℕ, ◌++◌, ◌-◌, ◌<◌, ◌==◌, ◌||◌, ◌↔◌, ◌∙◌, ◌∷◌, ◌≡◌, ◌≢◌, ◌⊎◌, nat_eq,
  list_eq,
}
use httpxp.Proxies.{
  host_regex_of, regex_fits, host_fits, pattern_of, HostRegex, below, at_or_below, exactly,
  is_below, host_matches,
}

-- A text in front of the suffix.
abbrev pub IsBelow : Text → Text → Type 0
IsBelow host suffix = (front : Text) × (front ≢ []) × (host ≡ front ++ suffix)

-- What the regular expression of a pattern means for a host.
abbrev pub Matches : HostRegex → Text → Type 0
Matches (below domain) host = IsBelow host (b'.' ∷ domain)
Matches (at_or_below domain) host = (host ≡ domain) ⊎ IsBelow host (b'.' ∷ domain)
Matches (exactly domain) host = host ≡ domain

drop-append : (s t : Text) → drop (length s) (s ++ t) ≡ t
drop-append [] t = refl
drop-append (c ∷ s) t = drop-append s t

length-take : (n : ℕ) (s : Text) → 0 < n → 0 < length s → 0 < length (take n s)
length-take zero s h k = absurd (omega arith)
length-take (suc n) [] h k = absurd (omega arith)
length-take (suc n) (c ∷ s) h k = omega arith

nonempty : (s : Text) → 0 < length s → s ≢ []
nonempty s h e = absurd (omega (arith, ap (length {A = ℕ}) e))

IsBelow-of_is : (host suffix : Text) → is_below host suffix ≡ true → IsBelow host suffix
unfolding is_below
IsBelow-of_is host suffix h =
    let n = length host - length suffix in
    let e : drop n host ≡ suffix = ground (arith, ==_iff (drop n host) suffix) in
    let l : length suffix < length host = ground arith in
    (
      take n host,
      nonempty (take n host) (length-take n host (omega arith) (omega arith)),
      sym (take-append-drop n host) ∙ ap (λ t. take n host ++ t) e,
    )

length_pos : (s : Text) → s ≢ [] → 0 < length s
length_pos [] h = absurd (h refl)
length_pos (c ∷ s) h = omega arith

is_below-front : (front suffix : Text) → 0 < length front → is_below (front ++ suffix) suffix ≡ true
unfolding is_below
is_below-front front suffix h =
    let l = length-append front suffix in
    let d : drop (length (front ++ suffix) - length suffix) (front ++ suffix) ≡ suffix =
      ap (λ (n : ℕ). drop n (front ++ suffix)) (omega (arith, l)) ∙ drop-append front suffix in
    rw d (ground (arith, l, ==_iff suffix suffix))

is-of_below : (host suffix : Text) → IsBelow host suffix → is_below host suffix ≡ true
is-of_below host suffix (front, n, e) = rw e (is_below-front front suffix (length_pos front n))

or-right : (b c : Bool) → b ≡ false → (b || c) ≡ true → c ≡ true
or-right b c h k = ground arith

or-of_left : (b c : Bool) → b ≡ true → (b || c) ≡ true
or-of_left b c h = ground arith

or-of_right : (b c : Bool) → c ≡ true → (b || c) ≡ true
or-of_right b c h = ground arith

-- the meaning of each regular expression
pub host_matches_iff : (r : HostRegex) (host : Text) → (host_matches r host ≡ true) ↔ Matches r host
unfolding host_matches
host_matches_iff (below d) host = (IsBelow-of_is host (b'.' ∷ d), is-of_below host (b'.' ∷ d))
host_matches_iff (at_or_below d) host = (
  λ h. elim (Bool-cases (host == d)) [
    | inl e ↦ inl ((==_iff host d).0 e)
    | inr e ↦ inr (IsBelow-of_is host (b'.' ∷ d) (or-right (host == d) _ e h))
  ],
  λ h. elim h [
    | inl e ↦ or-of_left (host == d) _ ((==_iff host d).1 e)
    | inr e ↦ or-of_right (host == d) _ (is-of_below host (b'.' ∷ d) e)
  ],
)
host_matches_iff (exactly d) host = ==_iff host d

-- the test of a host by a regular expression
value_of : Option HostRegex → Text → Bool
value_of none host = true
value_of (some r) host = host_matches r host

-- What the host of a pattern means for the host of a URL: "" and "*" match all hosts; "*.domain" those
-- that end with a dot and the domain behind some text; "*domain" these and the domain; and any
-- other pattern itself alone.
pub record Means (b : Bool) (pattern host : Text) : Type 0 where
  pub unbounded : (pattern ≡ []) ⊎ (pattern ≡ codes "*") → b ≡ true
  pub below :
      (domain : Text) → pattern ≡ codes "*." ++ domain → (b ≡ true) ↔ IsBelow host (b'.' ∷ domain)
  pub at_or_below :
      (c : ℕ) (domain : Text)
      → pattern ≡ b'*' ∷ c ∷ domain
      → c ≢ b'.'
      → (b ≡ true) ↔ ((host ≡ c ∷ domain) ⊎ IsBelow host (b'.' ∷ c ∷ domain))
  pub exact : (c : ℕ) (rest : Text) → pattern ≡ c ∷ rest → c ≢ b'*' → (b ≡ true) ↔ (host ≡ c ∷ rest)

regex-star :
    (c : ℕ) (d : Text) → c ≢ b'.' → host_regex_of (b'*' ∷ c ∷ d) ≡ some (at_or_below (c ∷ d))
unfolding host_regex_of starts_with list_beq
regex-star c d h = ground arith

regex-exact : (c : ℕ) (d : Text) → c ≢ b'*' → host_regex_of (c ∷ d) ≡ some (exactly (c ∷ d))
unfolding host_regex_of starts_with list_beq
regex-exact c d h = ground arith

value_of-Means : (pattern host : Text) → Means (value_of (host_regex_of pattern) host) pattern host
unfolding value_of
value_of-Means pattern host = record {
  unbounded = λ h. elim h [
    | inl e ↦ rw e (unfold host_regex_of in refl)
    | inr e ↦ rw e (unfold host_regex_of list_beq in refl)
  ];
  below =
      λ d e. rw e (unfold host_regex_of list_beq starts_with in host_matches_iff (below d) host);
  at_or_below = λ c d e n. rw (e, regex-star c d n) (host_matches_iff (at_or_below (c ∷ d)) host);
  exact = λ c d e n. rw (e, regex-exact c d n) (host_matches_iff (exactly (c ∷ d)) host);
}

regex_fits-value :
    (r : Option HostRegex) (host : Text) → regex_fits r (ok host) ≡ ok (value_of r host)
unfolding regex_fits value_of
regex_fits-value none host = refl
regex_fits-value (some r) host = refl

unbound : (s : Text) → is_nil (if s == codes "*" then [] else s) ≡ true → host_regex_of s ≡ none
unfolding host_regex_of
unbound s e = ground arith

module _ (p : UrlPlatform) (text : Text) (u other : Url) (host : Text)
    (h : Url.host p other ≡ ok host) where
  host_fits-value :
      (pattern : Text)
      → host_fits p (pattern_of p text u pattern) other ≡ ok (value_of (host_regex_of pattern) host)
  unfolding host_fits pattern_of value_of
  host_fits-value pattern =
      elim (Bool-cases (is_nil (if pattern == codes "*" then [] else pattern))) [
        | inr e ↦ rw (e, h) (regex_fits-value (host_regex_of pattern) host)
        | inl e ↦ rw e (ap (λ r. ok (value_of r host)) (sym (unbound pattern e)))
      ]

  -- The pattern that is made of a URL with some host says of a URL whose host can be decoded: "" and "*"
  -- fit all hosts; "*.domain" those that end with a dot and the domain behind some text; "*domain"
  -- these and the domain; and any other host itself alone.
  pub host_fits-Means :
      (pattern : Text)
      → (b : Bool) × (host_fits p (pattern_of p text u pattern) other ≡ ok b) × Means b pattern host
  host_fits-Means pattern =
      (value_of (host_regex_of pattern) host, host_fits-value pattern, value_of-Means pattern host)
