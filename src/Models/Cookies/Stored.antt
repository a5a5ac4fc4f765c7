-- ===== src/Models/Cookies/Stored.antt =====
-- What the jar holds after a change.
use httpxp.Prelude.{
  ==_iff, Bool, Bool-cases, Option, Text, [], ap, false, if◌then◌else◌, inl, inr, none, refl, some,
  true, ◌&&◌, ◌==◌, ◌≡◌, ◌⊎◌, nat_eq, list_eq,
}
use httpxp.Dict
use httpxp.Dict.{Dict}
use httpxp.Exceptions.{key_error}
use httpxp.Exceptions.Result.{ok, err}
use httpxp.Models.Cookies.{
  Cookie, Jar, clear_cookie, del, delete, get_item, or_key_error, or_empty, set, set_cookie,
}

-- The cookie of a domain, a path and a name.
abbrev pub cookie_at : Text → Text → Text → Jar → Option Cookie
cookie_at domain path name jar =
    Dict.lookup name (or_empty (Dict.lookup path (or_empty (Dict.lookup domain jar))))

-- a dictionary put at one key is found there, and elsewhere what was there before
or_empty-put :
    {V : Type 0} (k j : Text) (inner : Dict V) (d : Dict (Dict V))
    → or_empty (Dict.lookup j (Dict.put k inner d))
      ≡ (if k == j then inner else or_empty (Dict.lookup j d))
or_empty-put k j inner d = elim (Bool-cases (k == j)) [
  | inl e ↦ simp (Dict.lookup-put k j inner d, e) refl
  | inr e ↦ simp (Dict.lookup-put k j inner d, e) refl
]

option-cases : {A : Type 0} (o : Option A) → (o ≡ none) ⊎ (a : A) × (o ≡ some a)
option-cases none = inl refl
option-cases (some a) = inr (a, refl)

lookup-nil : {V : Type 0} (k : Text) → Dict.lookup {V = V} k [] ≡ none
unfolding Dict.lookup
lookup-nil k = refl

lookup-empty :
    (domain path name : Text) (jar : Jar)
    → Dict.lookup domain jar ≡ none
    → cookie_at domain path name jar ≡ none
lookup-empty domain path name jar h = simp (h, lookup-nil) refl

-- A change at one name, path and domain: what it leaves there is the given option.
module _ (x : Option Cookie) (name : Text) where
  change-path :
      (path p n : Text) (names : Dict Cookie) (paths : Dict (Dict Cookie))
      → ((m : Text)
          → Dict.lookup m names
            ≡ (if name == m then x else Dict.lookup m (or_empty (Dict.lookup path paths))))
      → Dict.lookup n (or_empty (Dict.lookup p (Dict.put path names paths)))
        ≡ (if path == p && name == n then x else Dict.lookup n (or_empty (Dict.lookup p paths)))
  change-path path p n names paths h = elim (Bool-cases (path == p)) [
    | inl e ↦
        simp (or_empty-put path p names paths, e, h n)
          (ap (λ q. if name == n then x else Dict.lookup n (or_empty (Dict.lookup q paths)))
            ((==_iff path p).0 e))
    | inr e ↦ simp (or_empty-put path p names paths, e) refl
  ]

  change-domain :
      (domain path d p n : Text) (paths : Dict (Dict Cookie)) (jar : Jar)
      → ((q m : Text)
          → Dict.lookup m (or_empty (Dict.lookup q paths))
            ≡ (if path == q && name == m then x else cookie_at domain q m jar))
      → cookie_at d p n (Dict.put domain paths jar)
        ≡ (if domain == d && (path == p && name == n) then x else cookie_at d p n jar)
  change-domain domain path d p n paths jar h = elim (Bool-cases (domain == d)) [
    | inl e ↦
        simp (or_empty-put domain d paths jar, e, h p n)
          (ap (λ q. if path == p && name == n then x else cookie_at q p n jar)
            ((==_iff domain d).0 e))
    | inr e ↦ simp (or_empty-put domain d paths jar, e) refl
  ]

get_item-none :
    {V : Type 0} (k : Text) (d : Dict V) → Dict.lookup k d ≡ none → get_item k d ≡ err key_error
unfolding get_item
get_item-none k d h = ap or_key_error h

get_item-some :
    {V : Type 0} (k : Text) (d : Dict V) (v : V) → Dict.lookup k d ≡ some v → get_item k d ≡ ok v
unfolding get_item
get_item-some k d v h = ap or_key_error h

del-eq :
    {V : Type 0} (k : Text) (d : Dict V) (b : Bool)
    → Dict.has k d ≡ b
    → del k d ≡ (if b then ok (Dict.without k d) else err key_error)
unfolding del
del-eq k d b h = rw h refl

-- After a cookie is set, it is the one of its domain, path and name, and every other is as before.
pub set-cookie_at :
    (name value domain path d p n : Text) (jar : Jar)
    → cookie_at d p n (set name value domain path jar) ≡ (
        if domain == d && (path == p && name == n)
        then some (record { name = name; value = some value; domain = domain; path = path })
        else cookie_at d p n jar)
unfolding set set_cookie
set-cookie_at name value domain path d p n jar =
    let c : Cookie = record { name = name; value = some value; domain = domain; path = path } in
    let paths = or_empty (Dict.lookup domain jar) in
    let names = or_empty (Dict.lookup path paths) in
    change-domain (some c) name domain path d p n (Dict.put path (Dict.put name c names) paths) jar
      λ q m.
        change-path (some c) name path q m (Dict.put name c names) paths
          λ k. Dict.lookup-put name k c names

-- Deleting a cookie of a given domain and path raises KeyError if there is none with the name, and
-- otherwise leaves every other cookie and no such one.
pub delete-cookie_at :
    (name domain path : Text) (jar : Jar)
    → (cookie_at domain path name jar ≡ none)
        × (delete name (some domain) (some path) jar ≡ err key_error)
      ⊎ (left : Jar) × (delete name (some domain) (some path) jar ≡ ok left)
        × ((d p n : Text)
            → cookie_at d p n left
              ≡ (if domain == d && (path == p && name == n) then none else cookie_at d p n jar))
unfolding delete clear_cookie
delete-cookie_at name domain path jar = elim (option-cases (Dict.lookup domain jar)) [
  | inl e ↦ inl (lookup-empty domain path name jar e, rw (get_item-none domain jar e) refl)
  | inr (paths, e) ↦ elim (option-cases (Dict.lookup path paths)) [
    | inl f ↦ inl (
      simp (e, f, lookup-nil) refl,
      rw (get_item-some domain jar paths e, get_item-none path paths f) refl,
    )
    | inr (names, f) ↦ elim (Bool-cases (Dict.has name names)) [
      | inl h ↦ inr (
        Dict.put domain (Dict.put path (Dict.without name names) paths) jar,
        rw
            (
              get_item-some domain jar paths e,
              get_item-some path paths names f,
              del-eq name names true h,
            )
            refl,
        λ d p n.
            change-domain none name domain path d p n
              (Dict.put path (Dict.without name names) paths) jar
              (simp e (λ q m.
                change-path none name path q m (Dict.without name names) paths
                  (simp f (λ k. Dict.lookup-without name k names)))),
      )
      | inr h ↦ inl (
        simp (e, f) (Dict.lookup-of_not_has name names h),
        rw
            (
              get_item-some domain jar paths e,
              get_item-some path paths names f,
              del-eq name names false h,
            )
            refl,
      )
    ]
  ]
]
