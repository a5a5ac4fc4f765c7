-- ===== src/Proxies/Order.antt =====
-- The order of the patterns, the sorted mounts and the search for the first that matches.
use httpxp.Prelude.{
  All, Bool, Bool-cases, List, Option, Text, [], append_assoc, arith, false, if◌then◌else◌, inl,
  inr, length, none, refl, some, sym, true, ◌&&◌, ◌++◌, ◌<◌, ◌↔◌, ◌∙◌, ◌∷◌, ◌≡◌, ◌≢◌, ◌⊎◌, list_eq,
}
use httpxp.Exceptions.Result.{ok}
use httpxp.UrlParse.Port.{ℤ}
use httpxp.Urls.Url
use httpxp.Urls.Url.{Url, UrlPlatform}
use httpxp.Proxies.{
  first_match, port_priority, priority, Mount, UrlPattern, Priority, priority_lt, lt, insert_mount,
  sorted,
}
use httpxp.Proxies.Fits.{Fits, matches-Fits}

priority_lt_trans :
    (p q r : Priority) → priority_lt q p ≡ false → priority_lt r q ≡ false → priority_lt r p ≡ false
unfolding priority_lt
priority_lt_trans p q r h k = ground arith

priority_lt_asymm : (p q : Priority) → priority_lt p q ≡ true → priority_lt q p ≡ false
unfolding priority_lt
priority_lt_asymm p q h = ground arith

-- no mount of the list stands before the given one
abbrev IsBefore : Mount → List Mount → Type 0
IsBefore m mounts = All (λ n. lt n.pattern m.pattern ≡ false) mounts

abbrev IsOrdered : List Mount → Type 0
IsOrdered [] = Unit
IsOrdered (m ∷ mounts) = IsBefore m mounts × IsOrdered mounts

module _ (P : Mount → Type 0) where
  insert_mount-All :
      (m : Mount) (mounts : List Mount) → P m → All P mounts → All P (insert_mount m mounts)
  unfolding insert_mount
  insert_mount-All m [] h hs = (h, tt)
  insert_mount-All m (n ∷ mounts) h (k, ks) = elim (Bool-cases (lt n.pattern m.pattern)) [
    | inl e ↦ rw e (k, insert_mount-All m mounts h ks)
    | inr e ↦ rw e (h, (k, ks))
  ]

  inserted-cases :
      (b : Bool) (m n : Mount) (mounts inserted : List Mount)
      → All P (if b then n ∷ inserted else m ∷ n ∷ mounts)
      → (All P inserted → P m × All P mounts)
      → P m × (P n × All P mounts)
  inserted-cases true m n mounts inserted (h, hs) k = let (p, ps) = k hs in (p, (h, ps))
  inserted-cases false m n mounts inserted h k = h

  All-of_insert_mount :
      (m : Mount) (mounts : List Mount) → All P (insert_mount m mounts) → P m × All P mounts
  unfolding insert_mount
  All-of_insert_mount m [] h = h
  All-of_insert_mount m (n ∷ mounts) h =
      inserted-cases (lt n.pattern m.pattern) m n mounts (insert_mount m mounts) h
        (All-of_insert_mount m mounts)

  sorted-All : (mounts : List Mount) → All P mounts → All P (sorted mounts)
  unfolding sorted
  sorted-All [] h = tt
  sorted-All (m ∷ mounts) (h, hs) = insert_mount-All m (sorted mounts) h (sorted-All mounts hs)

  All-of_sorted : (mounts : List Mount) → All P (sorted mounts) → All P mounts
  unfolding sorted
  All-of_sorted [] h = tt
  All-of_sorted (m ∷ mounts) h =
      let (k, ks) = All-of_insert_mount m (sorted mounts) h in (k, All-of_sorted mounts ks)

IsBefore-lt :
    (m n : Mount) (mounts : List Mount)
    → lt n.pattern m.pattern ≡ true
    → IsBefore n mounts
    → IsBefore n (m ∷ mounts)
unfolding lt
IsBefore-lt m n mounts h k = (priority_lt_asymm (priority n.pattern) (priority m.pattern) h, k)

IsBefore-trans :
    (m n : Mount) (mounts : List Mount)
    → lt n.pattern m.pattern ≡ false
    → IsBefore n mounts
    → IsBefore m mounts
unfolding lt
IsBefore-trans m n [] h k = tt
IsBefore-trans m n (o ∷ mounts) h (k, ks) = (
  priority_lt_trans (priority m.pattern) (priority n.pattern) (priority o.pattern) h k,
  IsBefore-trans m n mounts h ks,
)

insert_mount-IsOrdered :
    (m : Mount) (mounts : List Mount) → IsOrdered mounts → IsOrdered (insert_mount m mounts)
unfolding insert_mount
insert_mount-IsOrdered m [] h = (tt, tt)
insert_mount-IsOrdered m (n ∷ mounts) (h, hs) = elim (Bool-cases (lt n.pattern m.pattern)) [
  | inl e ↦ rw e (
    let (k, ks) = IsBefore-lt m n mounts e h in
        insert_mount-All (λ o. lt o.pattern n.pattern ≡ false) m mounts k ks,
    insert_mount-IsOrdered m mounts hs,
  )
  | inr e ↦ rw e ((e, IsBefore-trans m n mounts e h), (h, hs))
]

sorted-IsOrdered : (mounts : List Mount) → IsOrdered (sorted mounts)
unfolding sorted
sorted-IsOrdered [] = tt
sorted-IsOrdered (m ∷ mounts) = insert_mount-IsOrdered m (sorted mounts) (sorted-IsOrdered mounts)

-- A pattern is more specific: it has a port and the other has none; or both have one or none, and its
-- host is longer, or as long and its scheme is longer.
abbrev pub IsMoreSpecific : UrlPattern → UrlPattern → Type 0
IsMoreSpecific p q =
    ((p.port ≢ none) × (q.port ≡ none))
    ⊎ (((p.port ≡ none) ↔ (q.port ≡ none))
        × ((length q.host < length p.host)
            ⊎ ((length p.host ≡ length q.host) × (length q.scheme < length p.scheme))))

port_priority-none : (o : Option ℤ) → o ≡ none → port_priority o ≡ 1
unfolding port_priority
port_priority-none none h = refl
port_priority-none (some q) h = absurd (cc h)

port_priority-some : (o : Option ℤ) → o ≢ none → port_priority o ≡ 0
unfolding port_priority
port_priority-some none h = absurd (h refl)
port_priority-some (some q) h = refl

port_priority-same : (o r : Option ℤ) → (o ≡ none) ↔ (r ≡ none) → port_priority o ≡ port_priority r
unfolding port_priority
port_priority-same none none h = refl
port_priority-same (some o) (some r) h = refl
port_priority-same none (some r) h = absurd (cc (h.0 refl))
port_priority-same (some o) none h = absurd (cc (h.1 refl))

lt-of_specific : (p q : UrlPattern) → IsMoreSpecific p q → lt p q ≡ true
unfolding lt priority_lt priority
lt-of_specific p q h = elim h [
  | inl (a, b) ↦ ground (arith, port_priority-some p.port a, port_priority-none q.port b)
  | inr (a, inl b) ↦ ground (arith, port_priority-same p.port q.port a, b)
  | inr (a, inr (b, c)) ↦ ground (arith, port_priority-same p.port q.port a, b, c)
]

module _ (p : UrlPlatform) (url : Url) (host : Text) (decoded : Url.host p url ≡ ok host) where
  fits : Mount → Bool
  fits m = (matches-Fits p url host decoded m.pattern).0

  first_of : List Mount → Option Mount
  first_of [] = none
  first_of (m ∷ mounts) = let rest = first_of mounts in if fits m then some m else rest

  first_match-eq : (mounts : List Mount) → first_match p mounts url ≡ ok (first_of mounts)
  unfolding first_match first_of fits
  first_match-eq [] = refl
  first_match-eq (m ∷ mounts) =
      rw ((matches-Fits p url host decoded m.pattern).1, first_match-eq mounts)
        (ok_if _ _ (matches-Fits p url host decoded m.pattern).0)
    where
      ok_if :
          {A : Type 0} (x y : A) (b : Bool) → (if b then ok x else ok y) ≡ ok (if b then x else y)
      ok_if x y true = refl
      ok_if x y false = refl

  -- the same of a list that is searched, with a predicate in place of the list
  abbrev IsFound : (Mount → Type 0) → List Mount → Option Mount → Type 0
  IsFound P mounts none = All (λ m. fits m ≡ false) mounts
  IsFound P mounts (some m) =
      P m × (fits m ≡ true) × All (λ n. (fits n && lt n.pattern m.pattern) ≡ false) mounts

  not_before :
      (m : Mount) (mounts : List Mount)
      → IsBefore m mounts
      → All (λ n. (fits n && lt n.pattern m.pattern) ≡ false) mounts
  not_before m [] h = tt
  not_before m (n ∷ mounts) (h, hs) = (ground arith, not_before m mounts hs)

  IsFound-skip :
      (P : Mount → Type 0) (m : Mount) (mounts : List Mount) (o : Option Mount)
      → fits m ≡ false
      → IsFound P mounts o
      → IsFound P (m ∷ mounts) o
  IsFound-skip P m mounts none h k = (h, k)
  IsFound-skip P m mounts (some n) h (k, e, r) = (k, e, (ground arith, r))

  lt_irrefl_at : (m : Mount) → (fits m && lt m.pattern m.pattern) ≡ false
  unfolding lt priority_lt
  lt_irrefl_at m = ground arith

  first_of-IsFound :
      (P : Mount → Type 0) (mounts : List Mount)
      → All P mounts
      → IsOrdered mounts
      → IsFound P mounts (first_of mounts)
  unfolding first_of
  first_of-IsFound P [] h o = tt
  first_of-IsFound P (m ∷ mounts) (h, hs) (o, os) = elim (Bool-cases (fits m)) [
    | inl e ↦ rw e (h, e, (lt_irrefl_at m, not_before m mounts o))
    | inr e ↦ rw e (IsFound-skip P m mounts (first_of mounts) e (first_of-IsFound P mounts hs os))
  ]

  -- What is chosen of some mounts: a mount of them that fits, while none that fits is more specific;
  -- nothing only if none fits.
  abbrev pub IsChosen : List Mount → Option Mount → Type 0
  IsChosen mounts none = All (λ m. Fits url host m.pattern → ⊥) mounts
  IsChosen mounts (some m) =
      ((before : List Mount) × (after : List Mount) × (mounts ≡ before ++ m ∷ after))
      × Fits url host m.pattern
      × All (λ n. Fits url host n.pattern → IsMoreSpecific n.pattern m.pattern → ⊥) mounts

  not_fits : (mounts : List Mount) → All (λ m. fits m ≡ false) mounts → IsChosen mounts none
  unfolding fits
  not_fits [] h = tt
  not_fits (m ∷ mounts) (h, hs) = (
    λ f.
        let z : true ≡ false = sym ((matches-Fits p url host decoded m.pattern).2.1 f) ∙ h in
        absurd (cc z),
    not_fits mounts hs,
  )

  not_specific :
      (m : Mount) (mounts : List Mount)
      → All (λ n. (fits n && lt n.pattern m.pattern) ≡ false) mounts
      → All (λ n. Fits url host n.pattern → IsMoreSpecific n.pattern m.pattern → ⊥) mounts
  unfolding fits
  not_specific m [] h = tt
  not_specific m (n ∷ mounts) (h, hs) = (
    λ f g.
        let z : true ≡ false =
          sym (
            both ((matches-Fits p url host decoded n.pattern).2.1 f)
              (lt-of_specific n.pattern m.pattern g))
          ∙ h in
        absurd (cc z),
    not_specific m mounts hs,
  )
    where
      both : {b c : Bool} → b ≡ true → c ≡ true → (b && c) ≡ true
      both e f = rw (e, f) refl

  IsChosen-of_found :
      (mounts : List Mount) (o : Option Mount)
      → IsFound
          (λ m. (before : List Mount) × (after : List Mount) × (mounts ≡ before ++ m ∷ after))
          (sorted mounts)
          o
      → IsChosen mounts o
  IsChosen-of_found mounts none h = not_fits mounts (All-of_sorted _ mounts h)
  IsChosen-of_found mounts (some m) (h, e, r) = (
    h,
    (unfold fits in (matches-Fits p url host decoded m.pattern).2.0 e),
    not_specific m mounts (All-of_sorted _ mounts r),
  )

  All-members :
      (whole mounts earlier : List Mount)
      → whole ≡ earlier ++ mounts
      → All
          (λ m. (before : List Mount) × (after : List Mount) × (whole ≡ before ++ m ∷ after))
          mounts
  All-members whole [] earlier e = tt
  All-members whole (m ∷ mounts) earlier e = (
    (earlier, mounts, e),
    All-members whole mounts (earlier ++ m ∷ []) (e ∙ sym (append_assoc earlier (m ∷ []) mounts)),
  )

  -- For a URL whose host can be decoded, a mount is chosen of those of a client, which it keeps sorted:
  -- one that fits in scheme, host and port, while no other that fits is more specific, where a
  -- port counts before the length of the host, and this before the length of the scheme; none only
  -- if none fits.
  pub first_match-IsChosen :
      (mounts : List Mount)
      → (o : Option Mount) × (first_match p (sorted mounts) url ≡ ok o) × IsChosen mounts o
  first_match-IsChosen mounts = (
    first_of (sorted mounts),
    first_match-eq (sorted mounts),
    IsChosen-of_found mounts _ (
        first_of-IsFound _ (sorted mounts) (sorted-All _ mounts (All-members mounts mounts [] refl))
          (sorted-IsOrdered mounts)),
  )
