-- ===== src/Models/Headers/Entries/Values.antt =====
-- The values that stand under a key after an assignment, a deletion and an extension.
use httpxp.Prelude.{
  ==_iff, All, Bool-cases, Bytes, List, Text, [], arith, if◌then◌else◌, inl, inr, is_nil, keep,
  lower, lower_char, map, mem, not, refl, ℕ, ◌++◌, ◌==◌, ◌∷◌, ◌≡◌, nat_eq, list_eq,
}
use httpxp.Models.Headers.Entries.{
  Entry, matches, matches_lower, values_for, has_entry, has_lower_entry, set_entry, del_entries,
}
use httpxp.Models.Headers.Entries.Assigned.{
  assigned, set_entry-eq-assigned, delete_reversed-eq-keep,
}

values_for-keep :
    (k j : Bytes) (l : List Entry)
    → values_for j (keep (λ e. not (matches k e)) l) ≡ (if k == j then [] else values_for j l)
unfolding values_for
values_for-keep k j [] = ground arith
values_for-keep k j (e ∷ l) =
    ground (arith, values_for-keep k j l, ==_iff e.key k, ==_iff e.key j, ==_iff k j)

values_for-assigned :
    (e : Entry) (j : Bytes) (l : List Entry)
    → values_for j (assigned e l) ≡ (if e.key == j then e.value ∷ [] else values_for j l)
unfolding values_for assigned
values_for-assigned e j [] = refl
values_for-assigned e j (d ∷ l) = ground (
  arith,
  values_for-assigned e j l,
  values_for-keep e.key j l,
  ==_iff d.key e.key,
  ==_iff d.key j,
  ==_iff e.key j,
)

-- The stored lower-case key is the raw key in lower case.
abbrev pub IsEntry : Entry → Type 0
IsEntry e = e.key ≡ lower e.raw

lower_char-lower_char : (c : ℕ) → lower_char (lower_char c) ≡ lower_char c
unfolding lower_char
lower_char-lower_char c = ground arith

pub lower-lower : (s : Text) → lower (lower s) ≡ lower s
unfolding lower
lower-lower [] = refl
lower-lower (c ∷ s) = cc (lower_char-lower_char c, lower-lower s)

lower-key : (e : Entry) → IsEntry e → lower e.key ≡ e.key
lower-key e h = rw h (lower-lower e.raw)

values_for-lower_keep :
    (k j : Bytes) (l : List Entry)
    → All IsEntry l
    → values_for j (keep (λ e. not (matches_lower k e)) l) ≡ (if k == j then [] else values_for j l)
unfolding values_for
values_for-lower_keep k j [] h = ground arith
values_for-lower_keep k j (e ∷ l) (h, hs) = ground (
  arith,
  values_for-lower_keep k j l hs,
  lower-key e h,
  ==_iff e.key k,
  ==_iff (lower e.key) k,
  ==_iff e.key j,
  ==_iff k j,
)

-- After an assignment the key has the one value, and every other key the values that it had.
pub values_for-set_entry :
    (e : Entry) (j : Bytes) (l : List Entry)
    → values_for j (set_entry e l) ≡ (if e.key == j then e.value ∷ [] else values_for j l)
values_for-set_entry e j l = rw (set_entry-eq-assigned e l) (values_for-assigned e j l)

-- After a deletion the key has no value, and every other key the values that it had.
pub values_for-del_entries :
    (k j : Bytes) (l : List Entry)
    → All IsEntry l
    → values_for j (del_entries k l) ≡ (if k == j then [] else values_for j l)
unfolding del_entries
values_for-del_entries k j l h =
    rw (delete_reversed-eq-keep (matches_lower k) l) (values_for-lower_keep k j l h)

pub values_for-append :
    (j : Bytes) (l m : List Entry) → values_for j (l ++ m) ≡ values_for j l ++ values_for j m
unfolding values_for
values_for-append j [] m = refl
values_for-append j (e ∷ l) m = ground (arith, values_for-append j l m)

pub has_entry-eq-values_for :
    (k : Bytes) (l : List Entry) → has_entry k l ≡ not (is_nil (values_for k l))
unfolding has_entry values_for
has_entry-eq-values_for k [] = refl
has_entry-eq-values_for k (e ∷ l) = ground (arith, has_entry-eq-values_for k l)

pub has_lower_entry-eq-has_entry :
    (k : Bytes) (l : List Entry) → All IsEntry l → has_lower_entry k l ≡ has_entry k l
unfolding has_entry has_lower_entry
has_lower_entry-eq-has_entry k [] h = refl
has_lower_entry-eq-has_entry k (e ∷ l) (h, hs) =
    ground (arith, has_lower_entry-eq-has_entry k l hs, lower-key e h)

-- What holds of every stored value holds of the values found.
pub values_for-All :
    (P : Bytes → Type 0) (k : Bytes) (l : List Entry)
    → All (λ e. P e.value) l
    → All P (values_for k l)
unfolding values_for
values_for-All P k [] h = tt
values_for-All P k (e ∷ l) (h, hs) = elim (Bool-cases (e.key == k)) [
  | inl t ↦ rw t (h, values_for-All P k l hs)
  | inr t ↦ rw t (values_for-All P k l hs)
]

pub mem-keys : (k : Bytes) (l : List Entry) → mem k (map (λ e. e.key) l) ≡ has_entry k l
unfolding has_entry
mem-keys k [] = refl
mem-keys k (e ∷ l) = ground (arith, mem-keys k l, ==_iff k e.key, ==_iff e.key k)
