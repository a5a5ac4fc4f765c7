-- ===== src/Models/Headers/Entries/Assigned.antt =====
-- The loops of `__setitem__` and `__delitem__` over indexes, as passes over the list.
use httpxp.Prelude.{
  All, Bool, Bool-cases, Bytes, List, [], ap, arith, if◌then◌else◌, inl, inr, keep, lower, map, not,
  refl, suc, ℕ, ◌+◌, ◌==◌, ◌∙◌, ◌∷◌, ◌≡◌, nat_eq, list_eq,
}
use httpxp.Models.Headers.Entries.{
  matches_lower, del_entries, Entry, matches, found_indexes, delete_at, delete_reversed, assign_at,
  assign_found, set_entry,
}

found_indexes-suc :
    (t : Entry → Bool) (i : ℕ) (l : List Entry)
    → found_indexes t (i + 1) l ≡ map suc (found_indexes t i l)
unfolding found_indexes
found_indexes-suc t i [] = refl
found_indexes-suc t i (e ∷ l) = elim (Bool-cases (t e)) [
  | inl h ↦
      rw (h, found_indexes-suc t (i + 1) l)
        (ap (λ (j : ℕ). j ∷ map suc (found_indexes t (i + 1) l)) (omega arith))
  | inr h ↦ rw (h, found_indexes-suc t (i + 1) l)
]

delete_reversed-suc :
    (is : List ℕ) (e : Entry) (l : List Entry)
    → delete_reversed (map suc is) (e ∷ l) ≡ e ∷ delete_reversed is l
unfolding delete_reversed delete_at
delete_reversed-suc [] e l = refl
delete_reversed-suc (i ∷ is) e l = rw (delete_reversed-suc is e l)

-- what is left of a list when what the test accepts is deleted
pub delete_reversed-eq-keep :
    (t : Entry → Bool) (l : List Entry)
    → delete_reversed (found_indexes t 0 l) l ≡ keep (λ e. not (t e)) l
unfolding delete_reversed found_indexes
delete_reversed-eq-keep t [] = refl
delete_reversed-eq-keep t (e ∷ l) = elim (Bool-cases (t e)) [
  | inl h ↦
      rw (h, found_indexes-suc t 0 l, delete_reversed-suc, delete_reversed-eq-keep t l)
        (unfold delete_at in refl)
  | inr h ↦ rw (h, found_indexes-suc t 0 l, delete_reversed-suc, delete_reversed-eq-keep t l)
]

-- The entry stands in the place of the first with its key, and the others with its key are gone.
unfoldable pub assigned : Entry → List Entry → List Entry
assigned e [] = e ∷ []
assigned e (d ∷ l) =
    let rest = assigned e l in
    if matches e.key d then e ∷ keep (λ x. not (matches e.key x)) l else d ∷ rest

assign_found-suc :
    (is : List ℕ) (e d : Entry) (l : List Entry)
    → assign_found (map suc is) e (d ∷ l) ≡ d ∷ assign_found is e l
unfolding assign_found assign_at
assign_found-suc [] e d l = refl
assign_found-suc (i ∷ is) e d l = rw (delete_reversed-suc is d l)

assign_found-first :
    (e d : Entry) (l : List Entry)
    → assign_found (0 ∷ map suc (found_indexes (matches e.key) 0 l)) e (d ∷ l)
      ≡ e ∷ keep (λ x. not (matches e.key x)) l
unfolding assign_found assign_at
assign_found-first e d l =
    ap (assign_at 0 e) (delete_reversed-suc (found_indexes (matches e.key) 0 l) d l)
    ∙ ap (λ t. e ∷ t) (delete_reversed-eq-keep (matches e.key) l)

assign_found-eq-assigned :
    (e : Entry) (l : List Entry)
    → assign_found (found_indexes (matches e.key) 0 l) e l ≡ assigned e l
unfolding assigned found_indexes
assign_found-eq-assigned e [] = unfold assign_found in refl
assign_found-eq-assigned e (d ∷ l) = elim (Bool-cases (matches e.key d)) [
  | inl h ↦ rw (h, found_indexes-suc (matches e.key) 0 l) (assign_found-first e d l)
  | inr h ↦
      rw (h, found_indexes-suc (matches e.key) 0 l)
        (assign_found-suc (found_indexes (matches e.key) 0 l) e d l
          ∙ ap (λ t. d ∷ t) (assign_found-eq-assigned e l))
]

-- Assigning at the first index found, after the deletion of the later ones, puts the entry in the
-- place of the first with its key and drops the others with that key; without one it appends.
pub set_entry-eq-assigned : (e : Entry) (l : List Entry) → set_entry e l ≡ assigned e l
unfolding set_entry
set_entry-eq-assigned e l = assign_found-eq-assigned e l

-- The deletion of `__delitem__` as a pass over the list.
pub del_entries-eq-keep :
    (k : Bytes) (l : List Entry) → del_entries k l ≡ keep (λ e. not (lower e.key == k)) l
unfolding del_entries
del_entries-eq-keep k l = delete_reversed-eq-keep (matches_lower k) l

keep-All {κ} : (P : Entry → Type κ) (p : Entry → Bool) (l : List Entry) → All P l → All P (keep p l)
keep-All P p [] h = tt
keep-All P p (e ∷ l) (h, hs) = elim (Bool-cases (p e)) [
  | inl t ↦ rw t (h, keep-All P p l hs)
  | inr t ↦ rw t (keep-All P p l hs)
]

assigned-All :
    (P : Entry → Type 0) (e : Entry) (l : List Entry) → P e → All P l → All P (assigned e l)
unfolding assigned
assigned-All P e [] p h = (p, tt)
assigned-All P e (d ∷ l) p (h, hs) = elim (Bool-cases (matches e.key d)) [
  | inl t ↦ rw t (p, keep-All P _ l hs)
  | inr t ↦ rw t (h, assigned-All P e l p hs)
]

-- What holds of every entry still holds after an assignment of one of which it holds.
pub set_entry-All :
    (P : Entry → Type 0) (e : Entry) (l : List Entry) → P e → All P l → All P (set_entry e l)
set_entry-All P e l p h = rw (set_entry-eq-assigned e l) (assigned-All P e l p h)

pub del_entries-All :
    (P : Entry → Type 0) (k : Bytes) (l : List Entry) → All P l → All P (del_entries k l)
del_entries-All P k l h = rw (del_entries-eq-keep k l) (keep-All P _ l h)
