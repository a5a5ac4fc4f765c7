-- ===== src/Models/Headers/Entries.antt =====
-- `_list`: the raw key, the key in lower case and the value of each header, in order. What the
-- methods do with it once their arguments are bytes.
pub mod Assigned
pub mod Values
use httpxp.Prelude.{
  Bool, Bytes, List, [], any, if◌then◌else◌, lower, suc, zero, ℕ, ◌++◌, ◌+◌, ◌==◌, ◌∷◌, nat_eq,
  list_eq,
}

pub record Entry : Type 0 where
  pub raw : Bytes
  pub key : Bytes
  pub value : Bytes

abbrev matches : Bytes → Entry → Bool
matches k e = e.key == k

-- `[header_value for ... if header_key == k]`
unfoldable pub values_for : Bytes → List Entry → List Bytes
values_for k [] = []
values_for k (e ∷ l) = let rest = values_for k l in if e.key == k then e.value ∷ rest else rest

-- `header_key in [key for _, key, _ in self._list]`
unfoldable pub has_entry : Bytes → List Entry → Bool
has_entry k l = any (matches k) l

-- whether `pop_indexes` of `__delitem__` is not empty; its test lowers the stored key again
abbrev matches_lower : Bytes → Entry → Bool
matches_lower k e = lower e.key == k

pub has_lower_entry : Bytes → List Entry → Bool
has_lower_entry k l = any (matches_lower k) l

-- `[... if item_key.lower() == k]`
pub values_for_lower : Bytes → List Entry → List Bytes
values_for_lower k [] = []
values_for_lower k (e ∷ l) =
    let rest = values_for_lower k l in if matches_lower k e then e.value ∷ rest else rest

-- `[idx for idx, (_, item_key, _) in enumerate(self._list, i) if test(item_key)]`
pub found_indexes : (Entry → Bool) → ℕ → List Entry → List ℕ
found_indexes test i [] = []
found_indexes test i (e ∷ l) =
    let rest = found_indexes test (i + 1) l in if test e then i ∷ rest else rest

-- `del self._list[idx]`
delete_at : ℕ → List Entry → List Entry
delete_at i [] = []
delete_at zero (e ∷ l) = l
delete_at (suc i) (e ∷ l) = e ∷ delete_at i l

-- `for idx in reversed(indexes): del self._list[idx]`
pub delete_reversed : List ℕ → List Entry → List Entry
delete_reversed [] l = l
delete_reversed (i ∷ is) l = delete_at i (delete_reversed is l)

-- `self._list[idx] = e`
assign_at : ℕ → Entry → List Entry → List Entry
assign_at i e [] = []
assign_at zero e (_ ∷ l) = e ∷ l
assign_at (suc i) e (d ∷ l) = d ∷ assign_at i e l

assign_found : List ℕ → Entry → List Entry → List Entry
assign_found [] e l = l ++ e ∷ []
assign_found (i ∷ is) e l = assign_at i e (delete_reversed is l)

-- The loop of `__setitem__`.
pub set_entry : Entry → List Entry → List Entry
set_entry e l = assign_found (found_indexes (matches e.key) 0 l) e l

-- The loop of `__delitem__`.
pub del_entries : Bytes → List Entry → List Entry
del_entries k l = delete_reversed (found_indexes (matches_lower k) 0 l) l
