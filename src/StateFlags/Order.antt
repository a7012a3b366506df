-- ===== src/StateFlags/Order.antt =====
-- The order of the state fields, and the keys of the mapping.
use enterprise_management.Base.{
  get, put, ℕ, ◌≡◌, refl, some, false, not, List, [], ◌∷◌, ◌++◌, ◌==◌, filter, arith,
}
use enterprise_management.StateFlags.{
  StateRow, ByValue, FlagMap, add_rows, get_flag_map, in_application_order,
}

-- No key stands twice.
abbrev pub IsFresh {ℓ} : {V : Type ℓ} → ℕ → List (ℕ × V) → Type 0
IsFresh k [] = Unit {0}
IsFresh k ((j, v) ∷ rest) = ((j == k) ≡ false) × IsFresh k rest

abbrev pub HasUniqueKeys {ℓ} : {V : Type ℓ} → List (ℕ × V) → Type 0
HasUniqueKeys [] = Unit {0}
HasUniqueKeys ((j, v) ∷ rest) = IsFresh j rest × HasUniqueKeys rest

module _ {ℓ} {V : Type ℓ} where
  put-IsFresh :
      (j k : ℕ) (v : V) (m : List (ℕ × V)) → (k == j) ≡ false → IsFresh j m → IsFresh j (put k v m)
  put-IsFresh j k v [] h f = (h, tt)
  put-IsFresh j k v ((i, w) ∷ m) h f = ground (arith, put-IsFresh j k v m h f.1)

  put-HasUniqueKeys :
      (k : ℕ) (v : V) (m : List (ℕ × V)) → HasUniqueKeys m → HasUniqueKeys (put k v m)
  put-HasUniqueKeys k v [] u = (tt, tt)
  put-HasUniqueKeys k v ((i, w) ∷ m) u =
      ground (arith, put-HasUniqueKeys k v m u.1, put-IsFresh i k v m)

  -- In a mapping with unique keys, the entries under a key are the one that lookup finds.
  filter-fresh : (f : ℕ) (m : List (ℕ × V)) → IsFresh f m → filter (λ i. i.0 == f) m ≡ []
  filter-fresh f [] h = refl
  filter-fresh f ((i, w) ∷ m) h = ground (arith, filter-fresh f m h.1)

  filter-get :
      (f : ℕ) (m : List (ℕ × V)) (v : V)
      → HasUniqueKeys m
      → get f m ≡ some v
      → filter (λ i. i.0 == f) m ≡ (f, v) ∷ []
  filter-get f [] v u h = cc
  filter-get f ((i, w) ∷ m) v u h = ground (arith, filter-get f m v u.1, filter-fresh f m)

add_rows-HasUniqueKeys :
    (rows : List StateRow) (m : FlagMap) → HasUniqueKeys m → HasUniqueKeys (add_rows rows m)
unfolding add_rows
add_rows-HasUniqueKeys [] m u = u
add_rows-HasUniqueKeys (r ∷ rows) m u = add_rows-HasUniqueKeys rows _ (put-HasUniqueKeys _ _ m u)

pub get_flag_map-HasUniqueKeys :
    (rows : List StateRow) (doctype : ℕ) → HasUniqueKeys (get_flag_map rows doctype)
unfolding get_flag_map
get_flag_map-HasUniqueKeys rows doctype =
    add_rows-HasUniqueKeys (filter (λ r. r.target_doctype == doctype) rows) [] tt

-- The field that the workflow runs on is applied last.
pub in_application_order-last :
    (f : ℕ) (m : FlagMap) {v : ByValue}
    → HasUniqueKeys m
    → get f m ≡ some v
    → (before : FlagMap) × (in_application_order (some f) m ≡ before ++ (f, v) ∷ [])
unfolding in_application_order
in_application_order-last f [] u h = cc
in_application_order-last f ((i, w) ∷ []) u h = ([], ground arith)
in_application_order-last f ((i, w) ∷ (j, x) ∷ m) {v} u h = (
  filter (λ i. not (i.0 == f)) ((i, w) ∷ (j, x) ∷ m),
  rw (filter-get f ((i, w) ∷ (j, x) ∷ m) v u h),
)
