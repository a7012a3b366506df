-- ===== src/Base/Dict.antt =====
-- A `dict` as the list of its items, in insertion order.
use Prim.Native.Nat.{ℕ}
use mathlib.Core.Option.{Option, none, some}
use mathlib.Core.List.{List, [], ◌∷◌}
use mathlib.Core.Path.{◌≡◌, sym}
use mathlib.Core.Logic.{◌⊎◌, inl, inr}
use native.Mathlib.Omega.{arith}
use enterprise_management.Base.Tests.{==_iff, Bool-cases, if◌then◌else◌, ◌==◌}

module _ {ℓ} {V : Type ℓ} where
  abbrev pub get : ℕ → List (ℕ × V) → Option V
  get k [] = none
  get k ((j, v) ∷ rest) = let tail = get k rest in if j == k then some v else tail

  -- A new key goes to the end.
  abbrev pub put : ℕ → V → List (ℕ × V) → List (ℕ × V)
  put k v [] = (k, v) ∷ []
  put k v ((j, w) ∷ rest) =
      let tail = put k v rest in if j == k then (j, v) ∷ rest else (j, w) ∷ tail

  pub get-put :
      (k j : ℕ) (v : V) (d : List (ℕ × V)) {x : V}
      → get k (put j v d) ≡ some x
      → ((k ≡ j) × (x ≡ v)) ⊎ (get k d ≡ some x)
  get-put k j v [] h = elim (Bool-cases (j == k)) [
    | inl t ↦ inl (sym ((==_iff j k).0 t), cc (rw t at h))
    | inr t ↦ inr (rw t at h)
  ]
  get-put k j v ((i, w) ∷ rest) {x} h = ground (arith, get-put k j v rest {x = x})
