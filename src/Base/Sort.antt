-- ===== src/Base/Sort.antt =====
-- A stable sort by a Boolean order, for `sorted` and `ORDER BY`, and the writing of one row.
use Prim.Native.Nat.{ℕ}
use mathlib.Core.Path.{◌≡◌, refl, sym, subst}
use mathlib.Core.Logic.{◌⊎◌, inl, inr}
use mathlib.Core.Bool.{Bool, true, false}
use mathlib.Core.List.{List, [], ◌∷◌, Memᴰ}
use enterprise_management.Base.Lists.{filter, mem-filter}
use enterprise_management.Base.Table.{uncons}
use enterprise_management.Base.Tests.{if◌then◌else◌, Bool-cases, ◌==◌, leb, ltb}

module _ {ℓ} {A : Type ℓ} where
  -- Before the first element that must come strictly later.
  abbrev pub insert_by : (A → A → Bool) → A → List A → List A
  insert_by le a [] = a ∷ []
  insert_by le a (x ∷ xs) = let rest = insert_by le a xs in if le a x then a ∷ x ∷ xs else x ∷ rest

  abbrev pub sort_by : (A → A → Bool) → List A → List A
  sort_by le [] = []
  sort_by le (x ∷ xs) = insert_by le x (sort_by le xs)

module _ {ℓ} {A : Type ℓ} (le : A → A → Bool) where
  insert_by-self : (a : A) (xs : List A) → Memᴰ a (insert_by le a xs)
  insert_by-self a [] = Memᴰ.head refl
  insert_by-self a (x ∷ xs) = elim (Bool-cases (le a x)) [
    | inl e ↦ rw e (Memᴰ.head refl)
    | inr e ↦ rw e (Memᴰ.tail (insert_by-self a xs))
  ]

  insert_by-mem : {b : A} (a : A) {xs : List A} → Memᴰ b xs → Memᴰ b (insert_by le a xs)
  insert_by-mem a (Memᴰ.head {x = x} {xs = xs} e) = elim (Bool-cases (le a x)) [
    | inl t ↦ rw t (Memᴰ.tail (Memᴰ.head e))
    | inr t ↦ rw t (Memᴰ.head e)
  ]
  insert_by-mem a (Memᴰ.tail {x = x} {xs = xs} m) = elim (Bool-cases (le a x)) [
    | inl t ↦ rw t (Memᴰ.tail (Memᴰ.tail m))
    | inr t ↦ rw t (Memᴰ.tail (insert_by-mem a m))
  ]

  mem-insert_by : {b : A} (a : A) (xs : List A) → Memᴰ b (insert_by le a xs) → (b ≡ a) ⊎ Memᴰ b xs
  mem-insert_by a [] m = uncons m
  mem-insert_by {b} a (x ∷ xs) m =
      let at : Bool → Type ℓ = λ t. Memᴰ b (if t then a ∷ x ∷ xs else x ∷ insert_by le a xs) in
      elim (Bool-cases (le a x)) [
        | inl t ↦ uncons (subst at t m)
        | inr t ↦ elim (uncons (subst at t m)) [
          | inl e ↦ inr (Memᴰ.head e)
          | inr later ↦ elim (mem-insert_by a xs later) [
            | inl e ↦ inl e
            | inr n ↦ inr (Memᴰ.tail n)
          ]
        ]
      ]

  pub sort_by-mem : {b : A} {xs : List A} → Memᴰ b xs → Memᴰ b (sort_by le xs)
  sort_by-mem {b} (Memᴰ.head {x = x} {xs = xs} e) =
      subst (λ (y : A). Memᴰ y (insert_by le x (sort_by le xs))) (sym e)
        (insert_by-self x (sort_by le xs))
  sort_by-mem (Memᴰ.tail {x = x} m) = insert_by-mem x (sort_by-mem m)

  pub mem-sort_by : {b : A} (xs : List A) → Memᴰ b (sort_by le xs) → Memᴰ b xs
  mem-sort_by [] m = elim m [ ]
  mem-sort_by (x ∷ xs) m = elim (mem-insert_by x (sort_by le xs) m) [
    | inl e ↦ Memᴰ.head e
    | inr n ↦ Memᴰ.tail (mem-sort_by xs n)
  ]

-- Each element stands before all later ones in the order.
abbrev pub Sorted {ℓ} : {A : Type ℓ} → (A → A → Bool) → List A → Type ℓ
Sorted le [] = Unit
Sorted {A = A} le (x ∷ xs) = ((y : A) → Memᴰ y xs → le x y ≡ true) × Sorted le xs

module _ {ℓ} {A : Type ℓ} (le : A → A → Bool) (total : (a b : A) → le a b ≡ false → le b a ≡ true)
    (trans : (a b c : A) → le a b ≡ true → le b c ≡ true → le a c ≡ true) where
  insert_by-Sorted : (a : A) (xs : List A) → Sorted le xs → Sorted le (insert_by le a xs)
  insert_by-Sorted a [] s = (λ y m. elim m [ ], tt)
  insert_by-Sorted a (x ∷ xs) (first, s) = elim (Bool-cases (le a x)) [
    | inl e ↦ rw e (
      λ y m. elim (uncons m) [
        | inl same ↦ subst (λ (z : A). le a z ≡ true) (sym same) e
        | inr n ↦ trans a x y e (first y n)
      ],
      (first, s),
    )
    | inr e ↦ rw e (
      λ y m. elim (mem-insert_by le a xs m) [
        | inl same ↦ subst (λ (z : A). le x z ≡ true) (sym same) (total a x e)
        | inr n ↦ first y n
      ],
      insert_by-Sorted a xs s,
    )
  ]

  pub sort_by-Sorted : (xs : List A) → Sorted le (sort_by le xs)
  sort_by-Sorted [] = tt
  sort_by-Sorted (x ∷ xs) = insert_by-Sorted x (sort_by le xs) (sort_by-Sorted xs)

-- An order by two keys.
abbrev pub lex : ℕ → ℕ → ℕ → ℕ → Bool
lex a b c d = if ltb a c then true else if a == c then leb b d else false

-- What remains of a sorted list is sorted.
pub filter-Sorted {ℓ} :
    {A : Type ℓ} (le : A → A → Bool) (p : A → Bool) (xs : List A)
    → Sorted le xs
    → Sorted le (filter p xs)
filter-Sorted le p [] sorted = tt
filter-Sorted le p (x ∷ xs) (first, sorted) = elim (Bool-cases (p x)) [
  | inl e ↦ rw e (λ y m. first y (mem-filter p xs m).0, filter-Sorted le p xs sorted)
  | inr e ↦ rw e (filter-Sorted le p xs sorted)
]
