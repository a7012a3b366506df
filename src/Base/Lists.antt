-- ===== src/Base/Lists.antt =====
-- Lists filtered and searched by Boolean tests, and their membership laws.
use Prim.Native.Nat.{ℕ, suc, ◌≤◌}
use mathlib.Core.Path.{◌≡◌, refl, subst, ap}
use mathlib.Core.Bool.{Bool, true, false, ◌&&◌, ◌||◌}
use mathlib.Core.Option.{Option, none, some}
use mathlib.Core.Logic.{◌⊎◌, inl, inr}
use mathlib.Core.List.{◌++◌, List, [], ◌∷◌, Memᴰ}
use native.Mathlib.Omega.{arith}
use enterprise_management.Base.Tests.{if◌then◌else◌, ◌==◌, Bool-cases, ==_refl, ==_iff}

module _ {ℓ} {A : Type ℓ} where
  abbrev pub length : List A → ℕ
  length [] = 0
  length (x ∷ xs) = suc (length xs)

  abbrev pub filter : (A → Bool) → List A → List A
  filter p [] = []
  filter p (x ∷ xs) = let rest = filter p xs in if p x then x ∷ rest else rest

  abbrev pub any : (A → Bool) → List A → Bool
  any p [] = false
  any p (x ∷ xs) = p x || any p xs

  abbrev pub all : (A → Bool) → List A → Bool
  all p [] = true
  all p (x ∷ xs) = p x && all p xs

  abbrev pub find : (A → Bool) → List A → Option A
  find p [] = none
  find p (x ∷ xs) = let rest = find p xs in if p x then some x else rest

  abbrev pub is_empty : List A → Bool
  is_empty [] = true
  is_empty (x ∷ xs) = false

  abbrev pub head? : List A → Option A
  head? [] = none
  head? (x ∷ xs) = some x

  abbrev pub All {κ} : (A → Type κ) → List A → Type κ
  All P [] = Unit
  All P (x ∷ xs) = P x × All P xs

module _ {ℓ} {A : Type ℓ} (p : A → Bool) where
  filter_step :
      {a x : A} {xs ys : List A}
      → (Memᴰ a ys → Memᴰ a xs × (p a ≡ true))
      → p x ≡ true
      → Memᴰ a (x ∷ ys)
      → Memᴰ a (x ∷ xs) × (p a ≡ true)
  filter_step rest px (Memᴰ.head e) = (Memᴰ.head e, rw e px)
  filter_step rest px (Memᴰ.tail m) = (Memᴰ.tail (rest m).0, (rest m).1)

  pub mem-filter : {a : A} (xs : List A) → Memᴰ a (filter p xs) → Memᴰ a xs × (p a ≡ true)
  mem-filter [] h = elim h [ ]
  mem-filter {a} (x ∷ xs) h =
      let at : Bool → Type ℓ = λ b. Memᴰ a (if b then x ∷ filter p xs else filter p xs) in
      elim (Bool-cases (p x)) [
        | inl e ↦ filter_step (mem-filter xs) e (subst at e h)
        | inr e ↦ let (m, q) = mem-filter xs (subst at e h) in (Memᴰ.tail m, q)
      ]

  pub filter-mem : {a : A} {xs : List A} → Memᴰ a xs → p a ≡ true → Memᴰ a (filter p xs)
  filter-mem {a} (Memᴰ.head {x = x} {xs = xs} e) h =
      rw (subst (λ (y : A). p y ≡ true) e h) (Memᴰ.head e)
  filter-mem {a} (Memᴰ.tail {x = x} {xs = xs} m) h = elim (Bool-cases (p x)) [
    | inl e ↦ rw e (Memᴰ.tail (filter-mem m h))
    | inr e ↦ rw e (filter-mem m h)
  ]

  pub any-mem : (xs : List A) → any p xs ≡ true → (a : A) × Memᴰ a xs × (p a ≡ true)
  any-mem [] h = cc
  any-mem (x ∷ xs) h = elim (Bool-cases (p x)) [
    | inl e ↦ (x, Memᴰ.head refl, e)
    | inr e ↦ let (a, m, q) = any-mem xs (rw e at h) in (a, Memᴰ.tail m, q)
  ]

  pub mem-any : {a : A} {xs : List A} → Memᴰ a xs → p a ≡ true → any p xs ≡ true
  mem-any (Memᴰ.head e) h = ground (arith, subst (λ (y : A). p y ≡ true) e h)
  mem-any (Memᴰ.tail m) h = ground (arith, mem-any m h)

  pub all-mem : {a : A} {xs : List A} → Memᴰ a xs → all p xs ≡ true → p a ≡ true
  all-mem (Memᴰ.head {x = x} e) h = rw e (ground arith)
  all-mem (Memᴰ.tail {x = x} m) h = all-mem m (ground arith)

  pub length-filter-le : (xs : List A) → length (filter p xs) ≤ length xs
  length-filter-le [] = omega arith
  length-filter-le (x ∷ xs) = ground (arith, length-filter-le xs)

  pub find-mem : (xs : List A) {a : A} → find p xs ≡ some a → Memᴰ a xs × (p a ≡ true)
  find-mem [] h = cc
  find-mem (x ∷ xs) {a} h = elim (Bool-cases (p x)) [
    | inl e ↦ (Memᴰ.head (ground arith), ground arith)
    | inr e ↦ let (m, q) = find-mem xs (rw e at h) in (Memᴰ.tail m, q)
  ]

  pub find-none : {a : A} {xs : List A} → Memᴰ a xs → find p xs ≡ none → p a ≡ false
  find-none (Memᴰ.head {x = x} e) h = rw e (ground arith)
  find-none (Memᴰ.tail {x = x} m) h = find-none m (ground arith)

module _ {ℓ} {A : Type ℓ} (p q : A → Bool) (imp : (a : A) → p a ≡ true → q a ≡ true) where
  pub length-filter_mono : (xs : List A) → length (filter p xs) ≤ length (filter q xs)
  length-filter_mono [] = omega arith
  length-filter_mono (x ∷ xs) = ground (arith, length-filter_mono xs, imp x)

  pub any-filter_mono :
      (r : A → Bool) (xs : List A) → any r (filter p xs) ≡ true → any r (filter q xs) ≡ true
  any-filter_mono r [] h = cc
  any-filter_mono r (x ∷ xs) h = ground (arith, any-filter_mono r xs, imp x)

-- `name in names`.
abbrev pub contains : List ℕ → ℕ → Bool
contains xs a = any (λ x. x == a) xs

pub contains-mem : (xs : List ℕ) (a : ℕ) → contains xs a ≡ true → Memᴰ a xs
contains-mem xs a h =
    let (b, m, e) = any-mem (λ x. x == a) xs h in subst (λ (y : ℕ). Memᴰ y xs) ((==_iff b a).0 e) m

pub mem-contains : (xs : List ℕ) (a : ℕ) → Memᴰ a xs → contains xs a ≡ true
mem-contains xs a m = mem-any (λ x. x == a) m (==_refl a)

pub mem-if {ℓ} :
    {A : Type ℓ} {a : A} (b : Bool) (xs ys : List A)
    → Memᴰ a (if b then xs else ys)
    → ((b ≡ true) × Memᴰ a xs) ⊎ ((b ≡ false) × Memᴰ a ys)
mem-if true xs ys h = inl (refl, h)
mem-if false xs ys h = inr (refl, h)

pub mem-single {ℓ} : {A : Type ℓ} {a x : A} → Memᴰ a (x ∷ []) → a ≡ x
mem-single (Memᴰ.head e) = e
mem-single (Memᴰ.tail m) = elim m [ ]

pub mem-append {ℓ} :
    {A : Type ℓ} {a : A} (xs ys : List A) → Memᴰ a (xs ++ ys) → Memᴰ a xs ⊎ Memᴰ a ys
mem-append [] ys h = inr h
mem-append (x ∷ xs) ys (Memᴰ.head e) = inl (Memᴰ.head e)
mem-append (x ∷ xs) ys (Memᴰ.tail m) = elim (mem-append xs ys m) [
  | inl n ↦ inl (Memᴰ.tail n)
  | inr n ↦ inr n
]

pub append_assoc {ℓ} : {A : Type ℓ} (xs ys zs : List A) → (xs ++ ys) ++ zs ≡ xs ++ (ys ++ zs)
append_assoc [] ys zs = refl
append_assoc (x ∷ xs) ys zs = ap (λ r. x ∷ r) (append_assoc xs ys zs)

pub append_nil {ℓ} : {A : Type ℓ} (xs : List A) → xs ++ [] ≡ xs
append_nil [] = refl
append_nil (x ∷ xs) = ap (λ r. x ∷ r) (append_nil xs)

pub any-append {ℓ} :
    {A : Type ℓ} (q : A → Bool) (xs ys : List A) → any q (xs ++ ys) ≡ (any q xs || any q ys)
any-append q [] ys = refl
any-append q (x ∷ xs) ys = ground (arith, any-append q xs ys)
