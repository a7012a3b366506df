-- ===== src/Base/Table.antt =====
-- A table as the list of its rows: rows are written and read by their names.
use Prim.Native.Nat.{ℕ}
use mathlib.Core.Path.{◌≡◌, refl, sym, ◌∙◌, subst, ap}
use mathlib.Core.Logic.{◌≢◌, ◌⊎◌, inl, inr}
use mathlib.Core.Bool.{Bool, true, false}
use mathlib.Core.Option.{Option, some}
use mathlib.Core.List.{List, [], ◌∷◌, ◌++◌, map, Memᴰ}
use native.Mathlib.Omega.{arith}
use enterprise_management.Base.Results.{some-injective}
use enterprise_management.Base.Tests.{if◌then◌else◌, Bool-cases, ◌==◌, ==_iff, ==_refl}
use enterprise_management.Base.Lists.{find, find-mem, contains}

not-true→false : (b : Bool) → b ≢ true → b ≡ false
not-true→false true h = absurd (h refl)
not-true→false false h = refl

pub uncons {ℓ} : {A : Type ℓ} {b x : A} {xs : List A} → Memᴰ b (x ∷ xs) → (b ≡ x) ⊎ Memᴰ b xs
uncons (Memᴰ.head e) = inl e
uncons (Memᴰ.tail m) = inr m

pub mem-map {ℓ} :
    {A B : Type ℓ} (f : A → B) {b : B} (xs : List A)
    → Memᴰ b (map f xs)
    → (a : A) × Memᴰ a xs × (f a ≡ b)
mem-map f [] m = elim m [ ]
mem-map f (x ∷ xs) m = elim (uncons m) [
  | inl e ↦ (x, Memᴰ.head refl, sym e)
  | inr n ↦ let (a, k, p) = mem-map f xs n in (a, Memᴰ.tail k, p)
]

pub map-mem {ℓ} :
    {A B : Type ℓ} (f : A → B) {a : A} {xs : List A} → Memᴰ a xs → Memᴰ (f a) (map f xs)
map-mem f (Memᴰ.head e) = Memᴰ.head (ap f e)
map-mem f (Memᴰ.tail m) = Memᴰ.tail (map-mem f m)

module _ {A : Type 0} (name : A → ℕ) where
  -- `doc.save()`: the row of that name becomes the document.
  abbrev pub write : A → List A → List A
  write d [] = []
  write d (e ∷ rest) = let tail = write d rest in if name e == name d then d ∷ tail else e ∷ tail

  -- `get_doc(name)`
  abbrev pub read : ℕ → List A → Option A
  read n rows = find (λ r. name r == n) rows

  pub write-other :
      (d : A) {e : A} {xs : List A} → Memᴰ e xs → name e ≢ name d → Memᴰ e (write d xs)
  write-other d {e} (Memᴰ.head {x = x} p) h = elim (Bool-cases (name x == name d)) [
    | inl t ↦ absurd (h (ap name p ∙ (==_iff (name x) (name d)).0 t))
    | inr t ↦ rw t (Memᴰ.head p)
  ]
  write-other d (Memᴰ.tail {x = x} m) h = elim (Bool-cases (name x == name d)) [
    | inl t ↦ rw t (Memᴰ.tail (write-other d m h))
    | inr t ↦ rw t (Memᴰ.tail (write-other d m h))
  ]

  abbrev NewOrOther : A → A → List A → Type 0
  NewOrOther d e xs = (e ≡ d) ⊎ (Memᴰ e xs × (name e ≢ name d))

  further : (d : A) {e x : A} {xs : List A} → NewOrOther d e xs → NewOrOther d e (x ∷ xs)
  further d (inl p) = inl p
  further d (inr (m, h)) = inr (Memᴰ.tail m, h)

  kept :
      (d : A) {e : A} (x : A) {xs : List A}
      → (name x == name d) ≡ false
      → e ≡ x
      → NewOrOther d e (x ∷ xs)
  kept d {e} x t p = inr (Memᴰ.head p, λ q. cc (t, ==_refl (name d), ap name p))

  -- After the write a row is the document, or an old row of another name.
  pub write-mem : (d : A) {e : A} (xs : List A) → Memᴰ e (write d xs) → NewOrOther d e xs
  write-mem d [] m = elim m [ ]
  write-mem d {e} (x ∷ xs) m =
      let at : Bool → Type 0 = λ t. Memᴰ e (if t then d ∷ write d xs else x ∷ write d xs) in
      elim (Bool-cases (name x == name d)) [
        | inl t ↦ elim (uncons (subst at t m)) [
          | inl p ↦ inl p
          | inr n ↦ further d (write-mem d xs n)
        ]
        | inr t ↦ elim (uncons (subst at t m)) [
          | inl p ↦ kept d x t p
          | inr n ↦ further d (write-mem d xs n)
        ]
      ]

  pub write-self : (d : A) {e : A} {xs : List A} → Memᴰ e xs → name e ≡ name d → Memᴰ d (write d xs)
  write-self d {e} (Memᴰ.head {x = x} p) h =
      rw ((==_iff (name x) (name d)).1 (ap name (sym p) ∙ h)) (Memᴰ.head refl)
  write-self d (Memᴰ.tail {x = x} m) h = elim (Bool-cases (name x == name d)) [
    | inl t ↦ rw t (Memᴰ.tail (write-self d m h))
    | inr t ↦ rw t (Memᴰ.tail (write-self d m h))
  ]

  pub read-write_self :
      (d : A) (n : ℕ) (xs : List A) {e : A}
      → name d ≡ n
      → read n xs ≡ some e
      → read n (write d xs) ≡ some d
  read-write_self d n [] named h = cc
  read-write_self d n (x ∷ xs) {e} named h =
      ground (arith, read-write_self d n xs {e = e} named, ==_iff (name x) n, ==_iff (name d) n)

  pub read-write_other :
      (d : A) (n : ℕ) (xs : List A) → name d ≢ n → read n (write d xs) ≡ read n xs
  read-write_other d n [] ne = refl
  read-write_other d n (x ∷ xs) ne = elim (Bool-cases (name x == name d)) [
    | inl t ↦
        let off : (name d == n) ≡ false =
          not-true→false (name d == n) (λ q. ne ((==_iff (name d) n).0 q)) in
        let off_x : (name x == n) ≡ false =
          not-true→false (name x == n)
            (λ q. ne (sym ((==_iff (name x) (name d)).0 t) ∙ (==_iff (name x) n).0 q)) in
        rw t (rw off (rw off_x (read-write_other d n xs ne)))
    | inr t ↦ rw t (ap (λ r. if name x == n then some x else r) (read-write_other d n xs ne))
  ]

  pub read-append :
      (n : ℕ) (xs : List A) (d : A) {e : A} → read n xs ≡ some e → read n (xs ++ d ∷ []) ≡ some e
  read-append n [] d h = cc
  read-append n (x ∷ xs) d {e} h = ground (arith, read-append n xs d {e = e})

  pub read-name : (n : ℕ) (xs : List A) {e : A} → read n xs ≡ some e → name e ≡ n
  read-name n xs {e} h = (==_iff (name e) n).0 (find-mem (λ r. name r == n) xs h).1

-- Names that stand once.
abbrev pub AreDistinct : List ℕ → Type 0
AreDistinct [] = Unit
AreDistinct (n ∷ ns) = (contains ns n ≡ false) × AreDistinct ns

module _ {A : Type 0} (name : A → ℕ) where
  not-in-middle :
      (n : ℕ) (before : List A) (c : A) (after : List A)
      → contains (map name (before ++ c ∷ after)) n ≡ false
      → (name c == n) ≡ false
  not-in-middle n [] c after h = ground arith
  not-in-middle n (x ∷ before) c after h = not-in-middle n before c after (ground arith)

  write-absent :
      (d : A) (xs : List A) → contains (map name xs) (name d) ≡ false → write name d xs ≡ xs
  write-absent d [] h = refl
  write-absent d (x ∷ xs) h = ground (arith, write-absent d xs)

  pub read-middle :
      (before : List A) (c : A) (after : List A)
      → AreDistinct (map name (before ++ c ∷ after))
      → read name (name c) (before ++ c ∷ after) ≡ some c
  read-middle [] c after h = rw (==_refl (name c))
  read-middle (x ∷ before) c after (fresh, h) =
      ground (arith, read-middle before c after h, not-in-middle (name x) before c after fresh)

  pub write-middle :
      (d : A) (before : List A) (c : A) (after : List A)
      → name d ≡ name c
      → AreDistinct (map name (before ++ c ∷ after))
      → write name d (before ++ c ∷ after) ≡ before ++ d ∷ after
  write-middle d [] c after same (fresh, h) =
      let absent : contains (map name after) (name d) ≡ false = rw same fresh in
      rw ((==_iff (name c) (name d)).1 (sym same)) (ap (λ r. d ∷ r) (write-absent d after absent))
  write-middle d (x ∷ before) c after same (fresh, h) =
      let apart = not-in-middle (name x) before c after fresh in
      ground (arith, write-middle d before c after same h, ==_iff (name x) (name d))

module _ {A : Type 0} (name : A → ℕ) where
  -- Writing a row and then its old content gives the old table.
  pub write-write_back :
      (e f : A) (xs : List A)
      → read name (name e) xs ≡ some e
      → name f ≡ name e
      → AreDistinct (map name xs)
      → write name e (write name f xs) ≡ xs
  write-write_back e f [] found same h = refl
  write-write_back e f (x ∷ xs) found same (fresh, h) = elim (Bool-cases (name x == name e)) [
    | inl t ↦
        let here : name x ≡ name e = (==_iff (name x) (name e)).0 t in
        let no_e : contains (map name xs) (name e) ≡ false = rw (← here) fresh in
        let no_f : contains (map name xs) (name f) ≡ false = rw same no_e in
        let is_f : (name x == name f) ≡ true = rw same t in
        let is_e : (name f == name e) ≡ true = (==_iff (name f) (name e)).1 same in
        let x_is_e : x ≡ e = some-injective (rw t at found) in
        rw is_f (
          rw (write-absent name f xs no_f)
            (rw is_e (rw (write-absent name e xs no_e) (ap (λ y. y ∷ xs) (sym x_is_e)))))
    | inr t ↦
        let not_f : (name x == name f) ≡ false = rw same t in
        rw not_f (rw t (ap (λ l. x ∷ l) (write-write_back e f xs (rw t at found) same h)))
  ]

module _ {A : Type 0} (name : A → ℕ) where
  -- Of two writes of one row, the later stands.
  pub write-write :
      (d e : A) (xs : List A) → name e ≡ name d → write name d (write name e xs) ≡ write name d xs
  write-write d e [] h = refl
  write-write d e (x ∷ xs) h = elim (Bool-cases (name x == name e)) [
    | inl t ↦
        let u : (name x == name d) ≡ true = rw (← h) t in
        rw (t, u)
          (rw ((==_iff (name e) (name d)).1 h) (ap (λ (z : List A). d ∷ z) (write-write d e xs h)))
    | inr t ↦
        let u : (name x == name d) ≡ false = rw (← h) t in
        rw (t, u) (ap (λ (z : List A). x ∷ z) (write-write d e xs h))
  ]
