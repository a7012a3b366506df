-- ===== src/Classification/Faults.antt =====
-- The leaves of a condition, and the faults that they raise on some answers.
use enterprise_management.Base.{
  List, [], ◌∷◌, ◌++◌, Fault, raised, type_error, overflow_error, leb, is_some, if◌then◌else◌,
  if-true, if-false, Bool-cases, ℕ, ◌≡◌, refl, inl, inr, ◌⊎◌, Option, none, some, Bool, true, false,
  not, ◌&&◌, ◌||◌, Result, ok, err, thrown, ◌>>=◌, rule_condition,
}
use enterprise_management.Classification.{
  Builtins, Operands, listed, keyed, string, unsearchable, Given, blank, text, number, choices,
  answer_to, float_limit, look_up, float, compare, with_operand, Test, is_set, is_not_set, equals,
  not_equals, is_in, not_in, includes, greater_than, less_than, no_operator, Condition, empty,
  all_of, any_of, none_of, leaf, Conditions, nil, cons, Answers, leaf_test, leaf_matches,
}

abbrev Leaf : Type 0
Leaf = Option ℕ × Test

-- The leaves of a tree, in the order of its text.
unfoldable mutual
  pub leaves : Condition → List Leaf
  leaves empty = []
  leaves (all_of cs) = leaves_of cs
  leaves (any_of cs) = leaves_of cs
  leaves (none_of cs) = leaves_of cs
  leaves (leaf question test) = (question, test) ∷ []

  pub leaves_of : Conditions → List Leaf
  leaves_of nil = []
  leaves_of (cons c cs) = leaves c ++ leaves_of cs

abbrev is_text : Given → Bool
is_text (some blank) = true
is_text (some (text t)) = true
is_text _ = false

abbrev is_list : Given → Bool
is_list (some (choices cs)) = true
is_list _ = false

-- An answer that `in` cannot look up: a list among keys, another kind than a text in a text, and
-- anything in a value that is not a list, an object or a text.
abbrev is_unfit : Operands → Given → Bool
is_unfit (listed operands) given = false
is_unfit (keyed keys) given = is_list given
is_unfit (string s) given = not (is_text given)
is_unfit unsearchable given = true

abbrev is_too_large : Given → Bool
is_too_large (some (number n)) = leb float_limit n
is_too_large _ = false

abbrev or_fault : Option Fault → Option Fault → Option Fault
or_fault none second = second
or_fault (some first) second = some first

abbrev fault_if : Bool → Fault → Option Fault
fault_if b fault = if b then some fault else none

module _ (builtins : Builtins) where
  -- What `float` has a value for, or overflows on.
  abbrev is_numeric : Given → Bool
  is_numeric (some (number n)) = true
  is_numeric (some (text t)) = is_some (builtins.float_of_text t)
  is_numeric _ = false

  -- The answer is too large for a float, or it is a number and the operand is too large.
  abbrev overflows : Given → Given → Bool
  overflows given operand = is_too_large given || is_numeric given && is_too_large operand

  abbrev test_fault : Test → Given → Option Fault
  test_fault (is_in operands) given = fault_if (is_unfit operands given) (raised type_error)
  test_fault (not_in operands) given = fault_if (is_unfit operands given) (raised type_error)
  test_fault (greater_than operand) given =
      fault_if (overflows given operand) (raised overflow_error)
  test_fault (less_than operand) given = fault_if (overflows given operand) (raised overflow_error)
  test_fault no_operator given = some (thrown rule_condition)
  test_fault _ given = none

  abbrev leaf_fault : Answers → Leaf → Option Fault
  leaf_fault answers (none, test) = some (thrown rule_condition)
  leaf_fault answers (some question, test) = test_fault test (answer_to answers question)

  -- The fault of the first leaf that has one.
  unfoldable pub first_fault : Answers → List Leaf → Option Fault
  first_fault answers [] = none
  first_fault answers (x ∷ xs) = or_fault (leaf_fault answers x) (first_fault answers xs)

  pub first_fault-append :
      (answers : Answers) (xs ys : List Leaf)
      → first_fault answers (xs ++ ys) ≡ or_fault (first_fault answers xs) (first_fault answers ys)
  unfolding first_fault
  first_fault-append answers [] ys = refl
  first_fault-append answers (x ∷ xs) ys =
      after (leaf_fault answers x) (first_fault answers xs) (first_fault answers ys)
        (first_fault-append answers xs ys)
    where
      after :
          (o b c : Option Fault) {a : Option Fault}
          → a ≡ or_fault b c
          → or_fault o a ≡ or_fault (or_fault o b) c
      after none b c h = h
      after (some f) b c h = refl

-- A result with a value, or with the fault.
abbrev pub Evaluates : {A : Type 0} → Option Fault → Result A → Type 0
Evaluates {A} fault r =
    ((fault ≡ none) × ((a : A) × (r ≡ ok a))) ⊎ ((f : Fault) × (fault ≡ some f) × (r ≡ err f))

pub ok-Evaluates : {A : Type 0} (a : A) → Evaluates none (ok a)
ok-Evaluates a = inl (refl, (a, refl))

err-Evaluates : {A : Type 0} (f : Fault) → Evaluates {A = A} (some f) (err f)
err-Evaluates f = inr (f, refl, refl)

>>=-Evaluates :
    {A B : Type 0} (o os : Option Fault) (r : Result A) (next : A → Result B)
    → Evaluates o r
    → ((a : A) → r ≡ ok a → Evaluates os (next a))
    → Evaluates (or_fault o os) (r >>= next)
>>=-Evaluates o os r next (inl (none_yet, (a, e))) rest = rw (none_yet, e) (rest a e)
>>=-Evaluates o os r next (inr (f, first, e)) rest = rw (first, e) (inr (f, refl, refl))

pub step-Evaluates :
    (o os : Option Fault) (r rs : Result Bool) (f : Bool → Bool → Bool)
    → Evaluates o r
    → Evaluates os rs
    → Evaluates (or_fault o os) (r >>= λ b. rs >>= λ bs. ok (f b bs))
step-Evaluates o os r rs f first rest =
    >>=-Evaluates o os r _ first (λ b e. then_ok os rs (f b) rest)
  where
    then_ok :
        (os : Option Fault) (rs : Result Bool) (g : Bool → Bool)
        → Evaluates os rs
        → Evaluates os (rs >>= λ bs. ok (g bs))
    then_ok os rs g (inl (quiet, (bs, e))) = rw (quiet, e) (inl (refl, (g bs, refl)))
    then_ok os rs g (inr (f, fault, e)) = rw (fault, e) (inr (f, refl, refl))

module _ (builtins : Builtins) where
  look_up-Evaluates :
      (operands : Operands) (given : Given)
      → Evaluates
          (fault_if (is_unfit operands given) (raised type_error))
          (look_up builtins operands given)
  look_up-Evaluates (listed operands) given = ok-Evaluates _
  look_up-Evaluates (keyed keys) none = ok-Evaluates _
  look_up-Evaluates (keyed keys) (some blank) = ok-Evaluates _
  look_up-Evaluates (keyed keys) (some (text t)) = ok-Evaluates _
  look_up-Evaluates (keyed keys) (some (number n)) = ok-Evaluates _
  look_up-Evaluates (keyed keys) (some (choices cs)) = err-Evaluates _
  look_up-Evaluates (string s) none = err-Evaluates _
  look_up-Evaluates (string s) (some blank) = ok-Evaluates _
  look_up-Evaluates (string s) (some (text t)) = ok-Evaluates _
  look_up-Evaluates (string s) (some (number n)) = err-Evaluates _
  look_up-Evaluates (string s) (some (choices cs)) = err-Evaluates _
  look_up-Evaluates unsearchable given = err-Evaluates _

  -- `float` overflows, has no value, or has one.
  float-cases :
      (given : Given)
      → ((is_too_large given ≡ true) × (float builtins given ≡ err (raised overflow_error)))
        ⊎ ((is_too_large given ≡ false)
            × ((x : Option builtins.Float) × (float builtins given ≡ ok x)
                × (is_some x ≡ is_numeric builtins given)))
  float-cases none = inr (refl, (none, refl, refl))
  float-cases (some blank) = inr (refl, (none, refl, refl))
  float-cases (some (text t)) = inr (refl, (builtins.float_of_text t, refl, refl))
  float-cases (some (number n)) = elim (Bool-cases (leb float_limit n)) [
    | inl large ↦ inl (large, if-true _ _ large)
    | inr small ↦ inr (small, (some (builtins.float_of_number n), if-false _ _ small, refl))
  ]
  float-cases (some (choices cs)) = inr (refl, (none, refl, refl))

  compare-Evaluates :
      (test : builtins.Float → builtins.Float → Bool) (given operand : Given)
      → Evaluates
          (fault_if (overflows builtins given operand) (raised overflow_error))
          (compare builtins test given operand)
  compare-Evaluates test given operand = elim (float-cases given) [
    | inl (large, e) ↦ rw (large, e) (err-Evaluates _)
    | inr (small, (x, e, numeric)) ↦ rw (small, e, ← numeric) (second x)
  ]
    where
      second :
          (x : Option builtins.Float)
          → Evaluates
              (fault_if (is_some x && is_too_large operand) (raised overflow_error))
              (with_operand builtins test x (float builtins operand))
      second none = ok-Evaluates _
      second (some a) = elim (float-cases operand) [
        | inl (large, e) ↦ rw (large, e) (err-Evaluates _)
        | inr (small, (y, e, numeric)) ↦ rw (small, e) (ok-Evaluates _)
      ]

  test-Evaluates :
      (test : Test) (given : Given)
      → Evaluates (test_fault builtins test given) (leaf_test builtins test given)
  unfolding leaf_test
  test-Evaluates (is_set w) given = ok-Evaluates _
  test-Evaluates (is_not_set w) given = ok-Evaluates _
  test-Evaluates (equals o) given = ok-Evaluates _
  test-Evaluates (not_equals o) given = ok-Evaluates _
  test-Evaluates (is_in o) given = look_up-Evaluates o given
  test-Evaluates (not_in o) given = denied (look_up-Evaluates o given)
    where
      denied :
          {os : Option Fault} {r : Result Bool}
          → Evaluates os r
          → Evaluates os (r >>= λ found. ok (not found))
      denied (inl (quiet, (found, e))) = rw (quiet, e) (ok-Evaluates _)
      denied (inr (f, fault, e)) = rw (fault, e) (err-Evaluates _)
  test-Evaluates (includes o) given = ok-Evaluates _
  test-Evaluates (greater_than o) given = compare-Evaluates builtins.is_above given o
  test-Evaluates (less_than o) given = compare-Evaluates (λ a b. builtins.is_above b a) given o
  test-Evaluates no_operator given = err-Evaluates _

  pub leaf-Evaluates :
      (question : Option ℕ) (test : Test) (answers : Answers)
      → Evaluates
          (or_fault (leaf_fault builtins answers (question, test)) none)
          (leaf_matches builtins question test answers)
  unfolding leaf_matches
  leaf-Evaluates none test answers = err-Evaluates _
  leaf-Evaluates (some q) test answers = last _ (test-Evaluates test (answer_to answers q))
    where
      last : (o : Option Fault) {r : Result Bool} → Evaluates o r → Evaluates (or_fault o none) r
      last none h = h
      last (some f) h = h
