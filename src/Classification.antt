-- ===== src/Classification.antt =====
-- consilium_core/classification.py: the conditions of classification rules.
-- A condition is the tree that its JSON text denotes; the operator of a leaf is the first that
-- the code looks for. Texts are known by numbers, so that what the language makes of a text is an
-- argument; numbers in answers are natural numbers, and true and false are 1 and 0. The shape of a
-- tree that is not of objects and lists, and the notes of the trace, are left out.
pub mod Assess
pub mod Faults
pub mod Meaning
mod Tests
use Prim.Native.Nat.{◌^◌}
use enterprise_management.Base.{
  ◌>>=◌, ◌>>◌, raised, type_error, overflow_error, ◌-◌, leb, ℕ, Option, none, some, Bool, true,
  false, not, ◌&&◌, ◌||◌, List, [], ◌∷◌, if◌then◌else◌, ◌==◌, any, contains, bool_eq, get, Result,
  ok, err, thrown, rule_condition,
}

-- An answer; `choices` are the codes of several options.
pub data Value : Type 0 where
  blank : Value
  text : ℕ → Value
  number : ℕ → Value
  choices : List ℕ → Value

abbrev pub codes_eq : List ℕ → List ℕ → Bool
codes_eq [] [] = true
codes_eq (a ∷ as_) (b ∷ bs) = a == b && codes_eq as_ bs
codes_eq _ _ = false

abbrev pub value_eq : Value → Value → Bool
value_eq blank blank = true
value_eq (text a) (text b) = a == b
value_eq (number a) (number b) = a == b
value_eq (choices a) (choices b) = codes_eq a b
value_eq _ _ = false

-- What `answers.get(question)` gives; `none` is null.
abbrev pub Given : Type 0
Given = Option Value

abbrev pub given_eq : Given → Given → Bool
given_eq none none = true
given_eq (some a) (some b) = value_eq a b
given_eq _ _ = false

abbrev pub Answers : Type 0
Answers = List (ℕ × Given)

abbrev pub given_to : Option Given → Given
given_to none = none
given_to (some given) = given

abbrev pub answer_to : Answers → ℕ → Given
answer_to answers question = given_to (get question answers)

-- `bool(given)`
abbrev pub truthy : Given → Bool
truthy none = false
truthy (some blank) = false
truthy (some (text t)) = true
truthy (some (number n)) = not (n == 0)
truthy (some (choices [])) = false
truthy (some (choices (c ∷ cs))) = true

-- What stands after `in`: a list, an object with its keys, a text, or a value of another kind. A
-- text that is `none` is the empty one.
pub data Operands : Type 0 where
  listed : List Given → Operands
  keyed : List (Option ℕ) → Operands
  string : Option ℕ → Operands
  unsearchable : Operands

pub data Test : Type 0 where
  is_set is_not_set : Bool → Test
  equals not_equals : Given → Test
  is_in not_in : Operands → Test
  includes : Given → Test
  greater_than less_than : Given → Test
  no_operator : Test

mutual
  pub data Condition : Type 0 where
    empty : Condition
    all_of any_of none_of : Conditions → Condition
    leaf : Option ℕ → Test → Condition

  pub data Conditions : Type 0 where
    nil : Conditions
    cons : Condition → Conditions → Conditions

-- What the language makes of texts, and its floats. `float_of_text` is `none` where `float` raises
-- ValueError.
pub record Builtins : Type 1 where
  pub Float : Type 0
  pub float_of_text : ℕ → Option Float
  pub float_of_number : ℕ → Float
  pub is_above : Float → Float → Bool
  pub is_part : ℕ → ℕ → Bool

-- The least number that is too large for a float: it is rounded to 2^1024.
abbrev pub float_limit : ℕ
float_limit = 2 ^ 1024 - 2 ^ 970

abbrev pub value_of_text : Option ℕ → Value
value_of_text none = blank
value_of_text (some t) = text t

-- A list is no key: it has no hash.
abbrev pub in_keys : List (Option ℕ) → Given → Result Bool
in_keys keys (some (choices cs)) = err (raised type_error)
in_keys keys given = ok (any (λ k. given_eq given (some (value_of_text k))) keys)

module _ (builtins : Builtins) where
  abbrev pub is_part_of : ℕ → Option ℕ → Bool
  is_part_of t none = false
  is_part_of t (some s) = builtins.is_part t s

  abbrev pub in_string : Option ℕ → Given → Result Bool
  in_string s (some blank) = ok true
  in_string s (some (text t)) = ok (is_part_of t s)
  in_string s _ = err (raised type_error)

  -- `given in operands`
  abbrev pub look_up : Operands → Given → Result Bool
  look_up (listed operands) given = ok (any (given_eq given) operands)
  look_up (keyed keys) given = in_keys keys given
  look_up (string s) given = in_string s given
  look_up unsearchable given = err (raised type_error)

  -- `float(value)`; `none` is the TypeError or ValueError that the code catches.
  abbrev pub float : Given → Result (Option builtins.Float)
  float (some (number n)) =
      if leb float_limit n
      then err (raised overflow_error)
      else ok (some (builtins.float_of_number n))
  float (some (text t)) = ok (builtins.float_of_text t)
  float _ = ok none

  abbrev pub holds_at :
      (builtins.Float → builtins.Float → Bool) → builtins.Float → Option builtins.Float → Bool
  holds_at test a none = false
  holds_at test a (some b) = test a b

  -- The answer's float comes first; where it has none the operand's is not asked for.
  abbrev pub with_operand :
      (builtins.Float → builtins.Float → Bool)
      → Option builtins.Float
      → Result (Option builtins.Float)
      → Result Bool
  with_operand test none operand = ok false
  with_operand test (some a) operand = do b ← operand; ok (holds_at test a b)

  abbrev pub compare : (builtins.Float → builtins.Float → Bool) → Given → Given → Result Bool
  compare test given operand = do a ← float given; with_operand test a (float operand)

  -- `operand in values`, where the answer is a list of codes or one value.
  abbrev pub among : Given → Given → Bool
  among (some (text t)) (some (choices cs)) = contains cs t
  among _ (some (choices cs)) = false
  among operand given = given_eq given operand

  unfoldable pub leaf_test : Test → Given → Result Bool
  leaf_test (is_set wanted) given = ok (bool_eq (truthy given) wanted)
  leaf_test (is_not_set wanted) given = ok (bool_eq (not (truthy given)) wanted)
  leaf_test (equals operand) given = ok (given_eq given operand)
  leaf_test (not_equals operand) given = ok (not (given_eq given operand))
  leaf_test (is_in operands) given = look_up operands given
  leaf_test (not_in operands) given = do found ← look_up operands given; ok (not found)
  leaf_test (includes operand) given = ok (among operand given)
  leaf_test (greater_than operand) given = compare builtins.is_above given operand
  leaf_test (less_than operand) given = compare (λ a b. builtins.is_above b a) given operand
  leaf_test no_operator given = err (thrown rule_condition)

  -- `_leaf`
  unfoldable pub leaf_matches : Option ℕ → Test → Answers → Result Bool
  leaf_matches none test answers = err (thrown rule_condition)
  leaf_matches (some question) test answers = leaf_test test (answer_to answers question)

  -- The loops do not stop early: a malformed child is found wherever it stands.
  unfoldable mutual
    pub matches : Condition → Answers → Result Bool
    matches empty answers = ok true
    matches (all_of cs) answers = matches_all cs answers
    matches (any_of cs) answers = matches_any cs answers
    matches (none_of cs) answers = matches_none cs answers
    matches (leaf question test) answers = leaf_matches question test answers

    pub matches_all : Conditions → Answers → Result Bool
    matches_all nil answers = ok true
    matches_all (cons c cs) answers = do
      result ← matches c answers
      rest ← matches_all cs answers
      ok (result && rest)

    pub matches_any : Conditions → Answers → Result Bool
    matches_any nil answers = ok false
    matches_any (cons c cs) answers = do
      result ← matches c answers
      rest ← matches_any cs answers
      ok (result || rest)

    pub matches_none : Conditions → Answers → Result Bool
    matches_none nil answers = ok true
    matches_none (cons c cs) answers = do
      result ← matches c answers
      rest ← matches_none cs answers
      ok (not result && rest)
