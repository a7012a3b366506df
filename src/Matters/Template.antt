-- ===== src/Matters/Template.antt =====
-- escalation/templates.py: the fields that the template of a type and a severity requires.
pub mod Conforms
use mathlib.Core.Option
use enterprise_management.Base.{
  ℕ, Option, none, some, Bool, true, not, ◌&&◌, List, [], ◌∷◌, if◌then◌else◌, ◌==◌, leb, is_some,
  or_else, contains, find, filter, map, is_empty, sort_by, read, Result, ok, demand, thrown,
  throw_if, record_missing, wrong_template, required_by_template, ◌>>=◌, ◌>>◌,
}
use enterprise_management.Matters.{EscalationMatter, Value, nothing, text, check, rows, value_of}

-- The levels of severity, SEVERITY_ORDER.
abbrev pub low : ℕ
low = 31

abbrev pub medium : ℕ
medium = 32

abbrev pub high : ℕ
high = 33

-- An Escalation Template Field.
pub record TemplateField : Type 0 where
  pub fieldname : ℕ
  pub required : Bool
  pub required_when_severity : Option ℕ
  pub display_order : ℕ

-- An Escalation Template, its fields in the order of `idx`.
pub record Template : Type 0 where
  pub name : ℕ
  pub escalation_type : ℕ
  pub template_scope : ℕ
  pub active : Bool
  pub template_fields : List TemplateField

abbrev pub scope_escalation : ℕ
scope_escalation = 41

-- SEVERITY_TRIGGERS.get(...); 51 is "High" and 52 "High Or Medium".
abbrev pub severity_triggers : Option ℕ → List ℕ
severity_triggers none = high ∷ medium ∷ low ∷ []
severity_triggers (some key) =
    if key == 51
    then high ∷ []
    else if key == 52
    then high ∷ medium ∷ []
    else high ∷ medium ∷ low ∷ []

-- `templates` is the table, the one modified last first.
unfoldable pub resolve_template : List Template → Option ℕ → ℕ → Option ℕ
resolve_template templates none scope = none
resolve_template templates (some escalation_type) scope =
    Option.map (λ (t : Template). t.name)
      (find
        (λ (t : Template).
          t.escalation_type == escalation_type && t.template_scope == scope && t.active)
        templates)

abbrev pub is_due : Option ℕ → TemplateField → Bool
is_due severity f =
    f.required && contains (severity_triggers f.required_when_severity) (or_else severity low)

abbrev pub by_display : TemplateField → TemplateField → Bool
by_display a b = leb a.display_order b.display_order

unfoldable pub required_fields : Template → Option ℕ → List ℕ
required_fields t severity =
    map (λ (f : TemplateField). f.fieldname)
      (filter (is_due severity) (sort_by by_display t.template_fields))

-- `value in (None, "", 0) and value is not False`; a stored Check is a number.
abbrev pub lacks : Value → Bool
lacks nothing = true
lacks (text t) = t == 0
lacks (check b) = not b
lacks (rows n) = n == 0

unfoldable pub is_empty_field : EscalationMatter → ℕ → Bool
is_empty_field m fieldname = lacks (value_of m fieldname)

unfoldable pub enforce : Template → ℕ → Option ℕ → EscalationMatter → Result (Unit {0})
unfolding required_fields
enforce t scope severity m = do
  throw_if (not (t.template_scope == scope)) wrong_template
  throw_if (not (is_empty (filter (is_empty_field m) (required_fields t severity))))
      required_by_template

-- The template that the matter names, or the one of its type.
abbrev pub chosen_template : List Template → EscalationMatter → ℕ → Option ℕ
chosen_template templates m scope =
    if is_some m.escalation_template
    then m.escalation_template
    else resolve_template templates m.escalation_type scope

abbrev pub with_template : EscalationMatter → Option ℕ → EscalationMatter
with_template m t = record m { escalation_template = t }

unfoldable pub enforce_named :
    List Template → Option ℕ → ℕ → Option ℕ → EscalationMatter → Result (Unit {0})
unfolding enforce
enforce_named templates none scope severity m = ok tt
enforce_named templates (some name) scope severity m = do
  t ← demand (read (λ (t : Template). t.name) name templates) (thrown record_missing)
  enforce t scope severity m

-- `apply_template` on a matter.
unfoldable pub apply_template :
    List Template → EscalationMatter → ℕ → Option ℕ → Result EscalationMatter
unfolding enforce_named
apply_template templates m scope severity = do
  let chosen = chosen_template templates m scope
  enforce_named templates chosen scope severity (with_template m chosen)
  ok (with_template m chosen)
