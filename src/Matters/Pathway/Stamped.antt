-- ===== src/Matters/Pathway/Stamped.antt =====
-- The stamps of the forums that a notice reached leave the rest of a pathway as it was.
use enterprise_management.Base.{
  ℕ, suc, ◌≡◌, refl, ap, sym, ◌∙◌, subst, inl, inr, Option, some, List, [], ◌∷◌, map, length,
  contains, All, if◌then◌else◌, if-true, if-false, Bool-cases,
}
use enterprise_management.Matters.{EscalationMatter, ForumLink, value_of}
use enterprise_management.Matters.Template.{Template, is_empty_field, lacks, scope_escalation}
use enterprise_management.Matters.Template.Conforms.{Conforms}
use enterprise_management.Matters.Site.{Governance}
use enterprise_management.Matters.Pathway.{forum_of, stamp_notified}
use enterprise_management.Matters.Pathway.Rows.{forums_of, IsOpenTo}

module _ (reached : List ℕ) (now : ℕ) where
  abbrev pub stamp : ForumLink → ForumLink
  stamp r = if contains reached (forum_of r) then record r { notified_on = some now } else r

  stamp-forum : (r : ForumLink) → forum_of (stamp r) ≡ forum_of r
  stamp-forum r = elim (Bool-cases (contains reached (forum_of r))) [
    | inl e ↦ ap forum_of (if-true _ _ e)
    | inr e ↦ ap forum_of (if-false _ _ e)
  ]

  pub forums_of-stamp : (rows : List ForumLink) → forums_of (map stamp rows) ≡ forums_of rows
  forums_of-stamp [] = refl
  forums_of-stamp (r ∷ rows) =
      ap (λ (f : ℕ). f ∷ forums_of (map stamp rows)) (stamp-forum r)
      ∙ ap (λ (z : List ℕ). forum_of r ∷ z) (forums_of-stamp rows)

  length-stamp : (rows : List ForumLink) → length (map stamp rows) ≡ length rows
  length-stamp [] = refl
  length-stamp (r ∷ rows) = ap suc (length-stamp rows)

  stamp-IsOpenTo :
      (governance : Option Governance) (r : ForumLink)
      → IsOpenTo governance r
      → IsOpenTo governance (stamp r)
  stamp-IsOpenTo governance r o = elim (Bool-cases (contains reached (forum_of r))) [
    | inl e ↦
        subst (λ (z : ForumLink). IsOpenTo governance z) (sym (if-true _ _ e))
          (record {
            selectable = o.selectable;
            current = ap (λ (z : ForumLink). record z { notified_on = some now }) o.current;
          })
    | inr e ↦ subst (λ (z : ForumLink). IsOpenTo governance z) (sym (if-false _ _ e)) o
  ]

  pub All-stamped :
      (governance : Option Governance) (rows : List ForumLink)
      → All (IsOpenTo governance) rows
      → All (IsOpenTo governance) (map stamp rows)
  All-stamped governance [] all = tt
  All-stamped governance (r ∷ rows) (first, rest) =
      (stamp-IsOpenTo governance r first, All-stamped governance rows rest)

  value_of-stamp_notified :
      (m : EscalationMatter) (field : ℕ)
      → value_of (stamp_notified m reached now) field ≡ value_of m field
  unfolding value_of stamp_notified
  value_of-stamp_notified m field = rw (length-stamp m.governance_forums) refl

  pub stamped-Conforms :
      (t : Template) (severity : Option ℕ) (m : EscalationMatter)
      → Conforms t scope_escalation severity m
      → Conforms t scope_escalation severity (stamp_notified m reached now)
  unfolding is_empty_field
  stamped-Conforms t severity m c = record {
    scoped = c.scoped;
    filled = λ f mem needed due.
        ap lacks (value_of-stamp_notified m f.fieldname) ∙ c.filled f mem needed due;
  }
