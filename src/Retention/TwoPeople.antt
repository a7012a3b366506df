-- ===== src/Retention/TwoPeople.antt =====
-- Each operation on disposal events keeps them lawful.
use enterprise_management.Base.{
  ℕ, ◌≡◌, ◌≢◌, ap, sym, subst, ◌∙◌, Option, none, some, true, false, not, ◌||◌, List, arith, ok,
  >>=-eq-ok, >>-eq-ok, throw_if-eq-ok, refuse_if-eq-ok, is_some, inl, inr, write-mem, demand-eq-ok,
  demand, holds_name, ==_refl, Option-cases, some-injective,
}
use enterprise_management.Retention.{Registry, Event, Archive, Choice, dispose_of, retain}
use enterprise_management.Retention.Events.{need, event_named, archive_named}
use enterprise_management.Retention.Disposal.{
  is_permanent, require_manager, require_open, guard_hold, proposed_until, propose_disposition,
  send_back_disposition, approve_disposition_of, guard_if_disposed, signed,
}
use enterprise_management.Retention.Lawful.{
  IsLawful, AllLawful, save_event-AllLawful, read-IsLawful,
}

module _ (r : Registry) (all : AllLawful r) where
  -- A proposal to dispose is not of a class that keeps permanently.
  proposed_until-permanent :
      (e : Event) (a : Archive) (choice : Choice) (until : Option ℕ) (today : ℕ) {kept : Option ℕ}
      → proposed_until r e a choice until today ≡ ok kept
      → some choice ≡ some dispose_of
      → is_permanent e.action ≡ false
  unfolding proposed_until
  proposed_until-permanent e a dispose_of until today h same =
      let (passed, rest) = >>-eq-ok (guard_hold r a) _ h in
      (refuse_if-eq-ok (is_permanent e.action) _ _ rest).0
  proposed_until-permanent e a retain until today h same = cc

  propose-IsLawful :
      (e : Event) (choice : Choice) (reason kept : Option ℕ) (me now : ℕ)
      → IsLawful e
      → is_some e.approved_by ≡ false
      → (some choice ≡ some dispose_of → is_permanent e.action ≡ false)
      → IsLawful (record e {
        decision = some choice;
        decision_reason = reason;
        retained_until = kept;
        proposed_by = some me;
        proposed_on = some now;
      })
  propose-IsLawful e choice reason kept me now l open_yet allowed = record {
    two_people = λ a h. absurd (unapproved a h);
    carried_out = λ h. absurd (cc ((l.carried_out h).0, open_yet));
    not_permanent = allowed;
  }
    where
      unapproved : (a : ℕ) → e.approved_by ≡ some a → ⊥
      unapproved a h = cc (ap is_some h, open_yet)

  pub propose-AllLawful :
      (me : ℕ) (roles : List ℕ) (event : ℕ) (decision : Option Choice) (reason until : Option ℕ)
      (today now : ℕ) {r' : Registry} {f : Event}
      → propose_disposition r me roles event decision reason until today now ≡ ok (r', f)
      → AllLawful r'
  unfolding propose_disposition
  propose-AllLawful me roles event decision reason until today now h =
      let (may, h1) = >>-eq-ok (require_manager me roles) _ h in
      let (e, found, h2) = >>=-eq-ok (need (event_named event r)) _ h1 in
      let (a, archived, h3) = >>=-eq-ok (need (archive_named e.archive_record r)) _ h2 in
      let (opened, h4) = >>-eq-ok (require_open e) _ h3 in
      let (unapproved, h5) = throw_if-eq-ok (is_some e.approved_by) _ _ h4 in
      let (choice, chosen, h6) = >>=-eq-ok (demand decision _) _ h5 in
      let (given, h7) = throw_if-eq-ok (not (is_some reason)) _ _ h6 in
      let (kept, checked, saving) = >>=-eq-ok (proposed_until r e a choice until today) _ h7 in
      (save_event-AllLawful r _ saving all (
        propose-IsLawful e choice reason kept me now
          (read-IsLawful r event all (demand-eq-ok _ _ found)) unapproved
          (proposed_until-permanent e a choice until today checked))).0

  send_back-IsLawful :
      (e : Event)
      → IsLawful e
      → is_some e.approved_by ≡ false
      → IsLawful (record e {
        decision = none;
        decision_reason = none;
        retained_until = none;
        proposed_by = none;
        proposed_on = none;
      })
  send_back-IsLawful e l open_yet = record {
    two_people = λ a h. absurd (unapproved a h);
    carried_out = λ h. absurd (cc ((l.carried_out h).0, open_yet));
    not_permanent = λ h. absurd (cc);
  }
    where
      unapproved : (a : ℕ) → e.approved_by ≡ some a → ⊥
      unapproved a h = cc (ap is_some h, open_yet)

  pub send_back-AllLawful :
      (me : ℕ) (roles : List ℕ) (event : ℕ) (text : Option ℕ) {r' : Registry} {f : Event}
      → send_back_disposition r me roles event text ≡ ok (r', f)
      → AllLawful r'
  unfolding send_back_disposition
  send_back-AllLawful me roles event text h =
      let (may, h1) = >>-eq-ok (require_manager me roles) _ h in
      let (e, found, h2) = >>=-eq-ok (need (event_named event r)) _ h1 in
      let (a, archived, h3) = >>=-eq-ok (need (archive_named e.archive_record r)) _ h2 in
      let (opened, h4) = >>-eq-ok (require_open e) _ h3 in
      let (waiting, h5) =
        throw_if-eq-ok (is_some e.approved_by || not (is_some e.decision)) _ _ h4 in
      let (noted, saving) = throw_if-eq-ok (not (is_some text)) _ _ h5 in
      (save_event-AllLawful r _ saving all (
        send_back-IsLawful e (read-IsLawful r event all (demand-eq-ok _ _ found)) (ground arith))).0

  approve-IsLawful :
      (e : Event) (me now : ℕ) (text : Option ℕ) (status : ℕ)
      → IsLawful e
      → (not (is_some e.decision) || not (is_some e.proposed_by)) ≡ false
      → is_some e.approved_by ≡ false
      → holds_name e.proposed_by me ≡ false
      → IsLawful (record e {
        approved_by = some me;
        approved_on = some now;
        approval_note = text;
        status = status;
      })
  approve-IsLawful e me now text status l proposed open_yet other = record {
    two_people = λ a h. elim (Option-cases e.proposed_by) [
      | inl nobody ↦ absurd (ground arith)
      | inr (p, by) ↦ (p, by, λ same. apart p by (same ∙ sym (some-injective h)), ground arith)
    ];
    carried_out = λ h. absurd (cc ((l.carried_out h).0, open_yet));
    not_permanent = l.not_permanent;
  }
    where
      apart : (p : ℕ) → e.proposed_by ≡ some p → p ≢ me
      apart p by same = cc (==_refl me, rw (by, same) at other)

  pub approve-AllLawful :
      (me : ℕ) (roles : List ℕ) (event : ℕ) (text : Option ℕ) (now : ℕ) {r' : Registry} {f : Event}
      → approve_disposition_of r me roles event text now ≡ ok (r', f)
      → AllLawful r'
  unfolding approve_disposition_of
  approve-AllLawful me roles event text now h =
      let (may, h1) = >>-eq-ok (require_manager me roles) _ h in
      let (e, found, h2) = >>=-eq-ok (need (event_named event r)) _ h1 in
      let (a, archived, h3) = >>=-eq-ok (need (archive_named e.archive_record r)) _ h2 in
      let (opened, h4) = >>-eq-ok (require_open e) _ h3 in
      let (proposed, h5) =
        throw_if-eq-ok (not (is_some e.decision) || not (is_some e.proposed_by)) _ _ h4 in
      let (unapproved, h6) = throw_if-eq-ok (is_some e.approved_by) _ _ h5 in
      let (other, h7) = refuse_if-eq-ok (holds_name e.proposed_by me) _ _ h6 in
      let (free, saving) = >>-eq-ok (guard_if_disposed e.decision r a) _ h7 in
      (save_event-AllLawful r _ saving all (
        approve-IsLawful e me now text _ (read-IsLawful r event all (demand-eq-ok _ _ found))
          proposed unapproved other)).0

  pub execute-IsLawful :
      (e : Event) (evidence : Option ℕ) (now status : ℕ)
      → IsLawful e
      → is_some e.approved_by ≡ true
      → e.decision ≡ some dispose_of
      → IsLawful (record e { status = status; executed_on = some now; evidence = evidence })
  execute-IsLawful e evidence now status l named chosen = record {
    two_people = l.two_people;
    carried_out = λ h. (named, chosen);
    not_permanent = l.not_permanent;
  }

  pub signed-AllLawful : (f : Event) (me : ℕ) → IsLawful f → AllLawful (signed r f me)
  signed-AllLawful f me l x m =
      elim (write-mem (λ (d : Event). d.name) (record f { executed_by = some me }) r.events m) [
        | inl same ↦ subst IsLawful (sym same) (record {
          two_people = l.two_people;
          carried_out = l.carried_out;
          not_permanent = l.not_permanent;
        })
        | inr (old, other) ↦ all x old
      ]
