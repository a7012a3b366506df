-- ===== src/Matters/Tests.antt =====
-- The actions on the matter of the sample, and the theorems at those runs.
mod Sample
use enterprise_management.Membership.{members_as_at}
use enterprise_management.Escalation.{validate_status_change, permits}
use enterprise_management.Base.{
  ◌∙◌, ap, find-mem, mem-single, sym, ◌↔◌, subst, ℕ, ◌≡◌, refl, none, some, true, false, [], ◌∷◌,
  Memᴰ, ◌==◌, ok, err, thrown, already_taken,
}
use enterprise_management.StateFlags.{
  flags_for, get_flag_map, apply_state_flags, apply_field, set_flags, in_application_order,
}
use enterprise_management.Clocks.{
  validate_clock, stopped, stop_clock, start_or_reuse, start_clock, save_clock,
}
use enterprise_management.Matters.{value_of, EscalationMatter}
use enterprise_management.Matters.Matrix.{
  Matrix, MatrixRule, Match, match_rule, active_matrices, first_match, first_rule, matrix_in_scope,
  condition_matches, matched,
}
use enterprise_management.Matters.Matrix.First.{Fires, Reaches, match_rule-Fires}
use enterprise_management.Matters.Template.{
  resolve_template, medium, scope_escalation, apply_template, with_template,
}
use enterprise_management.Matters.Template.Conforms.{Conforms, apply_template-Conforms}
use enterprise_management.Matters.Queue.{can_take, in_queue}
use enterprise_management.Matters.Pathway.{
  validate_pathway, stamp_notified, forum_protocol, forum_participants, forum_is_selectable,
  apply_routing, raised_severity,
}
use enterprise_management.Matters.Notices.{breach_recipients}
use enterprise_management.Matters.Saving.{
  Dependent, validate_dates, validate_closure, resolve_impacted_entities, closure_of, apply_flags,
  Closure, save, matter_named,
}
use enterprise_management.Matters.Saving.Sound.{IsSound}
use enterprise_management.Matters.Saving.Kept.{ByStatus, AllSound}
use enterprise_management.Matters.Saving.Handed.{IsHanded, save-IsHanded}
use enterprise_management.Matters.Saving.Timed.{IsTimed, save-IsTimed}
use enterprise_management.Matters.Acting.{
  settle_ownership, move_matter_status, close_matter, authorise, record_review,
}
use enterprise_management.Matters.Acting.Allowed.{IsAllowed, authorise-IsAllowed}
use enterprise_management.Matters.Acting.Ownership.{settle_ownership-Once}
use enterprise_management.Matters.Acting.Closing.{IsClosed, close_matter-IsClosed}
use enterprise_management.Matters.Rerouting.{row_at, set_pathway}
use enterprise_management.Matters.Rerouting.Kept.{Rerouted, set_pathway-Rerouted}
use enterprise_management.Matters.Breach.{breached_clocks, escalate_all, record_breach}
use enterprise_management.Matters.Breach.Recorded.{Raised, record_breach-Raised}
use enterprise_management.Matters.Breach.Once.{escalate_all-Once}
use enterprise_management.Matters.Runs.{closed, Run, start, next, Run-AllSound}
use enterprise_management.Matters.Tests.Sample.{
  worked, by_value, general_rule, matrix, template, site, matter, closure, world, session, flagged,
  taken_matter, taken_world, moved_matter, closed_matter, closed_world, rerouted_matter, wanted,
  late_clock, late_world, raised_world, sensitive_matter, with_plan, sensitive_world, holding,
}

-- One run of each action.
runs :
    (settle_ownership site world (session 203) 1 ≡ ok (taken_world, taken_matter))
    × (move_matter_status site world (session 203) 1 2
        ≡ ok (holding world moved_matter, moved_matter))
    × (close_matter site world (session 203) 1 3 true ≡ ok (closed_world, closed_matter))
    × (set_pathway site world (session 203) 1 wanted
        ≡ ok (holding world rerouted_matter, rerouted_matter))
    × (escalate_all site late_world (session 203) (breached_clocks (late_clock ∷ []))
        ≡ ok (raised_world, 1 ∷ []))
    × (record_breach site late_world (session 203) matter 301 5000 ≡ ok raised_world)
    × (save site world (session 203) true matter
        ≡ ok (holding world (flagged worked matter), flagged worked matter))
    × (match_rule site.int_of site.matrices 15 matter ≡ ok (some (matched matrix general_rule)))
    × (in_queue site taken_matter 203 ≡ true)
    × (save site with_plan (session 203) true sensitive_matter
        ≡ ok (sensitive_world, flagged worked sensitive_matter))
unfolding active_matrices apply_field apply_flags apply_routing apply_state_flags apply_template
    breached_clocks breach_recipients can_take close_matter closure_of condition_matches
    escalate_all first_match first_rule flags_for forum_is_selectable forum_participants
    get_flag_map in_application_order matched matrix_in_scope members_as_at move_matter_status
    permits raised_severity resolve_impacted_entities resolve_template row_at save save_clock
    set_flags set_pathway settle_ownership stamp_notified start_clock start_or_reuse stop_clock
    stopped validate_clock validate_closure validate_dates validate_pathway validate_status_change
    value_of
runs = (refl, refl, refl, refl, refl, refl, refl, refl, refl, refl)

-- The world before is sound.
matter-IsSound : IsSound site by_value (closure ∷ []) matter
unfolding forum_is_selectable forum_protocol
matter-IsSound = record {
  kinds = λ e mem. elim mem [ ];
  in_order = refl;
  distinct = (refl, tt);
  open_to = (record { selectable = refl; current = refl }, tt);
  configured = (worked, refl, λ g d. refl);
  templated = λ name e. absurd (cc);
  settled = record {
    outcome = λ shut. cc;
    responded = λ shut. cc;
    tracked = λ shut. cc;
    dated = refl;
  };
}

world-IsSound :
    (m : EscalationMatter) → Memᴰ m world.matters → IsSound site by_value world.closures m
world-IsSound m mem =
    subst (λ (z : EscalationMatter). IsSound site by_value (closure ∷ []) z) (sym (mem-single mem))
      matter-IsSound

by_status : ByStatus site by_value
unfolding get_flag_map
by_status = refl

closing_run : Run site world closed_world
closing_run = next (closed (session 203) 1 3 true runs.2) start

Run-AllSound_example : AllSound site by_value closed_world
Run-AllSound_example = Run-AllSound site by_value by_status closing_run world-IsSound

match_rule-Fires_example :
    ((found : Match)
      → some (matched matrix general_rule) ≡ some found
      → Fires site.int_of site.matrices 15 matter found)
    × (some (matched matrix general_rule) ≡ none
        → (x : Matrix) (r : MatrixRule) → Reaches site.int_of site.matrices 15 matter x r
        → ⊥)
match_rule-Fires_example =
    match_rule-Fires site.int_of site.matrices 15 matter (some (matched matrix general_rule)) runs.7

escalate_all-Once_example :
    escalate_all site raised_world (session 204) (breached_clocks (late_clock ∷ []))
    ≡ ok (raised_world, [])
escalate_all-Once_example =
    escalate_all-Once site late_world (session 203) (session 204) (late_clock ∷ []) runs.4

record_breach-Raised_example : Raised site late_world (session 203) matter 301 5000 raised_world
record_breach-Raised_example =
    record_breach-Raised site late_world (session 203) matter 301 5000 runs.5

settle_ownership-Once_example :
    (matter_named taken_world 1 ≡ some taken_matter)
    × (taken_matter.response_owner ≡ some 203)
    × (settle_ownership site taken_world (session 204) 1 ≡ err (thrown already_taken))
settle_ownership-Once_example =
    settle_ownership-Once site world (session 203) (session 204) 1 runs.0 runs.8

set_pathway-Rerouted_example :
    Rerouted site world (session 203) 1 wanted (holding world rerouted_matter) rerouted_matter
set_pathway-Rerouted_example = set_pathway-Rerouted site world (session 203) 1 wanted runs.3

close_matter-IsClosed_example : IsClosed closed_world closed_matter 3
close_matter-IsClosed_example =
    close_matter-IsClosed site by_value world (session 203) 1 3 true by_status runs.2

save-IsTimed_example : IsTimed (holding world (flagged worked matter)) (flagged worked matter) 5
save-IsTimed_example = save-IsTimed site world (session 203) true matter 5 runs.6 refl refl

-- Of the one matter of the table, a record that belongs to it has the sensitivity.
named_in_plan :
    (n : ℕ) {m : EscalationMatter} → matter_named with_plan n ≡ some m → m.sensitive ≡ false
named_in_plan n {m} h =
    let listed = (find-mem (λ (e : EscalationMatter). e.name == n) with_plan.matters h).0 in
    ap (λ (z : EscalationMatter). z.sensitive) (mem-single listed)

with_plan-IsHanded : IsHanded with_plan
with_plan-IsHanded = (
  λ n m h c mem belongs.
      ap (λ (z : Closure). z.sensitive) (mem-single mem) ∙ sym (named_in_plan n h),
  λ n m h d mem belongs.
      ap (λ (z : Dependent). z.sensitive) (mem-single mem) ∙ sym (named_in_plan n h),
)

save-IsHanded_example : IsHanded sensitive_world
save-IsHanded_example =
    save-IsHanded site with_plan (session 203) true sensitive_matter runs.9 with_plan-IsHanded

authorise-IsAllowed_example :
    (authorise site matter record_review 202 ≡ ok tt) ↔ IsAllowed site matter record_review 202
authorise-IsAllowed_example = authorise-IsAllowed site matter record_review 202

-- A template on the matter, which asks for the accountable executive.
abbrev templated : EscalationMatter
templated = record matter { escalation_template = some 9 }

apply_template-Conforms_example :
    (apply_template (template ∷ []) templated scope_escalation (some medium)
      ≡ ok (with_template templated (some 9)))
    ↔ Conforms template scope_escalation (some medium) (with_template templated (some 9))
apply_template-Conforms_example =
    apply_template-Conforms (template ∷ []) templated scope_escalation (some medium) 9 template refl
      refl
