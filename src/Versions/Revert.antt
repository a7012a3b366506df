-- ===== src/Versions/Revert.antt =====
-- consilium_core/versioning.py: the revert to a prior version, which writes a new one.
-- `summary_text` makes the change summary of the target's number and the justification.
pub mod Restored
use enterprise_management.Base.{
  ℕ, suc, Option, none, some, Bool, true, false, not, ◌&&◌, ◌||◌, List, [], ◌∷◌, ◌++◌, map,
  if◌then◌else◌, ◌==◌, is_some, contains, get, put, read, Result, ok, err, thrown, Refusal, ◌>>=◌,
  ◌>>◌, throw_if, refuse_if, demand, revert, revert_justification, already_current, no_chain,
  wrong_subject, record_missing,
}
use enterprise_management.StateFlags.{ByValue, FlagMap, workflow_state}
use enterprise_management.Versions.{
  Snapshot, reverted, Content, Version, of_subject, current_version, Draft, create_version,
}

-- The columns of the framework: name, parent, parenttype and parentfield.
abbrev pub structural_fields : List ℕ
structural_fields = 1001 ∷ 1002 ∷ 1003 ∷ 1004 ∷ []

abbrev pub listed : Option ℕ → List ℕ
listed none = []
listed (some field) = field ∷ []

-- `flag_names` are the names of FLAG_FIELDS, `read_only` the read-only fields of the DocType.
unfoldable pub protected_fields : FlagMap → Option ℕ → (flag_names read_only : List ℕ) → List ℕ
protected_fields mapping workflow_field flag_names read_only =
    workflow_state
    ∷ (flag_names
        ++ (map (λ (i : ℕ × ByValue). i.0) mapping ++ (listed workflow_field ++ read_only)))

-- The loop over the fields of the snapshot.
pub restore : List ℕ → (ℕ → Bool) → Snapshot → Snapshot → Snapshot
restore protected has_field [] subject = subject
restore protected has_field ((field, value) ∷ snapshot) subject =
    restore protected has_field snapshot (
      if contains structural_fields field || contains protected field
      then subject
      else if has_field field
      then put field value subject
      else subject)

-- A Version Revert Log row.
pub record RevertLog : Type 0 where
  pub subject_doctype : ℕ
  pub subject_name : ℕ
  pub from_version : ℕ
  pub target_version : ℕ
  pub resulting_version : ℕ
  pub reverted_by : ℕ
  pub reverted_on : ℕ
  pub justification : Option ℕ
  pub approved_by : Option ℕ

pub record Reverted : Type 0 where
  pub versions : List Version
  pub subject : Snapshot
  pub resulting : Version
  pub log : RevertLog

abbrev pub unjustified : ℕ → ℕ → Refusal
unjustified doctype subject = record {
  subject_doctype = doctype;
  subject_name = subject;
  attempted_action = revert;
  control = revert_justification;
  retention_class = none;
  legal_hold = none;
}

-- The version that a revert writes.
abbrev pub draft_of : Version → ℕ → Draft
draft_of t summary = record {
  subject_doctype = t.content.subject_doctype;
  subject_name = t.content.subject_name;
  snapshot = t.content.metadata_snapshot;
  change_summary = some summary;
  origin = reverted;
  body_file = t.content.body_file;
  body_text = t.content.body_text;
  version_label = t.content.version_label;
  classification_assessment = none;
  change_classification = t.content.change_classification;
  retention_class = t.content.retention_class;
  published = false;
}

module _ (sha256 : ℕ → ℕ) (summary_text : ℕ → Option ℕ → ℕ)
    (save_subject : Snapshot → Result Snapshot) (protected : List ℕ) (has_field : ℕ → Bool) where
  -- `if apply_to_subject`
  unfoldable pub apply_snapshot : Bool → Snapshot → Snapshot → Result Snapshot
  unfolding restore
  apply_snapshot true snapshot subject = save_subject (restore protected has_field snapshot subject)
  apply_snapshot false snapshot subject = ok subject

  unfoldable pub revert_to_version :
      List Version
      → Snapshot
      → (doctype subject_name target : ℕ) → Option ℕ
      → Option ℕ
      → Bool
      → (name user now : ℕ) → Result Reverted
  revert_to_version table subject doctype subject_name target justification approved_by
        apply_to_subject name user now =
      do
        refuse_if (not (is_some justification)) (unjustified doctype subject_name)
        t ← demand (read (λ (v : Version). v.name) target table) (thrown record_missing)
        throw_if (not (of_subject doctype subject_name t)) wrong_subject
        head ← demand (current_version table doctype subject_name) (thrown no_chain)
        throw_if (head.name == t.name) already_current
        after ← apply_snapshot apply_to_subject t.content.metadata_snapshot subject
        (versions, v) ←
            create_version sha256 table
              (draft_of t (summary_text t.content.version_number justification)) name
        let log : RevertLog = record {
          subject_doctype = doctype;
          subject_name = subject_name;
          from_version = head.name;
          target_version = t.name;
          resulting_version = v.name;
          reverted_by = user;
          reverted_on = now;
          justification = justification;
          approved_by = approved_by;
        }
        ok (record { versions = versions; subject = after; resulting = v; log = log })
