-- ===== src/Versions.antt =====
-- consilium_core/versioning.py with append_only.py and the Document Version controller: the chain
-- of versions of a record. `sha256` stands for the digest of a body, `save_subject` for the save
-- of the subject by its own controller.
pub mod Chain
pub mod Revert
mod Tests
use enterprise_management.Base.{
  ℕ, suc, ◌+◌, Option, none, some, Bool, true, false, not, ◌&&◌, ◌||◌, List, [], ◌∷◌, ◌++◌, map,
  if◌then◌else◌, ◌==◌, ltb, leb, is_some, is_empty, same, bool_eq, any, find, filter, contains,
  sort_by, get, put, read, write, Result, ok, err, thrown, refused, Refusal, ◌>>=◌, ◌>>◌, throw_if,
  refuse_if, demand, modify, delete, revert, version_append_only, revert_justification,
  already_current, no_chain, wrong_subject, no_change_summary, record_missing,
}
use enterprise_management.StateFlags.{FlagMap}

pub data Origin : Type 0 where
  authored reverted : Origin
  other_origin : ℕ → Origin

abbrev pub origin_eq : Origin → Origin → Bool
origin_eq authored authored = true
origin_eq reverted reverted = true
origin_eq (other_origin a) (other_origin b) = a == b
origin_eq _ _ = false

-- The columns of a record by their fields.
abbrev pub Snapshot : Type 0
Snapshot = List (ℕ × Option ℕ)

abbrev pub snapshot_eq : Snapshot → Snapshot → Bool
snapshot_eq [] [] = true
snapshot_eq ((f, a) ∷ xs) ((g, b) ∷ ys) = f == g && (same a b && snapshot_eq xs ys)
snapshot_eq _ _ = false

-- What a version is about and holds.
pub record Content : Type 0 where
  pub subject_doctype : ℕ
  pub subject_name : ℕ
  pub version_number : ℕ
  pub version_label : Option ℕ
  pub body_file : Option ℕ
  pub body_text : Option ℕ
  pub body_sha256 : Option ℕ
  pub metadata_snapshot : Snapshot
  pub change_summary : ℕ
  pub change_classification : Option ℕ
  pub classification_assessment : Option ℕ
  pub created_from_version : Option ℕ
  pub origin : Origin
  pub published : Bool
  pub retention_class : Option ℕ

-- The rest are CHAIN_FIELDS.
pub record Version : Type 0 where
  pub name : ℕ
  pub content : Content
  pub is_current : Bool
  pub superseded_by : Option ℕ

abbrev pub document_version : ℕ
document_version = 4

-- No field outside CHAIN_FIELDS differs.
unfoldable pub same_content : Content → Content → Bool
same_content a b =
    a.subject_doctype == b.subject_doctype
    && (a.subject_name == b.subject_name
        && (a.version_number == b.version_number
            && (same a.version_label b.version_label
                && (same a.body_file b.body_file
                    && (same a.body_text b.body_text
                        && (same a.body_sha256 b.body_sha256
                            && (snapshot_eq a.metadata_snapshot b.metadata_snapshot
                                && (a.change_summary == b.change_summary
                                    && (same a.change_classification b.change_classification
                                        && (same a.classification_assessment
                                              b.classification_assessment
                                            && (same a.created_from_version b.created_from_version
                                                && (origin_eq a.origin b.origin
                                                    && (bool_eq a.published b.published
                                                        && same a.retention_class
                                                            b.retention_class)))))))))))))

unfoldable pub same_chain : Version → Version → Bool
same_chain a b = bool_eq a.is_current b.is_current && same a.superseded_by b.superseded_by

abbrev pub append_only_refusal : Version → Refusal
append_only_refusal v = record {
  subject_doctype = document_version;
  subject_name = v.name;
  attempted_action = modify;
  control = version_append_only;
  retention_class = none;
  legal_hold = none;
}

-- `guard_update`; `chain_update` is the flag that permits the chain fields.
unfoldable pub guard_update : Bool → Option Version → Version → Result (Unit {0})
guard_update chain_update none v = ok tt
guard_update chain_update (some before) v =
    refuse_if (not (same_content before.content v.content && (chain_update || same_chain before v)))
      (append_only_refusal v)

unfoldable pub guard_delete : Version → Result (Unit {0})
guard_delete v = err (refused (record (append_only_refusal v) { attempted_action = delete }))

abbrev pub of_subject : ℕ → ℕ → Version → Bool
of_subject doctype subject v =
    v.content.subject_doctype == doctype && v.content.subject_name == subject

abbrev pub is_other_current : Version → Version → Bool
is_other_current v w =
    (of_subject v.content.subject_doctype v.content.subject_name w && w.is_current)
    && not (w.name == v.name)

unfoldable pub validate_single_current : List Version → Version → Result (Unit {0})
validate_single_current table v =
    if not v.is_current then ok tt else throw_if (any (is_other_current v) table) already_current

-- DocumentVersion.validate
unfoldable pub validate : Bool → Option Version → List Version → Version → Result (Unit {0})
validate chain_update before table v = do
  guard_update chain_update before v
  validate_single_current table v

unfoldable pub insert_version : List Version → Version → Result (List Version)
insert_version table v = do validate false none table v; ok (table ++ v ∷ [])

unfoldable pub save_version : Bool → List Version → Version → Result (List Version)
save_version chain_update table v = do
  validate chain_update (read (λ (w : Version). w.name) v.name table) table v
  ok (write (λ (w : Version). w.name) v table)

abbrev pub is_current_of : ℕ → ℕ → Version → Bool
is_current_of doctype subject v = of_subject doctype subject v && v.is_current

unfoldable pub current_version : List Version → ℕ → ℕ → Option Version
current_version table doctype subject = find (is_current_of doctype subject) table

abbrev pub larger : ℕ → ℕ → ℕ
larger a b = if ltb a b then b else a

abbrev pub highest : ℕ → ℕ → List Version → ℕ
highest doctype subject [] = 0
highest doctype subject (v ∷ table) =
    let rest = highest doctype subject table in
    if of_subject doctype subject v then larger v.content.version_number rest else rest

unfoldable pub next_version_number : List Version → ℕ → ℕ → ℕ
next_version_number table doctype subject = highest doctype subject table + 1

-- The history of a record, oldest first.
unfoldable pub version_history : List Version → ℕ → ℕ → List ℕ
version_history table doctype subject =
    map (λ (v : Version). v.name)
      (sort_by (λ (a b : Version). leb a.content.version_number b.content.version_number)
        (filter (of_subject doctype subject) table))

-- What the caller gives; `snapshot` is the one given, or that of the subject.
pub record Draft : Type 0 where
  pub subject_doctype : ℕ
  pub subject_name : ℕ
  pub snapshot : Snapshot
  pub change_summary : Option ℕ
  pub origin : Origin
  pub body_file : Option ℕ
  pub body_text : Option ℕ
  pub version_label : Option ℕ
  pub classification_assessment : Option ℕ
  pub change_classification : Option ℕ
  pub retention_class : Option ℕ
  pub published : Bool

abbrev pub name_of : Option Version → Option ℕ
name_of none = none
name_of (some v) = some v.name

unfoldable pub stand_down : List Version → Option Version → Result (List Version)
stand_down table none = ok table
stand_down table (some v) = save_version true table (record v { is_current = false })

-- The document still has the flag that `stand_down` cleared.
unfoldable pub link_chain : List Version → Option Version → ℕ → Result (List Version)
link_chain table none successor = ok table
link_chain table (some v) successor =
    save_version true table (record v { is_current = false; superseded_by = some successor })

abbrev pub digest : (ℕ → ℕ) → Option ℕ → Option ℕ
digest sha256 none = none
digest sha256 (some body) = some (sha256 body)

module _ (sha256 : ℕ → ℕ) where
  -- `name` is the new version's.
  abbrev pub version_of : Draft → ℕ → ℕ → Option Version → ℕ → Version
  version_of d summary name previous number = record {
    name = name;
    content = record {
      subject_doctype = d.subject_doctype;
      subject_name = d.subject_name;
      version_number = number;
      version_label = d.version_label;
      body_file = d.body_file;
      body_text = d.body_text;
      body_sha256 = digest sha256 d.body_text;
      metadata_snapshot = d.snapshot;
      change_summary = summary;
      change_classification = d.change_classification;
      classification_assessment = d.classification_assessment;
      created_from_version = name_of previous;
      origin = d.origin;
      published = d.published;
      retention_class = d.retention_class;
    };
    is_current = true;
    superseded_by = none;
  }

  unfoldable pub create_version : List Version → Draft → ℕ → Result (List Version × Version)
  create_version table d name = do
    summary ← demand d.change_summary (thrown no_change_summary)
    let previous = current_version table d.subject_doctype d.subject_name
    stood ← stand_down table previous
    let number = next_version_number stood d.subject_doctype d.subject_name
    let version = version_of d summary name previous number
    written ← insert_version stood version
    linked ← link_chain written previous version.name
    ok (linked, version)
