-- ===== src/Versions/Tests.antt =====
-- A chain of two versions, reverted to the first; and the theorems about it at these inputs.
use enterprise_management.Base.{
  ℕ, suc, ◌<◌, ◌≡◌, refl, Option, none, some, Bool, true, false, List, [], ◌∷◌, Memᴰ, ok, err,
  refused, thrown, already_current, Result, read, is_some,
}
use enterprise_management.Versions.{
  Snapshot, authored, reverted, Version, of_subject, Draft, same_content, same_chain, guard_update,
  validate_single_current, validate, insert_version, save_version, append_only_refusal,
  current_version, next_version_number, stand_down, link_chain, create_version,
}
use enterprise_management.Versions.Chain.{
  named, IsHead, HasUniqueNames, Keeps, create_version-IsHead,
}
use enterprise_management.Versions.Revert.{Reverted, unjustified, apply_snapshot, revert_to_version}
use enterprise_management.Versions.Revert.Restored.{revert_to_version-Keeps}

abbrev sha : ℕ → ℕ
sha body = suc body

abbrev summary : ℕ → Option ℕ → ℕ
summary number justification = 77

abbrev saved_as_is : Snapshot → Result Snapshot
saved_as_is s = ok s

abbrev any_field : ℕ → Bool
any_field f = true

abbrev first : Version
first = record {
  name = 1;
  content = record {
    subject_doctype = 7;
    subject_name = 70;
    version_number = 1;
    version_label = none;
    body_file = none;
    body_text = some 500;
    body_sha256 = some 501;
    metadata_snapshot = (20, some 1) ∷ (21, some 5) ∷ [];
    change_summary = 9;
    change_classification = none;
    classification_assessment = none;
    created_from_version = none;
    origin = authored;
    published = false;
    retention_class = none;
  };
  is_current = false;
  superseded_by = some 2;
}

abbrev second : Version
second = record first {
  name = 2;
  content = record first.content {
    version_number = 2;
    body_text = some 600;
    body_sha256 = some 601;
    metadata_snapshot = (20, some 2) ∷ (21, some 6) ∷ [];
    created_from_version = some 1;
  };
  is_current = true;
  superseded_by = none;
}

abbrev table : List Version
table = first ∷ second ∷ []

abbrev third : Version
third = record first {
  name = 3;
  content = record first.content {
    version_number = 3;
    change_summary = 77;
    created_from_version = some 2;
    origin = reverted;
  };
  is_current = true;
  superseded_by = none;
}

abbrev chain : List Version
chain = first ∷ record second { is_current = false; superseded_by = some 3 } ∷ third ∷ []

abbrev done : Reverted
done = record {
  versions = chain;
  subject = (20, some 1) ∷ (21, some 6) ∷ [];
  resulting = third;
  log = record {
    subject_doctype = 7;
    subject_name = 70;
    from_version = 2;
    target_version = 1;
    resulting_version = 3;
    reverted_by = 30;
    reverted_on = 900;
    justification = some 4;
    approved_by = none;
  };
}

program : Unit {0}
unfolding same_content same_chain guard_update validate_single_current validate insert_version
    save_version current_version next_version_number stand_down link_chain create_version
    apply_snapshot revert_to_version
program = tt

-- Field 21 is protected.
reverts :
    revert_to_version sha summary saved_as_is
      (21 ∷ [])
      any_field
      table
      ((20, some 2) ∷ (21, some 6) ∷ [])
      7
      70
      1
      (some 4)
      none
      true
      3
      30
      900
    ≡ ok done
unfolding program
reverts = refl

to_head :
    revert_to_version sha summary saved_as_is [] any_field table [] 7 70 2
      (some 4)
      none
      true
      3
      30
      900
    ≡ err (thrown already_current)
unfolding program
to_head = refl

unreasoned :
    revert_to_version sha summary saved_as_is [] any_field table [] 7 70 1 none none true 3 30 900
    ≡ err (refused (unjustified 7 70))
unfolding program
unreasoned = refl

rewritten :
    save_version true table (record first { content = record first.content { change_summary = 8 } })
    ≡ err (refused (append_only_refusal first))
unfolding program
rewritten = refl

unique : HasUniqueNames table
unique v (Memᴰ.head e) = rw e refl
unique v (Memᴰ.tail (Memᴰ.head e)) = rw e refl
unique v (Memᴰ.tail (Memᴰ.tail m)) = elim m [ ]

abbrev draft : Draft
draft = record {
  subject_doctype = 7;
  subject_name = 70;
  snapshot = (20, some 1) ∷ (21, some 5) ∷ [];
  change_summary = some 77;
  origin = reverted;
  body_file = none;
  body_text = some 500;
  version_label = none;
  classification_assessment = none;
  change_classification = none;
  retention_class = none;
  published = false;
}

created : create_version sha table draft 3 ≡ ok (chain, third)
unfolding program
created = refl

create_version-IsHead_example :
    (third.is_current ≡ true)
    × IsHead chain third
    × ((n : ℕ) (w : Version)
        → read named n table ≡ some w
        → of_subject 7 70 w ≡ true
        → w.content.version_number < third.content.version_number)
    × Keeps table chain
create_version-IsHead_example = create_version-IsHead sha table draft 3 unique created

revert_to_version-Keeps_example :
    (is_some {A = ℕ} (some 4) ≡ true)
    × ((t : Version) × (read named 1 table ≡ some t)
        × (of_subject 7 70 t ≡ true)
        × (third.content.body_text ≡ t.content.body_text)
        × (third.content.body_file ≡ t.content.body_file)
        × (third.content.metadata_snapshot ≡ t.content.metadata_snapshot)
        × (done.log.target_version ≡ t.name))
    × (done.log.resulting_version ≡ third.name)
    × IsHead chain third
    × Keeps table chain
revert_to_version-Keeps_example =
    revert_to_version-Keeps sha summary saved_as_is (21 ∷ []) any_field table
      ((20, some 2) ∷ (21, some 6) ∷ []) 7 70 1 (some 4) none true 3 30 900 unique reverts
