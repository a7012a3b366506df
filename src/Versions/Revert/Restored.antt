-- ===== src/Versions/Revert/Restored.antt =====
-- What a revert restores, and what it leaves alone.
use enterprise_management.Base.{
  ℕ, ◌≡◌, ◌≢◌, refl, ◌∙◌, subst, inl, inr, Option, some, Bool, true, not, ◌||◌, List, [], ◌∷◌,
  if◌then◌else◌, ◌==◌, ==_iff, contains, get, put, read, is_some, Result, ok, >>=-eq-ok,
  throw_if-eq-ok, refuse_if-eq-ok, demand, demand-eq-ok, ok-injective, Bool-cases, not-false, arith,
  wrong_subject, already_current,
}
use enterprise_management.Versions.{Snapshot, Version, of_subject, current_version, create_version}
use enterprise_management.Versions.Chain.{
  IsHead, Keeps, HasUniqueNames, named, create_version-IsHead, create_version-content,
}
use enterprise_management.Versions.Revert.{
  structural_fields, restore, unjustified, draft_of, apply_snapshot, Reverted, revert_to_version,
}

get-put_other : (k j : ℕ) (v : Option ℕ) (d : Snapshot) → j ≢ k → get k (put j v d) ≡ get k d
get-put_other k j v [] ne = elim (Bool-cases (j == k)) [
  | inl e ↦ absurd (ne ((==_iff j k).0 e))
  | inr e ↦ rw e refl
]
get-put_other k j v ((i, w) ∷ d) ne =
    let rest = get-put_other k j v d ne in ground (arith, ==_iff i j, ==_iff i k, ==_iff j k)

-- A restored subject has its own value in each protected field and in each of the framework's.
restore-protected :
    (protected : List ℕ) (has_field : ℕ → Bool) (snapshot subject : Snapshot) (field : ℕ)
    → (contains structural_fields field || contains protected field) ≡ true
    → get field (restore protected has_field snapshot subject) ≡ get field subject
unfolding restore
restore-protected protected has_field [] subject field h = refl
restore-protected protected has_field ((f, value) ∷ snapshot) subject field h =
    let step : get field (
          if contains structural_fields f || contains protected f
          then subject
          else if has_field f
          then put f value subject
          else subject)
        ≡ get field subject =
      elim (Bool-cases (contains structural_fields f || contains protected f)) [
        | inl e ↦ rw e refl
        | inr e ↦ rw e (elim (Bool-cases (has_field f)) [
          | inl g ↦ rw g (get-put_other field f value subject (λ q. cc (h, e, q)))
          | inr g ↦ rw g refl
        ])
      ] in
    restore-protected protected has_field snapshot _ field h ∙ step

module _ (sha256 : ℕ → ℕ) (summary_text : ℕ → Option ℕ → ℕ)
    (save_subject : Snapshot → Result Snapshot) (protected : List ℕ) (has_field : ℕ → Bool)
    (table : List Version) (subject : Snapshot) (doctype subject_name target : ℕ)
    (justification approved_by : Option ℕ) (apply_to_subject : Bool) (name user now : ℕ) where
  -- A revert that is made has a justification and a target of the record, in a table whose names are
  -- unique. The new version has the body and the snapshot of the target and is the only current one
  -- of the record; the log names the target and the new version. Every version that there was, the
  -- target included, is still there with its content.
  pub revert_to_version-Keeps :
      {r : Reverted}
      → HasUniqueNames table
      → revert_to_version sha256 summary_text save_subject protected has_field table subject doctype
          subject_name target justification approved_by apply_to_subject name user now
        ≡ ok r
      → (is_some justification ≡ true)
        × ((t : Version) × (read named target table ≡ some t)
            × (of_subject doctype subject_name t ≡ true)
            × (r.resulting.content.body_text ≡ t.content.body_text)
            × (r.resulting.content.body_file ≡ t.content.body_file)
            × (r.resulting.content.metadata_snapshot ≡ t.content.metadata_snapshot)
            × (r.log.target_version ≡ t.name))
        × (r.log.resulting_version ≡ r.resulting.name)
        × IsHead r.versions r.resulting
        × Keeps table r.versions
  unfolding revert_to_version
  revert_to_version-Keeps {r} unique h =
      let (given, h1) =
        refuse_if-eq-ok (not (is_some justification)) (unjustified doctype subject_name) _ h in
      let (t, e, h2) = >>=-eq-ok (demand (read named target table) _) _ h1 in
      let (own, h3) = throw_if-eq-ok (not (of_subject doctype subject_name t)) wrong_subject _ h2 in
      let (head, found, h4) =
        >>=-eq-ok (demand (current_version table doctype subject_name) _) _ h3 in
      let (other, h5) = throw_if-eq-ok (head.name == t.name) already_current _ h4 in
      let (after, saved, h6) =
        >>=-eq-ok
          (apply_snapshot sha256 summary_text save_subject protected has_field apply_to_subject
            t.content.metadata_snapshot subject)
          _ h5 in
      let draft = draft_of t (summary_text t.content.version_number justification) in
      let ((versions, v), made, h7) = >>=-eq-ok (create_version sha256 table draft name) _ h6 in
      let (current, is_head, above, kept) =
        create_version-IsHead sha256 table draft name unique made in
      let (body, file, snapshot, subject_type, subject_of) =
        create_version-content sha256 table draft name made in
      subst
        (λ (x : Reverted).
          (is_some justification ≡ true)
          × ((t : Version) × (read named target table ≡ some t)
              × (of_subject doctype subject_name t ≡ true)
              × (x.resulting.content.body_text ≡ t.content.body_text)
              × (x.resulting.content.body_file ≡ t.content.body_file)
              × (x.resulting.content.metadata_snapshot ≡ t.content.metadata_snapshot)
              × (x.log.target_version ≡ t.name))
          × (x.log.resulting_version ≡ x.resulting.name)
          × IsHead x.versions x.resulting
          × Keeps table x.versions)
        (ok-injective h7)
        (
          not-false (is_some justification) given,
          (
            t,
            demand-eq-ok _ _ e,
            not-false (of_subject doctype subject_name t) own,
            body,
            file,
            snapshot,
            refl,
          ),
          refl,
          is_head,
          kept,
        )
