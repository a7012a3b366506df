-- ===== src/Retention/Guards.antt =====
-- The guards of a save and a delete, with the shortcut over the controlled DocTypes.
use enterprise_management.Base.{
  Attempt, ℕ, ◌≡◌, refl, none, Bool, true, false, not, ◌&&◌, ◌||◌, List, [], ◌∷◌, arith, any, find,
  filter, if◌then◌else◌, Result, ok, modify, delete, Bool-cases, inl, inr, ◌==◌,
}
use enterprise_management.Retention.{
  Registry, Hold, Archive, Document, Session, active_legal_hold, is_hold_on, is_assigned_to,
  is_archive_of, effective_retention, retention_lock, is_controlled, is_exempt, is_guarded,
  refuse_locked, guard_modification, guard_deletion,
}

module _ {A : Type 0} (p q : A → Bool) (imp : (a : A) → p a ≡ false → q a ≡ false) where
  none-found : (xs : List A) → any p xs ≡ false → find q xs ≡ none
  none-found [] h = refl
  none-found (x ∷ xs) h = ground (arith, none-found xs, imp x)

  none-any : (xs : List A) → any p xs ≡ false → any q xs ≡ false
  none-any [] h = refl
  none-any (x ∷ xs) h = ground (arith, none-any xs, imp x)

none-filtered : {A : Type 0} (p : A → Bool) (xs : List A) → any p xs ≡ false → filter p xs ≡ []
none-filtered p [] h = refl
none-filtered p (x ∷ xs) h = ground (arith, none-filtered p xs)

module _ (r : Registry) (doctype name : ℕ) (free : is_controlled r doctype ≡ false) where
  no-sources :
      (any (is_assigned_to r doctype) r.assignments ≡ false)
      × (any (λ h. h.scope_doctype == doctype && h.active) r.holds ≡ false)
      × (any (λ a. a.subject_doctype == doctype) r.archives ≡ false)
  unfolding is_controlled
  no-sources = ground arith

  no-hold : active_legal_hold r doctype name ≡ none
  unfolding active_legal_hold
  no-hold =
      none-found (λ (h : Hold). h.scope_doctype == doctype && h.active) (is_hold_on r doctype name)
        (λ h e. ground arith) r.holds no-sources.1

  no-archive : any (is_archive_of r doctype name) r.archives ≡ false
  no-archive =
      none-any (λ (a : Archive). a.subject_doctype == doctype) (is_archive_of r doctype name)
        (λ a e. ground arith) r.archives no-sources.2

  no-assignment : effective_retention r doctype name ≡ none
  unfolding effective_retention
  no-assignment = rw (none-filtered (is_assigned_to r doctype) r.assignments no-sources.0)

  -- No record of a DocType that nothing controls is locked.
  free-lock : retention_lock r doctype name ≡ none
  unfolding retention_lock
  free-lock = rw (no-hold, no-archive, no-assignment)

module _ (r : Registry) (s : Session) (d : Document) where
  shortcut :
      (new : Bool) (attempt : Attempt)
      → (if new || not (if is_exempt s d then false else is_controlled r d.doctype)
          then ok tt
          else refuse_locked (retention_lock r d.doctype d.name) d attempt)
        ≡ (if new || is_exempt s d
            then ok tt
            else refuse_locked (retention_lock r d.doctype d.name) d attempt)
  shortcut new attempt = elim (Bool-cases (is_controlled r d.doctype)) [
    | inl e ↦ rw e (either new (is_exempt s d) _)
    | inr e ↦ rw (e, free-lock r d.doctype d.name e) (both new (is_exempt s d))
  ]
    where
      either :
          (new exempt : Bool) (other : Result (Unit {0}))
          → (if new || not (if exempt then false else true) then ok tt else other)
            ≡ (if new || exempt then ok tt else other)
      either new exempt other = ground arith

      both :
          (new exempt : Bool)
          → ◌≡◌ {A = Result (Unit {0})}
              (if new || not (if exempt then false else false) then ok tt else ok tt)
              (if new || exempt then ok tt else ok tt)
      both new exempt = ground arith

  -- A save of a record, and its deletion, is refused exactly when its lock says so, unless its
  -- DocType or the session is exempt, and for a save, unless the record is new: the shortcut over
  -- the controlled DocTypes lets no locked record pass.
  pub guard_modification-lock :
      (guard_modification r s d ≡ (
        if d.is_new || is_exempt s d
        then ok tt
        else refuse_locked (retention_lock r d.doctype d.name) d modify))
      × (guard_deletion r s d ≡ (
          if is_exempt s d
          then ok tt
          else refuse_locked (retention_lock r d.doctype d.name) d delete))
  unfolding guard_modification guard_deletion is_guarded
  guard_modification-lock = (shortcut d.is_new modify, shortcut false delete)
