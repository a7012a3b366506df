-- ===== src/Versions/Chain.antt =====
-- What the creation of a version leaves of the chain.
use enterprise_management.Base.{
  ℕ, ◌≤◌, ◌<◌, ◌≡◌, refl, sym, ◌∙◌, ap, subst, inl, inr, Option, none, some, Bool, true, false,
  ◌&&◌, List, [], ◌∷◌, ◌++◌, Memᴰ, ◌==◌, ==_iff, ltb, same, any, mem-any, find-mem, read, write,
  write-mem, read-write_self, read-write_other, read-append, read-name, mem-append, mem-single, ok,
  >>=-eq-ok, >>-eq-ok, throw_if, demand, ok-injective, some-injective, Bool-cases, &&_parts,
  already_current, arith, uncons,
}
use enterprise_management.Versions.{
  Content, Version, Draft, of_subject, is_other_current, is_current_of, guard_update,
  validate_single_current, validate, insert_version, save_version, current_version, highest,
  next_version_number, stand_down, link_chain, version_of, create_version,
}

abbrev pub named : Version → ℕ
named v = v.name

save_version-inv :
    (permit : Bool) (table : List Version) (v : Version) {after : List Version}
    → save_version permit table v ≡ ok after
    → after ≡ write named v table
unfolding save_version
save_version-inv permit table v h =
    let (valid, e) = >>-eq-ok (validate permit (read named v.name table) table v) _ h in
    sym (ok-injective e)

-- No row but that of the same name is current for the subject.
abbrev pub IsHead : List Version → Version → Type 0
IsHead table v =
    (w : Version)
    → Memᴰ w table
    → is_current_of v.content.subject_doctype v.content.subject_name w ≡ true
    → w.name ≡ v.name

not_another :
    (table : List Version) (v w : Version)
    → throw_if (any (is_other_current v) table) already_current ≡ ok tt
    → Memᴰ w table
    → is_current_of v.content.subject_doctype v.content.subject_name w ≡ true
    → w.name ≡ v.name
not_another table v w h m c = elim (Bool-cases (w.name == v.name)) [
  | inl e ↦ (==_iff w.name v.name).0 e
  | inr e ↦
      let found : any (is_other_current v) table ≡ true =
        mem-any (is_other_current v) m (rw (c, e) refl) in
      absurd (cc (rw found at h))
]

insert_version-inv :
    (table : List Version) (v : Version) {after : List Version}
    → v.is_current ≡ true
    → insert_version table v ≡ ok after
    → (after ≡ table ++ v ∷ []) × IsHead table v
unfolding insert_version validate validate_single_current
insert_version-inv table v current h =
    let (valid, e) = >>-eq-ok (validate false none table v) _ h in
    let (guard, single) = >>-eq-ok (guard_update false none v) _ valid in
    (sym (ok-injective e), λ w m c. not_another table v w (rw current at single) m c)

first_highest :
    (doctype subject : ℕ) (x : Version) (table : List Version)
    → of_subject doctype subject x ≡ true
    → x.content.version_number ≤ highest doctype subject (x ∷ table)
first_highest doctype subject x table h =
    rw h (elim (Bool-cases (ltb x.content.version_number (highest doctype subject table))) [
      | inl e ↦ rw e (ground arith)
      | inr e ↦ rw e (omega arith)
    ])

later_highest :
    (doctype subject : ℕ) (x : Version) (table : List Version) (n : ℕ)
    → n ≤ highest doctype subject table
    → n ≤ highest doctype subject (x ∷ table)
later_highest doctype subject x table n h = elim (Bool-cases (of_subject doctype subject x)) [
  | inl e ↦ rw e (elim (Bool-cases (ltb x.content.version_number (highest doctype subject table))) [
    | inl f ↦ rw f h
    | inr f ↦ rw f (ground arith)
  ])
  | inr e ↦ rw e h
]

highest-le :
    (doctype subject : ℕ) (table : List Version) (v : Version)
    → Memᴰ v table
    → of_subject doctype subject v ≡ true
    → v.content.version_number ≤ highest doctype subject table
highest-le doctype subject [] v m h = elim m [ ]
highest-le doctype subject (x ∷ table) v m h = elim (uncons m) [
  | inl e ↦
      subst (λ (y : Version). y.content.version_number ≤ highest doctype subject (x ∷ table))
        (sym e)
        (first_highest doctype subject x table
          (subst (λ (y : Version). of_subject doctype subject y ≡ true) e h))
  | inr n ↦
      let rest = highest-le doctype subject table v n h in
      later_highest doctype subject x table v.content.version_number rest
]

-- Each row is the one that its name reads.
abbrev pub HasUniqueNames : List Version → Type 0
HasUniqueNames table = (v : Version) → Memᴰ v table → read named v.name table ≡ some v

-- Every row of the first table is in the second with its content.
abbrev pub Keeps : List Version → List Version → Type 0
Keeps table after =
    (n : ℕ) (w : Version)
    → read named n table ≡ some w
    → (w' : Version) × (read named n after ≡ some w') × (w'.content ≡ w.content)

Keeps-write :
    (table : List Version) (v v' : Version)
    → read named v.name table ≡ some v
    → v'.name ≡ v.name
    → v'.content ≡ v.content
    → Keeps table (write named v' table)
Keeps-write table v v' found name content n w h = elim (Bool-cases (v'.name == n)) [
  | inl e ↦
      let at = (==_iff v'.name n).0 e in
      let same_row : w ≡ v =
        some-injective (sym h ∙ ap (λ k. read named k table) (sym at ∙ name) ∙ found) in
      (
        v',
        read-write_self named v' n table at h,
        content ∙ ap (λ (x : Version). x.content) (sym same_row),
      )
  | inr e ↦ (w, read-write_other named v' n table (λ q. cc ((==_iff v'.name n).1 q, e)) ∙ h, refl)
]

Keeps-append : (table : List Version) (v : Version) → Keeps table (table ++ v ∷ [])
Keeps-append table v n w h = (w, read-append named n table v h, refl)

Keeps-trans : (a b c : List Version) → Keeps a b → Keeps b c → Keeps a c
Keeps-trans a b c f g n w h = let (x, e, p) = f n w h in let (y, e', q) = g n x e in (y, e', q ∙ p)

stand_down-Keeps :
    (table : List Version) (previous : Option Version) {stood : List Version}
    → ((p : Version) → previous ≡ some p → read named p.name table ≡ some p)
    → stand_down table previous ≡ ok stood
    → Keeps table stood
unfolding stand_down
stand_down-Keeps table none stored h = subst (Keeps table) (ok-injective h) (λ n w e. (w, e, refl))
stand_down-Keeps table (some p) stored h =
    let after = save_version-inv true table (record p { is_current = false }) h in
    subst (Keeps table) (sym after)
      (Keeps-write table p (record p { is_current = false }) (stored p refl) refl refl)

link_chain-Keeps :
    (table : List Version) (previous : Option Version) (successor : ℕ) {linked : List Version}
    → ((p : Version)
        → previous ≡ some p
        → (x : Version) × (read named p.name table ≡ some x) × (x.content ≡ p.content))
    → link_chain table previous successor ≡ ok linked
    → Keeps table linked
unfolding link_chain
link_chain-Keeps table none successor stored h =
    subst (Keeps table) (ok-injective h) (λ n w e. (w, e, refl))
link_chain-Keeps table (some p) successor stored h =
    let v' : Version = record p { is_current = false; superseded_by = some successor } in
    let after = save_version-inv true table v' h in
    let (x, found, content) = stored p refl in
    let same_name = read-name named p.name table found in
    subst (Keeps table) (sym after) (
      Keeps-write table x v' (subst (λ k. read named k table ≡ some x) (sym same_name) found)
        (sym same_name) (sym content))

link_chain-IsHead :
    (table : List Version) (previous : Option Version) (v : Version) {linked : List Version}
    → ((w : Version)
        → Memᴰ w table
        → is_current_of v.content.subject_doctype v.content.subject_name w ≡ true
        → w.name ≡ v.name)
    → link_chain table previous v.name ≡ ok linked
    → IsHead linked v
unfolding link_chain
link_chain-IsHead table none v head h = subst (λ rows. IsHead rows v) (ok-injective h) head
link_chain-IsHead table (some p) v head h =
    let v' : Version = record p { is_current = false; superseded_by = some v.name } in
    let after = save_version-inv true table v' h in
    λ w m c. elim (write-mem named v' table (subst (Memᴰ w) after m)) [
      | inl e ↦ absurd (
          cc (
            ap (λ (x : Version). x.is_current) e,
            (&&_parts (of_subject v.content.subject_doctype v.content.subject_name w) w.is_current
                c).1,
          ))
      | inr (n, other) ↦ head w n c
    ]

module _ (sha256 : ℕ → ℕ) (table : List Version) (d : Draft) (name : ℕ) where
  -- After a version is created, in a table whose names are unique, no version of the subject but
  -- the new one is current, the number of the new one is above that of every version of the subject
  -- that there was, and every row that there was is still there under its name, with its content.
  pub create_version-IsHead :
      {after : List Version} {v : Version}
      → HasUniqueNames table
      → create_version sha256 table d name ≡ ok (after, v)
      → (v.is_current ≡ true)
        × IsHead after v
        × ((n : ℕ) (w : Version)
            → read named n table ≡ some w
            → of_subject d.subject_doctype d.subject_name w ≡ true
            → w.content.version_number < v.content.version_number)
        × Keeps table after
  unfolding create_version current_version next_version_number
  create_version-IsHead {after} {v} unique h =
      let (summary, given, h1) = >>=-eq-ok (demand d.change_summary _) _ h in
      let previous = current_version table d.subject_doctype d.subject_name in
      let (stood, down, h2) = >>=-eq-ok (stand_down table previous) _ h1 in
      let number = next_version_number stood d.subject_doctype d.subject_name in
      let version = version_of sha256 d summary name previous number in
      let (written, added, h3) = >>=-eq-ok (insert_version stood version) _ h2 in
      let (linked, chained, h4) = >>=-eq-ok (link_chain written previous version.name) _ h3 in
      let (rows, head) = insert_version-inv stood version refl added in
      let stored : (p : Version) → previous ≡ some p → read named p.name table ≡ some p =
        λ p e. unique p (find-mem (is_current_of d.subject_doctype d.subject_name) table e).0 in
      let kept_down = stand_down-Keeps table previous stored down in
      let kept_add : Keeps stood written =
        subst (Keeps stood) (sym rows) (Keeps-append stood version) in
      let kept_written = Keeps-trans table stood written kept_down kept_add in
      let kept_link =
        link_chain-Keeps written previous version.name (λ p e. kept_written p.name p (stored p e))
          chained in
      let head_written : IsHead written version = λ w m c.
        elim (mem-append stood (version ∷ []) (subst (Memᴰ w) rows m)) [
          | inl n ↦ head w n c
          | inr n ↦ ap (λ (x : Version). x.name) (mem-single n)
        ] in
      let new = ap (λ p. p.1) (ok-injective h4) in
      let final = ap (λ p. p.0) (ok-injective h4) in
      let heads = link_chain-IsHead written previous version head_written chained in
      let above : (n : ℕ) (w : Version)
          → read named n table ≡ some w
          → of_subject d.subject_doctype d.subject_name w ≡ true
          → w.content.version_number < number =
        λ n w e s.
          let (x, found, same) = kept_down n w e in
          let of =
            subst
              (λ (y : Content).
                (y.subject_doctype == d.subject_doctype && y.subject_name == d.subject_name) ≡ true)
              (sym same) s in
          let bound =
            highest-le d.subject_doctype d.subject_name stood x
              (find-mem (λ r. named r == n) stood found).0 of in
          let numbers = ap (λ (y : Content). y.version_number) same in omega arith in
      (
        subst (λ (y : Version). y.is_current ≡ true) new refl,
        subst (λ p. IsHead p.0 p.1) (ok-injective h4) heads,
        λ n w e s.
            subst (λ (y : Version). w.content.version_number < y.content.version_number) new
              (above n w e s),
        subst (Keeps table) final (Keeps-trans table written linked kept_written kept_link),
      )

  pub create_version-content :
      {after : List Version} {v : Version}
      → create_version sha256 table d name ≡ ok (after, v)
      → (v.content.body_text ≡ d.body_text)
        × (v.content.body_file ≡ d.body_file)
        × (v.content.metadata_snapshot ≡ d.snapshot)
        × (v.content.subject_doctype ≡ d.subject_doctype)
        × (v.content.subject_name ≡ d.subject_name)
  unfolding create_version
  create_version-content h =
      let (summary, given, h1) = >>=-eq-ok (demand d.change_summary _) _ h in
      let previous = current_version table d.subject_doctype d.subject_name in
      let (stood, down, h2) = >>=-eq-ok (stand_down table previous) _ h1 in
      let number = next_version_number stood d.subject_doctype d.subject_name in
      let version = version_of sha256 d summary name previous number in
      let (written, added, h3) = >>=-eq-ok (insert_version stood version) _ h2 in
      let (linked, chained, h4) = >>=-eq-ok (link_chain written previous version.name) _ h3 in
      let new = ap (λ p. p.1.content) (ok-injective (sym h4)) in
      (
        ap (λ (x : Content). x.body_text) new,
        ap (λ (x : Content). x.body_file) new,
        ap (λ (x : Content). x.metadata_snapshot) new,
        ap (λ (x : Content). x.subject_doctype) new,
        ap (λ (x : Content). x.subject_name) new,
      )
