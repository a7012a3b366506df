-- ===== src/Matters/Saving/Kept.antt =====
-- A save, or the insertion of a matter, keeps every stored matter sound.
use enterprise_management.Base.{
  Option, ◌≡◌, sym, subst, inl, inr, none, Bool, false, List, [], ◌∷◌, ◌++◌, Memᴰ, mem-append,
  mem-single, write, write-mem, ok, >>=-eq-ok,
}
use enterprise_management.StateFlags.{ByValue, get_flag_map}
use enterprise_management.Matters.{EscalationMatter, matter_doctype, status_field}
use enterprise_management.Matters.Site.{Site, Session}
use enterprise_management.Matters.Saving.{
  World, Closure, stored, matter_named, name_of, insert, before_insert, saving, validate,
}
use enterprise_management.Matters.Saving.Passed.{validate-Passed}
use enterprise_management.Matters.Saving.Marked.{has_summary_same, Updated-gist}
use enterprise_management.Matters.Saving.Stored.{Updated, Saved, on_update-Updated}
use enterprise_management.Matters.Saving.Sound.{
  IsSound, with_closures, Updated-IsSound, Passed-IsSound, Saved-IsSound,
}

-- The configuration that makes the flags of a matter those of its status.
abbrev pub ByStatus : Site → ByValue → Type 0
ByStatus site by_value =
    get_flag_map site.timing.flag_rows matter_doctype ≡ (status_field, by_value) ∷ []

module _ (site : Site) (by_value : ByValue) where
  -- Every stored matter is sound.
  abbrev pub AllSound : World → Type 0
  AllSound w = (m : EscalationMatter) → Memᴰ m w.matters → IsSound site by_value w.closures m

  pub written-AllSound :
      (closures : List Closure) (m : EscalationMatter) (matters : List EscalationMatter)
      → IsSound site by_value closures m
      → ((e : EscalationMatter) → Memᴰ e matters → IsSound site by_value closures e)
      → (e : EscalationMatter) → Memᴰ e (write name_of m matters)
      → IsSound site by_value closures e
  written-AllSound closures m matters sound all e mem = elim (write-mem name_of m matters mem) [
    | inl same ↦ subst (λ (z : EscalationMatter). IsSound site by_value closures z) (sym same) sound
    | inr (listed, other) ↦ all e listed
  ]

  -- With the closures as an update leaves them.
  updated_closures :
      (w : World) (before : Option EscalationMatter) (m : EscalationMatter) {w' : World}
      {m' : EscalationMatter}
      → Updated w before m w' m'
      → ((e : EscalationMatter) → Memᴰ e w'.matters → IsSound site by_value w.closures e)
      → AllSound w'
  updated_closures w before m {w'} {m'} u all e mem =
      with_closures site by_value w.closures w'.closures e
        (has_summary_same _ _ (Updated-gist w before m u e.name)) (all e mem)

  module _ (by_status : ByStatus site by_value) where
    pub Saved-AllSound :
        (w : World) (by : Session) (ignore_permissions : Bool) (m0 : EscalationMatter) {w' : World}
        {m : EscalationMatter}
        → Saved site w by ignore_permissions m0 w' m
        → AllSound w
        → AllSound w'
    Saved-AllSound w by ignore_permissions m0 {w'} {m} s all =
        updated_closures (stored w s.checked) (matter_named w m0.name) s.checked s.update (λ e mem.
          written-AllSound w.closures m w.matters
            (Saved-IsSound site by_value by_status w by ignore_permissions m0 s) all e
            (subst (λ (z : List EscalationMatter). Memᴰ e z) s.matters mem))

    appended :
        (w : World) (m : EscalationMatter)
        → IsSound site by_value w.closures m
        → AllSound w
        → (e : EscalationMatter) → Memᴰ e (w.matters ++ m ∷ [])
        → IsSound site by_value w.closures e
    appended w m sound all e mem = elim (mem-append w.matters (m ∷ []) mem) [
      | inl listed ↦ all e listed
      | inr last ↦
          subst (λ (z : EscalationMatter). IsSound site by_value w.closures z)
            (sym (mem-single last)) sound
    ]

    pub insert-AllSound :
        (w : World) (by : Session) (m0 : EscalationMatter) {w' : World} {m : EscalationMatter}
        → insert site w by m0 ≡ ok (w', m)
        → AllSound w
        → AllSound w'
    unfolding insert
    insert-AllSound w by m0 {w'} {m} h all =
        let (v, e, rest) =
          >>=-eq-ok (validate site w.closures by (saving site w m0 false) (before_insert m0 by.now))
            _ h in
        let w1 : World = record w { matters = w.matters ++ v ∷ [] } in
        let u = on_update-Updated site w1 none v by rest in
        let sound =
          Passed-IsSound site by_value by_status w.closures by (saving site w m0 false)
            (before_insert m0 by.now)
            (validate-Passed site w.closures by (saving site w m0 false) (before_insert m0 by.now)
              e) in
        let timed = Updated-IsSound site by_value w.closures w1 none v u sound in
        updated_closures w1 none v u (λ e mem. elim u.matters [
          | inl (kept, same) ↦
              appended w v sound all e (subst (λ (z : List EscalationMatter). Memᴰ e z) kept mem)
          | inr written ↦
              written-AllSound w.closures m w1.matters timed (appended w v sound all) e
                (subst (λ (z : List EscalationMatter). Memᴰ e z) written mem)
        ])
