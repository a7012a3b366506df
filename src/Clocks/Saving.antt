-- ===== src/Clocks/Saving.antt =====
-- Saving a clock, where the flags of the clock are configured by `status` alone.
use enterprise_management.Base.{get, ◌≡◌, refl, ap, some, [], ◌∷◌, ok}
use enterprise_management.StateFlags.{
  Flags, ByValue, is_open, set_flags, get_flag_map, flag_fields, apply_state_flags, apply_fields,
  in_application_order,
}
use enterprise_management.StateFlags.Applied.{apply_field-configured}
use enterprise_management.Clocks.{Clock, Site, clock_doc, sla_clock, status_field, validate_clock}

module _ (site : Site) (by_value : ByValue)
    (by_status : get_flag_map site.flag_rows sla_clock ≡ (status_field, by_value) ∷ []) where
  flagged :
      (c : Clock) (flags : Flags)
      → set_flags clock_doc flag_fields flags c ≡ record c { open_flag = flags is_open }
  unfolding set_flags
  flagged c flags = refl

  pub validate_clock-configured :
      (c : Clock) (flags : Flags)
      → get c.status by_value ≡ some flags
      → validate_clock site c ≡ ok (record c { open_flag = flags is_open })
  unfolding validate_clock apply_state_flags apply_fields in_application_order
  validate_clock-configured c flags e = rw (by_status) (
      rw (apply_field-configured clock_doc status_field c.status by_value flags c refl refl e)
        (ap ok (flagged c flags)))
