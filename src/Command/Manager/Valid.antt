-- ===== src/Command/Manager/Valid.antt =====
-- What the flags of the manager command are after parsing.
use gardener_extension_shoot.Base.{true, [], ◌∷◌, ◌++◌, ◌≡◌}
use gardener_extension_shoot.Base.Lists.{contains}
use gardener_extension_shoot.Command.Cli.{Parsed, Parsed-settles}
use gardener_extension_shoot.Command.Constants.{Constants, HasLogger, one_of-accepts}
use gardener_extension_shoot.Command.Manager.Flags.{
  Flags, manager_flags, log_level_flag, log_format_flag, flags_before_level, flags_after_format,
}

module _ {W : Type 0} (C : Constants W) (defaults : HasLogger C) (f g : Flags C.Float) where
  -- The logger can be made of its two flags, whatever is given to the command.
  pub logging_known :
      Parsed (manager_flags C) f g
      → (contains C.all_log_levels g.zap_log_level ≡ true)
        × (contains C.all_log_formats g.zap_log_format ≡ true)
  unfolding manager_flags
  logging_known parsed = (
    Parsed-settles (λ h. contains C.all_log_levels h.zap_log_level ≡ true) (flags_before_level C)
        (log_level_flag C) (log_format_flag C ∷ flags_after_format C) f g
        (λ v h chosen. one_of-accepts C.all_log_levels _ C.info_level v defaults.level chosen)
        (search) parsed,
    Parsed-settles (λ h. contains C.all_log_formats h.zap_log_format ≡ true)
        (flags_before_level C ++ log_level_flag C ∷ []) (log_format_flag C) (flags_after_format C) f
        g (λ v h chosen. one_of-accepts C.all_log_formats _ C.format_text v defaults.format chosen)
        (search) parsed,
  )
