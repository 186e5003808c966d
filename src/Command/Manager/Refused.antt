-- ===== src/Command/Manager/Refused.antt =====
-- The runs of the manager command that a flag of the heartbeat stops.
use gardener_extension_shoot.Base.{
  String, true, [], Error, ok, err, wrapf, Wraps, here, under, ◌==◌, ◌||◌, ◌≡◌, refl, sym, ◌∙◌, inl,
  inr, Bool-cases,
}
use mathlib.Core.Bool.{false≢true}
use gardener_extension_shoot.Base.Exec.{◌>>=◌}
use gardener_extension_shoot.Base.Options.{apply_options}
use gardener_extension_shoot.Heartbeat.{
  err_invalid_heartbeat, new_heartbeat, with_extension_name, with_lease_namespace,
  with_renew_interval,
}
use gardener_extension_shoot.Manager.Host.{Types, Host}
use gardener_extension_shoot.Manager.Build.{new_manager}
use gardener_extension_shoot.Command.Constants.{Constants}
use gardener_extension_shoot.Command.Manager.Flags.{Flags}
use gardener_extension_shoot.Command.Manager.Run.{
  Services, manager_options, heartbeat_of, run_manager,
}

abbrev refused_of : String → Error
refused_of format =
    wrapf "failed to create heartbeat controller: %w" [] (wrapf format [] err_invalid_heartbeat)

wrapped : (format : String) → Wraps err_invalid_heartbeat (refused_of format)
wrapped format = under _ [] (under format [] here)

module _ (T : Types) (host : Host T) (C : Constants T.World) (S : Services T C)
    (f : Flags C.Float) where
  heartbeat_of-err :
      (f.extension_name == "" || f.heartbeat_namespace == "") ≡ true
      → (e : Error) × Wraps err_invalid_heartbeat e × (heartbeat_of T host C S f ≡ err e)
  unfolding new_heartbeat with_extension_name with_lease_namespace with_renew_interval apply_options
  heartbeat_of-err h = elim (Bool-cases (f.extension_name == "")) [
    | inl unnamed ↦ (refused_of "%w: missing extension name", wrapped _, rw unnamed refl)
    | inr named ↦ elim (Bool-cases (f.heartbeat_namespace == "")) [
      | inl nowhere ↦
          (refused_of "%w: missing lease namespace", wrapped _, rw (named, nowhere) refl)
      | inr placed ↦ absurd (false≢true (sym (rw (named, placed) refl) ∙ h))
    ]
  ]

  -- If the manager can be built and the name of the extension or the namespace of the heartbeat is
  -- empty, then the command ends there, with an error in whose chain the heartbeat's sentinel stands.
  pub run_manager-err_invalid_heartbeat :
      (m : T.CrManager) (w v : T.World)
      → new_manager T host (manager_options T host C S f) w ≡ (ok m, v)
      → (f.extension_name == "" || f.heartbeat_namespace == "") ≡ true
      → (e : Error) × Wraps err_invalid_heartbeat e × (run_manager T host C S true f w ≡ (err e, v))
  unfolding run_manager ◌>>=◌
  run_manager-err_invalid_heartbeat m w v made empty =
      let (e, wraps, refused) = heartbeat_of-err empty in (e, wraps, rw made (rw refused refl))
