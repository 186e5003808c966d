-- ===== src/Command/Manager/Built.antt =====
-- That the actuator and the controller of the manager command can always be built, and what they are.
use gardener_extension_shoot.Base.{true, some, none, [], ◌∷◌, ok, ◌≡◌, refl}
use gardener_extension_shoot.Base.Exec.{Exec, wrapping, ◌>>=◌, ◌>>◌}
use gardener_extension_shoot.Base.Exec.Inversion.{>>=-ext}
use gardener_extension_shoot.Base.Options.{apply_options}
use gardener_extension_shoot.Actuator.Settings.{
  Actuator, new_actuator, with_decoder, with_gardener_version, with_gardenlet_features,
  extension_class,
}
use gardener_extension_shoot.Controller.{
  Controller, new_controller, with_actuator, with_name, with_extension_type, with_finalizer_suffix,
  with_extension_class, with_ignore_operation_annotation, with_resync_interval, setup_controller,
}
use gardener_extension_shoot.Manager.Host.{Types, Host}
use gardener_extension_shoot.Command.Constants.{Constants}
use gardener_extension_shoot.Command.Manager.Flags.{Flags}
use gardener_extension_shoot.Command.Manager.Run.{
  Services, kinds_of, get_manager, actuator_of, controller_of, set_up_controller, run_manager,
}

module _ (T : Types) (host : Host T) (C : Constants T.World) (S : Services T C) where
  abbrev pub built_actuator : T.CrManager → Flags C.Float → Actuator
  built_actuator m f = record {
    decoder = some (S.decoder_of m);
    image_vector = S.image_vector;
    gardener_version = f.gardener_version;
    gardenlet_feature_gates = f.gardenlet_feature_gates;
  }

  -- The controller that is handed to the library, with its predicates filled in.
  abbrev pub built_controller : T.CrManager → Flags C.Float → Controller (kinds_of S)
  built_controller m f = record {
    actuator = some (built_actuator m f);
    name = "traefik";
    finalizer_suffix = "gardener-extension-shoot-traefik";
    controller_options = S.zero_options;
    predicates = S.default_predicates m f.ignore_operation_annotation;
    resync = f.resync_interval;
    extension_type = "shoot-traefik";
    watch_builder = none;
    ignore_operation_annotation = f.ignore_operation_annotation;
    extension_classes = extension_class ∷ [];
  }

  -- What the command does with a manager.
  abbrev pub control : Flags C.Float → T.CrManager → Exec T.World (Unit {0})
  control f m = do
    wrapping "failed to setup controller with manager: %w" []
        (S.add_controller m (built_controller m f))
    wrapping "failed to start manager: %w" [] (S.start m)

  actuator_of-ok :
      (m : T.CrManager) (f : Flags C.Float)
      → S.has_client m ≡ true
      → actuator_of T host C S m f ≡ ok (built_actuator m f)
  unfolding new_actuator with_decoder with_gardener_version with_gardenlet_features apply_options
  actuator_of-ok m f client = rw client refl

  abbrev unfilled : T.CrManager → Flags C.Float → Controller (kinds_of S)
  unfilled m f = record (built_controller m f) { predicates = [] }

  controller_of-ok :
      (m : T.CrManager) (f : Flags C.Float)
      → controller_of T host C S (built_actuator m f) f ≡ ok (unfilled m f)
  unfolding new_controller with_actuator with_name with_extension_type with_finalizer_suffix
      with_extension_class with_ignore_operation_annotation with_resync_interval apply_options
  controller_of-ok m f = refl

  set_up_controller-add :
      (m : T.CrManager) (f : Flags C.Float) (w : T.World)
      → set_up_controller T host C S m (unfilled m f) w
        ≡ S.add_controller m (built_controller m f) w
  unfolding setup_controller
  set_up_controller-add m f w = refl

  -- With a manager that has a client, the command goes on as `control` says: neither the actuator nor
  -- the controller fails to be built, and both have the values that are written out there.
  pub run_manager-control :
      ((m : T.CrManager) → S.has_client m ≡ true)
      → (f : Flags C.Float) (w : T.World)
      → run_manager T host C S true f w ≡ (get_manager T host C S f >>= control f) w
  unfolding run_manager setup_controller
  run_manager-control client f w =
      >>=-ext (get_manager T host C S f) _ (control f) w
        (λ m v. unfold ◌>>=◌ in rw (actuator_of-ok m f (client m)) (rw (controller_of-ok m f) refl))
