-- ===== src/Command/Manager/Started.antt =====
-- The runs of the manager command that end well.
use mathlib.Core.Path.{subst}
use gardener_extension_shoot.Base.{
  true, false, [], ok, ◌==◌, ◌≡◌, sym, ap, ◌∙◌, ok-injective, wrap-eq-ok,
}
use gardener_extension_shoot.Base.Exec.{pure, lift, wrapping, ◌>>=◌}
use gardener_extension_shoot.Base.Exec.Inversion.{>>=-eq-ok, wrapping-eq-pair}
use gardener_extension_shoot.Base.Options.{apply_options}
use gardener_extension_shoot.Heartbeat.{
  Heartbeat, AddArgs, with_extension_name, with_lease_namespace, with_renew_interval,
  setup_heartbeat,
}
use gardener_extension_shoot.Heartbeat.Build.{new_heartbeat_iff}
use gardener_extension_shoot.Manager.Host.{Types, Host}
use gardener_extension_shoot.Manager.Build.{new_manager}
use gardener_extension_shoot.Manager.Runs.{IsBuilt, new_manager-IsBuilt}
use gardener_extension_shoot.Command.Constants.{Constants}
use gardener_extension_shoot.Command.Manager.Flags.{Flags}
use gardener_extension_shoot.Command.Manager.Run.{
  Services, manager_options, heartbeat_of, get_manager, run_manager,
}
use gardener_extension_shoot.Command.Manager.Configured.{
  configured_manager, manager_options_applied,
}
use gardener_extension_shoot.Command.Manager.Built.{built_controller, control, run_manager-control}

module _ (T : Types) (host : Host T) (C : Constants T.World) (S : Services T C)
    (f : Flags C.Float) where
  abbrev pub heartbeat_args : AddArgs S.Clock
  heartbeat_args = record {
    extension_name = f.extension_name;
    namespace = f.heartbeat_namespace;
    renew_interval_seconds = S.to_seconds f.heartbeat_renew_interval;
    clock = S.real_clock;
  }

  abbrev heartbeat : Heartbeat S.Clock
  heartbeat = record {
    extension_name = f.extension_name;
    namespace = f.heartbeat_namespace;
    renew_interval = f.heartbeat_renew_interval;
    clock = S.real_clock;
  }

  -- The manager was built and has a heartbeat of the flags' names, neither of them empty.
  pub record IsServing (m : T.CrManager) (w v : T.World) : Type 0 where
    pub after_manager : T.World
    pub built : IsBuilt T host (manager_options T host C S f) m w after_manager
    pub configured : built.manager ≡ configured_manager T host C S f
    pub extension_named : (f.extension_name == "") ≡ false
    pub namespace_named : (f.heartbeat_namespace == "") ≡ false
    pub beating : S.add_heartbeat m heartbeat_args after_manager ≡ (ok tt, v)

  heartbeat_of-eq-ok :
      (hb : Heartbeat S.Clock)
      → heartbeat_of T host C S f ≡ ok hb
      → (heartbeat ≡ hb)
        × ((f.extension_name == "") ≡ false)
        × ((f.heartbeat_namespace == "") ≡ false)
  unfolding apply_options with_extension_name with_lease_namespace with_renew_interval
  heartbeat_of-eq-ok hb h =
      let (applied, ready) = (new_heartbeat_iff S.Clock S.real_clock _ hb).0 (wrap-eq-ok _ _ _ h) in
      let same = ok-injective applied in
      (
        same,
        ap (λ (b : Heartbeat S.Clock). b.extension_name == "") same ∙ ready.extension_name,
        ap (λ (b : Heartbeat S.Clock). b.namespace == "") same ∙ ready.namespace,
      )

  get_manager-IsServing :
      (made : T.CrManager) (w : T.World)
      → (get_manager T host C S f w).0 ≡ ok made
      → IsServing made w (get_manager T host C S f w).1
  unfolding get_manager pure lift setup_heartbeat
  get_manager-IsServing made w h =
      let create = new_manager T host (manager_options T host C S f) in
      let (m, r₁, h₁, e₁) = >>=-eq-ok create _ w h in
      let (hb, r₂, h₂, e₂) = >>=-eq-ok (lift (heartbeat_of T host C S f)) _ (create w).1 h₁ in
      let beat =
        wrapping "failed to setup heartbeat controller: %w" []
          (setup_heartbeat S.Clock S.to_seconds (S.add_heartbeat m) hb) in
      let (_, r₃, h₃, e₃) = >>=-eq-ok beat _ (create w).1 h₂ in
      let built = new_manager-IsBuilt T host (manager_options T host C S f) m w r₁ in
      let (same, extension_named, namespace_named) = heartbeat_of-eq-ok hb r₂ in
      let added =
        wrapping-eq-pair "failed to setup heartbeat controller: %w" []
          (setup_heartbeat S.Clock S.to_seconds (S.add_heartbeat m) hb) (create w).1 r₃ in
      subst (λ r. IsServing made w r.1) (sym (e₁ ∙ e₂ ∙ e₃))
        (subst (λ x. IsServing x w (beat (create w).1).1) (ok-injective h₃)
          (record {
            after_manager = (create w).1;
            built = built;
            configured = ok-injective (sym built.applied ∙ manager_options_applied T host C S f);
            extension_named = extension_named;
            namespace_named = namespace_named;
            beating =
                subst
                  (λ (b : Heartbeat S.Clock).
                    setup_heartbeat S.Clock S.to_seconds (S.add_heartbeat m) b (create w).1
                    ≡ (ok tt, (beat (create w).1).1))
                  (sym same) added;
          }))

  -- Then the controller was added to it and it was started, and it ended well.
  pub record IsStarted (w v : T.World) : Type 0 where
    pub manager : T.CrManager
    pub after_heartbeat : T.World
    pub after_controller : T.World
    pub serving : IsServing manager w after_heartbeat
    pub controlled :
        S.add_controller manager (built_controller T host C S manager f) after_heartbeat
        ≡ (ok tt, after_controller)
    pub started : S.start manager after_controller ≡ (ok tt, v)

  control-IsStarted :
      (w : T.World)
      → ((get_manager T host C S f >>= control T host C S f) w).0 ≡ ok tt
      → IsStarted w ((get_manager T host C S f >>= control T host C S f) w).1
  control-IsStarted w h =
      let (m, r₁, h₁, e₁) = >>=-eq-ok (get_manager T host C S f) (control T host C S f) w h in
      let w₁ = (get_manager T host C S f w).1 in
      let add =
        wrapping "failed to setup controller with manager: %w" []
          (S.add_controller m (built_controller T host C S m f)) in
      let run = wrapping "failed to start manager: %w" [] (S.start m) in
      let (_, r₂, h₂, e₂) = >>=-eq-ok add (λ _. run) w₁ h₁ in
      subst (λ r. IsStarted w r.1) (sym (e₁ ∙ e₂))
        (record {
          manager = m;
          after_heartbeat = w₁;
          after_controller = (add w₁).1;
          serving = get_manager-IsServing m w r₁;
          controlled = wrapping-eq-pair _ _ _ w₁ r₂;
          started = wrapping-eq-pair _ _ _ (add w₁).1 h₂;
        })

-- Where every manager has a client, if the manager command returns without an error, then it has
-- built a manager of its flags, added the heartbeat of the flags' names, of which neither is empty,
-- added the controller of the Traefik actuator, and started the manager, in this order and with no
-- call that failed.
pub run_manager-IsStarted :
    (T : Types) (host : Host T) (C : Constants T.World) (S : Services T C)
    → ((m : T.CrManager) → S.has_client m ≡ true)
    → (f : Flags C.Float) (w : T.World) → (run_manager T host C S true f w).0 ≡ ok tt
    → IsStarted T host C S f w (run_manager T host C S true f w).1
run_manager-IsStarted T host C S client f w h =
    let same = run_manager-control T host C S client f w in
    subst (λ r. IsStarted T host C S f w r.1) (sym same)
      (control-IsStarted T host C S f w (ap (λ r. r.0) (sym same) ∙ h))
