-- ===== src/Manager/Runs.antt =====
-- The runs of `New` of pkg/mgr/mgr.go that succeed, as a relation on worlds.
use gardener_extension_shoot.Base.{
  String, Option, none, some, List, [], ◌∷◌, ok, ◌≡◌, refl, sym, ap, ◌∙◌, ok-injective,
}
use gardener_extension_shoot.Base.Exec.{Exec, pure, lift, wrapping}
use gardener_extension_shoot.Base.Exec.Inversion.{>>=-eq-ok, wrapping-eq-ok, wrapping-eq-pair}
use gardener_extension_shoot.Base.Options.{apply_options}
use gardener_extension_shoot.Manager.Host.{Types, Host}
use gardener_extension_shoot.Manager.Options.{Manager, ManagerOption, initial_manager}
use gardener_extension_shoot.Manager.Build.{
  for_each, install, rest_config_of, connect, options_of, add_scheme, set_up_healthz, set_up_readyz,
  set_up_handler, set_up_runnable, set_up, build, new_manager,
}
use mathlib.Core.Path.{subst}

-- A call on each element in turn, each of which returned.
pub data EachRan {W X : Type 0} (f : X → Exec W (Unit {0})) : List X → W → W → Type 0 where
  done : (w : W) → EachRan f [] w w
  next :
      (x : X) (xs : List X) {w v u : W}
      → f x w ≡ (ok tt, v)
      → EachRan f xs v u
      → EachRan f (x ∷ xs) w u

for_each-EachRan :
    {W X : Type 0} (f : X → Exec W (Unit {0})) (xs : List X) (w : W)
    → (for_each f xs w).0 ≡ ok tt
    → EachRan f xs w (for_each f xs w).1
unfolding for_each pure
for_each-EachRan f [] w h = done w
for_each-EachRan f (x ∷ xs) w h =
    let (_, returned, rest, same) = >>=-eq-ok (f x) (λ _. for_each f xs) w h in
    subst (λ r. EachRan f (x ∷ xs) w r.1) (sym same)
      (next x xs (ap (λ r. (r, (f x w).1)) returned) (for_each-EachRan f xs (f x w).1 rest))

-- What is wrapped returned too.
EachRan-wrapping :
    {W X : Type 0} (format : String) (g : X → Exec W (Unit {0})) (xs : List X) {w v : W}
    → EachRan (λ x. wrapping format [] (g x)) xs w v
    → EachRan g xs w v
EachRan-wrapping format g _ (done w) = done w
EachRan-wrapping format g _ {w} (next x xs e rest) =
    let (_, same) = wrapping-eq-ok format [] (g x) w (ap (λ r. r.0) e) in
    next x xs (sym same ∙ e) (EachRan-wrapping format g xs rest)

module _ (T : Types) (host : Host T) where
  -- Every check, then every extra handler, then every runnable was handed to the manager.
  pub record IsSetUp (m : Manager T) (cr : T.CrManager) (w v : T.World) : Type 0 where
    pub after_healthz : T.World
    pub after_readyz : T.World
    pub after_handlers : T.World
    pub healthz :
        EachRan
          (λ (name, checker). host.add_healthz_check cr name checker)
          (host.range_checks m.healthz_checks)
          w
          after_healthz
    pub readyz :
        EachRan
          (λ (name, checker). host.add_readyz_check cr name checker)
          (host.range_checks m.readyz_checks)
          after_healthz
          after_readyz
    pub handlers :
        EachRan
          (λ (path, handler). host.add_extra_handler cr path handler)
          (host.range_handlers m.extra_metrics_handlers)
          after_readyz
          after_handlers
    pub runnables : EachRan (host.add cr) m.runnables after_handlers v

  set_up-IsSetUp :
      (m : Manager T) (cr made : T.CrManager) (w : T.World)
      → (set_up T host m cr w).0 ≡ ok made
      → (cr ≡ made) × IsSetUp m cr w (set_up T host m cr w).1
  unfolding set_up pure
  set_up-IsSetUp m cr made w h =
      let healthz = for_each (set_up_healthz T host cr) (host.range_checks m.healthz_checks) in
      let readyz = for_each (set_up_readyz T host cr) (host.range_checks m.readyz_checks) in
      let handlers =
        for_each (set_up_handler T host cr) (host.range_handlers m.extra_metrics_handlers) in
      let runnables = for_each (set_up_runnable T host cr) m.runnables in
      let (_, r₁, h₁, e₁) = >>=-eq-ok healthz _ w h in
      let (_, r₂, h₂, e₂) = >>=-eq-ok readyz _ (healthz w).1 h₁ in
      let (_, r₃, h₃, e₃) = >>=-eq-ok handlers _ (readyz (healthz w).1).1 h₂ in
      let (_, r₄, h₄, e₄) = >>=-eq-ok runnables _ (handlers (readyz (healthz w).1).1).1 h₃ in
      subst (λ r. (cr ≡ made) × IsSetUp m cr w r.1) (sym (e₁ ∙ e₂ ∙ e₃ ∙ e₄))
        (
          ok-injective h₄,
          record {
            after_healthz = (healthz w).1;
            after_readyz = (readyz (healthz w).1).1;
            after_handlers = (handlers (readyz (healthz w).1).1).1;
            healthz =
                EachRan-wrapping "failed to setup health check: %w"
                  (λ (name, checker). host.add_healthz_check cr name checker) _
                  (for_each-EachRan _ _ _ r₁);
            readyz =
                EachRan-wrapping "failed to setup ready check: %w"
                  (λ (name, checker). host.add_readyz_check cr name checker) _
                  (for_each-EachRan _ _ _ r₂);
            handlers =
                EachRan-wrapping "failed to setup extra handler: %w"
                  (λ (path, handler). host.add_extra_handler cr path handler) _
                  (for_each-EachRan _ _ _ r₃);
            runnables =
                EachRan-wrapping "failed to setup runnable: %w" (host.add cr) _
                  (for_each-EachRan _ _ _ r₄);
          },
        )

  -- The configuration that was set, or the one that was looked for.
  abbrev pub IsFound : Option T.RestConfig → T.RestConfig → T.World → T.World → Type 0
  IsFound none c w v = host.get_config w ≡ (ok c, v)
  IsFound (some given) c w v = (given ≡ c) × (w ≡ v)

  rest_config_of-IsFound :
      (given : Option T.RestConfig) (c : T.RestConfig) (w : T.World)
      → (rest_config_of T host given w).0 ≡ ok c
      → IsFound given c w (rest_config_of T host given w).1
  unfolding pure
  rest_config_of-IsFound none c w h = wrapping-eq-pair _ _ host.get_config w h
  rest_config_of-IsFound (some given) c w h = (ok-injective h, refl)

  -- A run of `New` from `w` to `v` on which every call returned.
  pub record IsBuilt (opts : List (ManagerOption T)) (cr : T.CrManager) (w v : T.World)
      : Type 0 where
    pub manager : Manager T
    pub applied : apply_options opts (initial_manager T host) ≡ ok manager
    pub after_adds : T.World
    pub after_installs : T.World
    pub adds : EachRan (λ add. add manager.scheme) manager.add_to_schemes w after_adds
    pub installs :
        EachRan
          (λ install_into. install_into manager.scheme)
          manager.install_schemes
          after_adds
          after_installs
    pub rest_config : T.RestConfig
    pub after_config : T.World
    pub configured : IsFound manager.rest_config rest_config after_installs after_config
    pub after_new : T.World
    pub created :
        host.new_cr_manager rest_config
          (record {
            scheme = manager.scheme;
            metrics = manager.metrics_server_opts;
            health_probe_bind_address = manager.health_probe_addr;
            leader_election = manager.leader_election_enabled;
            leader_election_id = manager.leader_election_id;
            leader_election_namespace = manager.leader_election_namespace;
            leader_election_resource_lock = host.leases_resource_lock;
            leader_election_config = manager.leader_election_config;
            base_context = manager.base_context;
            controller = manager.controller_opts;
            webhook_server = manager.webhook_server;
            logger = manager.logger;
            pprof_bind_address = manager.pprof_addr;
            client = manager.client_opts;
            cache = manager.cache_opts;
          })
          (host.apply_connection manager.client_conn_config rest_config after_config)
        ≡ (ok cr, after_new)
    pub ready : IsSetUp manager cr after_new v

  -- If `New` returns a manager, then the options applied in order, every scheme was added and
  -- installed, a configuration was found and given the connection settings, the manager was created
  -- with the options' values, each in its own field, and then every check, extra handler and
  -- runnable was handed to it, in this order and with no call that failed.
  pub new_manager-IsBuilt :
      (opts : List (ManagerOption T)) (cr : T.CrManager) (w : T.World)
      → (new_manager T host opts w).0 ≡ ok cr
      → IsBuilt opts cr w (new_manager T host opts w).1
  unfolding new_manager build lift
  new_manager-IsBuilt opts cr w h =
      let (m, applied, h₀, e₀) =
        >>=-eq-ok (lift (apply_options opts (initial_manager T host))) (build T host) w h in
      let adds = for_each (add_scheme T host m) m.add_to_schemes in
      let installs = for_each (install T host m) m.install_schemes in
      let config = rest_config_of T host m.rest_config in
      let (_, r₁, h₁, e₁) = >>=-eq-ok adds _ w h₀ in
      let (_, r₂, h₂, e₂) = >>=-eq-ok installs _ (adds w).1 h₁ in
      let (c, r₃, h₃, e₃) = >>=-eq-ok config _ (installs (adds w).1).1 h₂ in
      let found = (config (installs (adds w).1).1).1 in
      let (_, _, h₄, e₄) = >>=-eq-ok (connect T host m c) _ found h₃ in
      let connected = host.apply_connection m.client_conn_config c found in
      let create = host.new_cr_manager c (options_of T host m) in
      let (made, wrapped, h₅, e₅) =
        >>=-eq-ok (wrapping "failed to create manager: %w" [] create) _ connected h₄ in
      let (_, e₆) = wrapping-eq-ok "failed to create manager: %w" [] create connected wrapped in
      let after_new = (wrapping "failed to create manager: %w" [] create connected).1 in
      let (same, ready) = set_up-IsSetUp m made cr after_new h₅ in
      subst (λ r. IsBuilt opts cr w r.1) (sym (e₀ ∙ e₁ ∙ e₂ ∙ e₃ ∙ e₄ ∙ e₅))
        (record {
          manager = m;
          applied = applied;
          after_adds = (adds w).1;
          after_installs = (installs (adds w).1).1;
          adds =
              EachRan-wrapping "failed to add scheme: %w" (λ add. add m.scheme) _
                (for_each-EachRan _ _ _ r₁);
          installs = for_each-EachRan _ _ _ r₂;
          rest_config = c;
          after_config = found;
          configured = rest_config_of-IsFound m.rest_config c (installs (adds w).1).1 r₃;
          after_new = after_new;
          created = sym e₆ ∙ ap (λ r. (r, after_new)) (wrapped ∙ ap ok same);
          ready = subst (λ x. IsSetUp m x after_new (set_up T host m made after_new).1) same ready;
        })
