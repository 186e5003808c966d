-- ===== src/Manager/Answers.antt =====
-- That `New` of pkg/mgr/mgr.go builds a manager where every call returns.
use gardener_extension_shoot.Base.{String, none, some, List, [], ◌∷◌, Option, ok, ◌≡◌, refl}
use gardener_extension_shoot.Base.Exec.{Exec, lift, ◌>>=◌}
use gardener_extension_shoot.Base.Exec.Succeeds.{
  Succeeds, Succeeds-bind, Succeeds-wrapping, Succeeds-pure, succeeds_rules,
}
use gardener_extension_shoot.Base.Lists.{All}
use gardener_extension_shoot.Base.Options.{apply_options}
use gardener_extension_shoot.Manager.Host.{Types, Host, ManagerOptions}
use gardener_extension_shoot.Manager.Options.{Manager, ManagerOption, initial_manager}
use gardener_extension_shoot.Manager.Build.{
  for_each, rest_config_of, connect, add_scheme, set_up, build, new_manager,
}

-- controller-runtime gives a configuration and a manager, which takes what it is handed.
pub record Answers (T : Types) (host : Host T) : Type 0 where
  pub config : Succeeds host.get_config
  pub creates : (c : T.RestConfig) (o : ManagerOptions T) → Succeeds (host.new_cr_manager c o)
  pub healthz :
      (cr : T.CrManager) (name : String) (c : T.Checker)
      → Succeeds (host.add_healthz_check cr name c)
  pub readyz :
      (cr : T.CrManager) (name : String) (c : T.Checker)
      → Succeeds (host.add_readyz_check cr name c)
  pub handlers :
      (cr : T.CrManager) (path : String) (h : T.Handler)
      → Succeeds (host.add_extra_handler cr path h)
  pub runnables : (cr : T.CrManager) (r : T.Runnable) → Succeeds (host.add cr r)

module _ {W X : Type 0} (f : X → Exec W (Unit {0})) where
  for_each-Succeeds : (xs : List X) → All (λ x. Succeeds (f x)) xs → Succeeds (for_each f xs)
  unfolding for_each
  for_each-Succeeds [] s = search succeeds_rules
  for_each-Succeeds (x ∷ xs) (s, ss) = Succeeds-bind _ _ s (λ _. for_each-Succeeds xs ss)

  each_succeeds : ((x : X) → Succeeds (f x)) → (xs : List X) → Succeeds (for_each f xs)
  each_succeeds s xs = for_each-Succeeds xs (all_of xs)
    where
      all_of : (ys : List X) → All (λ x. Succeeds (f x)) ys
      all_of [] = tt
      all_of (y ∷ ys) = (s y, all_of ys)

module _ (T : Types) (host : Host T) (answers : Answers T host) where
  -- The functions of the schemes return.
  pub record TakesSchemes (m : Manager T) : Type 0 where
    pub adds : All (λ f. Succeeds (f m.scheme)) m.add_to_schemes
    pub installs : All (λ f. Succeeds (f m.scheme)) m.install_schemes

  set_up-Succeeds : (m : Manager T) (cr : T.CrManager) → Succeeds (set_up T host m cr)
  unfolding set_up
  set_up-Succeeds m cr =
      search
        (
          succeeds_rules, each_succeeds, answers.healthz, answers.readyz, answers.handlers,
          answers.runnables,
        )
        depth 14

  rest_config_of-Succeeds : (c : Option T.RestConfig) → Succeeds (rest_config_of T host c)
  rest_config_of-Succeeds none = Succeeds-wrapping _ _ _ answers.config
  rest_config_of-Succeeds (some c) = Succeeds-pure c

  connect-Succeeds : (m : Manager T) (c : T.RestConfig) → Succeeds (connect T host m c)
  connect-Succeeds m c = record { at = λ w. refl }

  add_scheme-Succeeds :
      (m : Manager T) (fs : List (T.Scheme → Exec T.World (Unit {0})))
      → All (λ f. Succeeds (f m.scheme)) fs
      → All (λ f. Succeeds (add_scheme T host m f)) fs
  add_scheme-Succeeds m [] s = tt
  add_scheme-Succeeds m (f ∷ fs) (s, ss) = (Succeeds-wrapping _ _ _ s, add_scheme-Succeeds m fs ss)

  build-Succeeds : (m : Manager T) → TakesSchemes m → Succeeds (build T host m)
  unfolding build
  build-Succeeds m s =
      search
        (
          succeeds_rules, for_each-Succeeds, add_scheme-Succeeds, s.adds, s.installs,
          rest_config_of-Succeeds, connect-Succeeds, answers.creates, set_up-Succeeds,
        )
        depth 14

  -- If the options apply, the functions of the schemes return, and controller-runtime answers, then
  -- `New` returns a manager.
  pub new_manager-Succeeds :
      (opts : List (ManagerOption T)) (m : Manager T)
      → apply_options opts (initial_manager T host) ≡ ok m
      → TakesSchemes m
      → Succeeds (new_manager T host opts)
  unfolding new_manager lift ◌>>=◌
  new_manager-Succeeds opts m applied s = record {
    at = λ w. rw applied ((build-Succeeds m s).at w);
  }
