-- ===== src/Actuator/Resolve.antt =====
-- The configuration that `Reconcile` settles on.
use mathlib.Core.Path.{subst}
use gardener_extension_shoot.Base.{
  ok-injective, err-ne-ok, if◌then◌else◌, String, true, false, Option, none, some, Result, is_ok,
  ok, err, ◌==◌, ◌≡◌, ◌↔◌, arith, eq_iff, refl, Bool-cases, inl, inr,
}
use gardener_extension_shoot.Base.Int.{is_positive}
use gardener_extension_shoot.Base.Lists.{contains}
use gardener_extension_shoot.Kube.Meta.{TypeMeta}
use gardener_extension_shoot.Traefik.Config.{
  TraefikConfig, TraefikConfigSpec, Config, default_config, valid_log_levels,
}
use gardener_extension_shoot.Actuator.Settings.{Decoder, apply_spec, from_decoded, resolve_config}

-- What the deployment relies on: at least one replica, some provider, and a level that Traefik knows.
pub record IsValid (c : Config) : Type 0 where
  pub replicas : is_positive c.replicas ≡ true
  pub provider : (c.ingress_provider == "") ≡ false
  pub level : contains valid_log_levels c.log_level ≡ true

IsValid-default_config : IsValid default_config
IsValid-default_config = record { replicas = refl; provider = refl; level = refl }

-- The custom settings over the defaults, at a level that was found to be good.
abbrev settled : TraefikConfigSpec → String → Config
settled spec level = record {
  replicas = if is_positive spec.replicas then spec.replicas else default_config.replicas;
  ingress_provider =
      if spec.ingress_provider == ""
      then default_config.ingress_provider
      else spec.ingress_provider;
  log_level = level;
  dashboard = spec.dashboard;
}

IsValid-settled :
    (spec : TraefikConfigSpec) (level : String)
    → contains valid_log_levels level ≡ true
    → IsValid (settled spec level)
IsValid-settled spec level h = record {
  replicas = elim (Bool-cases (is_positive spec.replicas)) [
    | inl more ↦ rw more more
    | inr none_left ↦ rw none_left
  ];
  provider = elim (Bool-cases (spec.ingress_provider == "")) [
    | inl left_out ↦ rw left_out
    | inr given ↦ rw given given
  ];
  level = h;
}

apply_spec-IsValid :
    (spec : TraefikConfigSpec) (c : Config) → apply_spec spec default_config ≡ ok c → IsValid c
apply_spec-IsValid spec c h = elim (Bool-cases (spec.log_level == "")) [
  | inl left_out ↦
      subst IsValid (ok-injective (rw left_out at h)) (IsValid-settled spec "Info" refl)
  | inr given ↦ elim (Bool-cases (contains valid_log_levels spec.log_level)) [
    | inl good ↦
        subst IsValid (ok-injective (rw (given, good) at h))
          (IsValid-settled spec spec.log_level good)
    | inr bad ↦ absurd (err-ne-ok (rw (given, bad) at h))
  ]
]

-- Whatever the provider config holds, a configuration that is settled on is valid.
pub resolve_config-IsValid :
    (decoder : Option Decoder) (raw : Option String) (c : Config)
    → resolve_config decoder raw ≡ ok c
    → IsValid c
unfolding resolve_config
resolve_config-IsValid none none c h = subst IsValid (ok-injective h) IsValid-default_config
resolve_config-IsValid none (some raw) c h = absurd (cc)
resolve_config-IsValid (some decode) none c h =
    subst IsValid (ok-injective h) IsValid-default_config
resolve_config-IsValid (some decode) (some raw) c h = decoded (decode raw) h
  where
    decoded : (r : Result TraefikConfig) → from_decoded r ≡ ok c → IsValid c
    decoded (ok cfg) e = apply_spec-IsValid cfg.spec c e
    decoded (err x) e = subst IsValid (ok-injective e) IsValid-default_config

level_named : (level : String) → contains valid_log_levels level ≡ true → (level == "") ≡ false
level_named level h = elim (Bool-cases (level == "")) [
  | inl empty ↦ absurd (unnamed (rw ((eq_iff level "").0 empty) at h))
  | inr named ↦ named
]
  where
    unnamed : contains valid_log_levels "" ≡ true → ⊥
    unnamed e = cc

-- A config that sets every field of `c`.
abbrev pub spec_of : TypeMeta → Config → TraefikConfig
spec_of type_meta c = record {
  type_meta = type_meta;
  spec = record {
    replicas = c.replicas;
    ingress_provider = c.ingress_provider;
    log_level = c.log_level;
    dashboard = c.dashboard;
  };
}

-- Every valid configuration can be asked for: a provider config that sets all its fields gives it.
pub resolve_config-spec_of :
    (type_meta : TypeMeta) (c : Config) (decode : Decoder) (raw : String)
    → IsValid c
    → decode raw ≡ ok (spec_of type_meta c)
    → resolve_config (some decode) (some raw) ≡ ok c
unfolding resolve_config
resolve_config-spec_of type_meta c decode raw v h = rw h (ground (arith, level_named c.log_level))

-- With a decoder, resolving fails exactly when the config decodes and names a level that is not one
-- of Traefik's.
pub resolve_config_fails_iff :
    (decode : Decoder) (raw : String)
    → (is_ok (resolve_config (some decode) (some raw)) ≡ false) ↔ (
        (cfg : TraefikConfig) × (decode raw ≡ ok cfg)
        × ((cfg.spec.log_level == "") ≡ false)
        × (contains valid_log_levels cfg.spec.log_level ≡ false))
unfolding resolve_config
resolve_config_fails_iff decode raw =
    (λ h. failed (decode raw) refl h, λ f. rw (f.1) (rejected f.0.spec f.2 f.3))
  where
    failed :
        (r : Result TraefikConfig)
        → decode raw ≡ r
        → is_ok (from_decoded r) ≡ false
        → ((cfg : TraefikConfig) × (decode raw ≡ ok cfg)
            × ((cfg.spec.log_level == "") ≡ false)
            × (contains valid_log_levels cfg.spec.log_level ≡ false))
    failed (ok cfg) e h = (cfg, e, ground arith, ground arith)
    failed (err x) e h = absurd (ground arith)

    rejected :
        (spec : TraefikConfigSpec)
        → (spec.log_level == "") ≡ false
        → contains valid_log_levels spec.log_level ≡ false
        → is_ok (apply_spec spec default_config) ≡ false
    rejected spec n b = rw n (rw b refl)
