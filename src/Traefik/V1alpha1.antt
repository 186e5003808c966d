-- ===== src/Traefik/V1alpha1.antt =====
-- pkg/apis/config/v1alpha1: the external version of the configuration, and the conversions between
-- it and the internal one. They write into an object that is there, and leave its TypeMeta.
use gardener_extension_shoot.Base.{String, Bool, Result, ok, ◌>>=◌, ◌≡◌, refl}
use gardener_extension_shoot.Base.Int.{ℤ}
use gardener_extension_shoot.Kube.Meta.{TypeMeta}
use gardener_extension_shoot.Traefik.Config.{
  TraefikConfigSpec as InternalSpec, TraefikConfig as InternalConfig,
}

-- An `IngressProviderType` is any text here too.
pub record TraefikConfigSpec : Type 0 where
  pub replicas : ℤ
  pub ingress_provider : String
  pub log_level : String
  pub dashboard : Bool

pub record TraefikConfig : Type 0 where
  pub type_meta : TypeMeta
  pub spec : TraefikConfigSpec

abbrev pub spec_to_config : TraefikConfigSpec → InternalSpec → Result InternalSpec
spec_to_config v out = ok (record out {
  replicas = v.replicas;
  ingress_provider = v.ingress_provider;
  log_level = v.log_level;
  dashboard = v.dashboard;
})

abbrev pub spec_from_config : InternalSpec → TraefikConfigSpec → Result TraefikConfigSpec
spec_from_config c out = ok (record out {
  replicas = c.replicas;
  ingress_provider = c.ingress_provider;
  log_level = c.log_level;
  dashboard = c.dashboard;
})

unfoldable pub convert_to_config : TraefikConfig → InternalConfig → Result InternalConfig
convert_to_config v out = do spec ← spec_to_config v.spec out.spec; ok (record out { spec = spec })

unfoldable pub convert_from_config : InternalConfig → TraefikConfig → Result TraefikConfig
convert_from_config c out = do
  spec ← spec_from_config c.spec out.spec
  ok (record out { spec = spec })

-- Both conversions between the versions of the configuration succeed. Each takes back the spec of
-- what the other made, whatever spec the objects that they write into hold before, and leaves the
-- TypeMeta of the object that it writes into.
pub convert_to_config-convert_from_config :
    (v back : TraefikConfig) (c out : InternalConfig)
    → ((convert_to_config v out >>= λ x. convert_from_config x back)
        ≡ ok (record { type_meta = back.type_meta; spec = v.spec }))
      × ((convert_from_config c back >>= λ x. convert_to_config x out)
          ≡ ok (record { type_meta = out.type_meta; spec = c.spec }))
unfolding convert_to_config convert_from_config
convert_to_config-convert_from_config v back c out = (refl, refl)
