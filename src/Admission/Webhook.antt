-- ===== src/Admission/Webhook.antt =====
-- `NewShootValidatorWebhook` and `NewShootValidator` of pkg/admission/validator/shoot.go.
use gardener_extension_shoot.Base.{String, List, [], ◌∷◌, Option, Error}
use gardener_extension_shoot.Base.Exec.{Exec}
use gardener_extension_shoot.Admission.{Object, extension_type, validate}

-- `extensionswebhook.Args`: what a webhook is made of. A validator comes with the types of the
-- objects that it is asked about, here by their Go names.
pub record Args (Validator : Type 0) : Type 0 where
  pub provider : String
  pub name : String
  pub path : String
  pub target : String
  pub validators : List (Validator × List String)

-- What it uses of a manager: its client, the strict decoder over its scheme, and
-- `extensionswebhook.TargetSeed`.
pub record Admitted (M : Type 0) : Type 1 where
  pub Client : Type 0
  pub Decoder : Type 0
  pub client_of : M → Client
  pub strict_decoder_of : M → Decoder
  pub target_seed : String

pub record ShootValidator (Client Decoder : Type 0) : Type 0 where
  pub client : Client
  pub decoder : Decoder

abbrev pub new_shoot_validator :
    {Client Decoder : Type 0} → Client → Decoder → ShootValidator Client Decoder
new_shoot_validator c decoder = record { client = c; decoder = decoder }

-- `Validate` looks at neither the client nor the decoder.
abbrev pub validates :
    {Client Decoder : Type 0} → ShootValidator Client Decoder → Object → Object → Option Error
validates v new_client old = validate new_client old

module _ {M W Webhook : Type 0} (A : Admitted M)
    (new_webhook : M → Args (ShootValidator A.Client A.Decoder) → Exec W Webhook) where
  abbrev pub shoot_args : M → Args (ShootValidator A.Client A.Decoder)
  shoot_args m = record {
    provider = extension_type;
    name = "shoot-validator";
    path = "/webhooks/validate-shoot-traefik";
    target = A.target_seed;
    validators =
        (new_shoot_validator (A.client_of m) (A.strict_decoder_of m), "*v1beta1.Shoot" ∷ []) ∷ [];
  }

  abbrev pub new_shoot_validator_webhook : M → Exec W Webhook
  new_shoot_validator_webhook m = new_webhook m (shoot_args m)
