-- ===== src/Admission.antt =====
-- pkg/admission/validator/shoot.go: the webhook that admits Traefik on evaluation shoots only.
use gardener_extension_shoot.Base.{
  String, Bool, true, false, Option, none, some, List, [], ◌∷◌, Error, errorf, ◌==◌, if◌then◌else◌,
}
use gardener_extension_shoot.Kube.{Shoot, ShootExtension}
pub mod Policy
pub mod Webhook

-- What the loop over `shoot.Spec.Extensions` finds: nothing of this type, a disabled one first, at
-- which `validateShoot` returns, or an enabled one first.
pub data Found : Type 0 where
  absent disabled enabled : Found

abbrev pub extension_type : String
extension_type = "shoot-traefik"

abbrev found_of : Option Bool → Found
found_of (some true) = disabled
found_of _ = enabled

unfoldable pub find_extension : List ShootExtension → Found
find_extension [] = absent
find_extension (ext ∷ rest) =
    let later = find_extension rest in
    if ext.extension_type == extension_type then found_of ext.disabled else later

abbrev pub purpose_evaluation : String
purpose_evaluation = "evaluation"

abbrev purpose_error : String → Option Error
purpose_error purpose = some (
    errorf
      "traefik extension can only be enabled for shoots with purpose 'evaluation'. Current purpose: %s. Traefik acts as a replacement for the nginx ingress controller and is only supported for evaluation clusters"
      (purpose ∷ []))

abbrev check_purpose : Option String → Option Error
check_purpose none = purpose_error "nil"
check_purpose (some purpose) = if purpose == purpose_evaluation then none else purpose_error purpose

abbrev verdict : Found → Option String → Option Error
verdict absent purpose = none
verdict disabled purpose = none
verdict enabled purpose = check_purpose purpose

-- `none` admits the shoot.
unfoldable pub validate_shoot : Shoot → Option Error
unfolding find_extension
validate_shoot shoot = verdict (find_extension shoot.extensions) shoot.purpose

-- A `client.Object`: a shoot, or an object of the named other type.
pub data Object : Type 0 where
  shoot : Shoot → Object
  other : String → Object

-- The old object is not looked at.
unfoldable pub validate : Object → Object → Option Error
unfolding validate_shoot
validate (shoot s) old = validate_shoot s
validate (other go_type) old =
    some (errorf "expected *gardencorev1beta1.Shoot but got %T" (go_type ∷ []))
