-- ===== src/Actuator/Operation.antt =====
-- The methods of the interface `extension.Actuator`, chosen by a value.
use gardener_extension_shoot.Base.{String}
use gardener_extension_shoot.Base.Exec.{Exec}
use gardener_extension_shoot.Kube.{Extension}
use gardener_extension_shoot.Api.{Api}
use gardener_extension_shoot.Actuator.Settings.{Actuator}
use gardener_extension_shoot.Actuator.Operations.{
  reconcile, delete_extension, force_delete, restore, migrate,
}

pub data Operation : Type 0 where
  reconciling deleting force_deleting restoring migrating : Operation

module _ (A : Api) (a : Actuator) where
  unfoldable pub run : Operation → Extension → Exec A.World (Unit {0})
  run reconciling ex = reconcile A a ex
  run deleting ex = delete_extension A ex
  run force_deleting ex = force_delete A ex
  run restoring ex = restore A a ex
  run migrating ex = migrate A ex

-- The label that an operation is counted under.
abbrev pub label : Operation → String
label reconciling = "reconcile"
label deleting = "delete"
label force_deleting = "force_delete"
label restoring = "restore"
label migrating = "migrate"
