-- ===== src/Trace/Keep.antt =====
-- Whether the objects in the shoot outlive the managed resource that stands for them.
use gardener_extension_shoot.Base.{String, Bool, true, false, ◌∷◌, ◌==◌, ◌≡◌, if◌then◌else◌}
use gardener_extension_shoot.Trace.Along.{Along}
use gardener_extension_shoot.Trace.{
  Event, set_keep, created_for_shoot, created_for_seed, deleted_resource, History,
}
use gardener_extension_shoot.Api.{Api, is_tolerable}
use gardener_extension_shoot.Traefik.Config.{managed_resource_name}

abbrev removes_shoot : String → Bool
removes_shoot name = name == managed_resource_name

module _ (A : Api) where
  -- The newest call set `keepObjects` on the shoot's managed resource of the namespace, and it
  -- returned, or there is no such resource.
  abbrev pub JustKept : String → History → Type 0
  JustKept ns (set_keep n name keep r ∷ h) =
      (n ≡ ns) × (name ≡ managed_resource_name) × (keep ≡ true) × (is_tolerable A r ≡ true)
  JustKept ns _ = ⊥

  abbrev pub KeptBefore : Event → History → Type 0
  KeptBefore (deleted_resource ns name _) h = if removes_shoot name then JustKept ns h else Unit {0}
  KeptBefore _ h = Unit

  -- Wherever the shoot's managed resource was deleted, `keepObjects` had just been set on it.
  abbrev pub KeepsObjects : History → Type 0
  KeepsObjects = Along KeptBefore

-- No call changes `keepObjects` of the shoot's managed resource, and none creates it with the flag.
abbrev pub KeepFree : Event → History → Type 0
KeepFree (set_keep ns name _ _) h = (name == managed_resource_name) ≡ false
KeepFree (created_for_shoot ns name keep _ _) h =
    if removes_shoot name then keep ≡ false else Unit {0}
KeepFree (created_for_seed ns name keep _ _) h =
    if removes_shoot name then keep ≡ false else Unit {0}
KeepFree _ h = Unit

-- `keepObjects` was never set on the shoot's managed resource.
abbrev pub NeverKeeps : History → Type 0
NeverKeeps = Along KeepFree
