-- ===== src/Trace/Along.antt =====
-- A condition on each call of a history and on what stands before it.
use gardener_extension_shoot.Base.{[], ◌∷◌}
use gardener_extension_shoot.Trace.{Event, History}

abbrev pub Along : (Event → History → Type 0) → History → Type 0
Along Q [] = Unit
Along Q (e ∷ h) = Q e h × Along Q h
