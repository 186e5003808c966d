-- ===== src/Heartbeat.antt =====
-- pkg/heartbeat/heartbeat.go: the reconciler that renews the extension's heartbeat lease.
use gardener_extension_shoot.Base.{
  String, List, [], Error, Result, ok, err, new_error, wrapf, ◌>>=◌, ◌==◌, if◌then◌else◌,
}
use gardener_extension_shoot.Base.Exec.{Exec}
use gardener_extension_shoot.Base.Int.{ℤ, pos}
use gardener_extension_shoot.Base.Options.{apply_options}
pub mod Build

abbrev pub err_invalid_heartbeat : Error
err_invalid_heartbeat = new_error "invalid heartbeat config"

-- `Clock` is a `clock.Clock`; a duration is a signed number of nanoseconds.
module _ (Clock : Type 0) where
  pub record Heartbeat : Type 0 where
    pub extension_name : String
    pub namespace : String
    pub renew_interval : ℤ
    pub clock : Clock

  pub record AddArgs : Type 0 where
    pub extension_name : String
    pub namespace : String
    pub renew_interval_seconds : ℤ
    pub clock : Clock

  abbrev pub HeartbeatOption : Type 0
  HeartbeatOption = Heartbeat → Result (Heartbeat)

  abbrev check_heartbeat : Heartbeat → Result (Heartbeat)
  check_heartbeat h =
      if h.extension_name == ""
      then err (wrapf "%w: missing extension name" [] err_invalid_heartbeat)
      else if h.namespace == ""
      then err (wrapf "%w: missing lease namespace" [] err_invalid_heartbeat)
      else ok h

  abbrev pub initial_heartbeat : Clock → Heartbeat
  initial_heartbeat real_clock = record {
    extension_name = "";
    namespace = "";
    renew_interval = pos 30_000_000_000;
    clock = real_clock;
  }

  unfoldable pub new_heartbeat : Clock → List HeartbeatOption → Result (Heartbeat)
  new_heartbeat real_clock opts = do
    h ← apply_options opts (initial_heartbeat real_clock)
    check_heartbeat h

  unfoldable pub with_extension_name : String → HeartbeatOption
  with_extension_name name h = ok (record h { extension_name = name })

  unfoldable pub with_lease_namespace : String → HeartbeatOption
  with_lease_namespace ns h = ok (record h { namespace = ns })

  unfoldable pub with_renew_interval : ℤ → HeartbeatOption
  with_renew_interval interval h = ok (record h { renew_interval = interval })

  unfoldable pub with_clock : Clock → HeartbeatOption
  with_clock clk h = ok (record h { clock = clk })

  -- `to_seconds` is `int32(d.Seconds())`, which goes through a float; `add` is
  -- `heartbeatcontroller.Add`.
  unfoldable pub setup_heartbeat {ℓ} :
      {W : Type ℓ} → (ℤ → ℤ) → (AddArgs → W → Result (Unit {ℓ}) × W) → Heartbeat → Exec W (Unit {ℓ})
  setup_heartbeat to_seconds add h = add (record {
    extension_name = h.extension_name;
    namespace = h.namespace;
    renew_interval_seconds = to_seconds h.renew_interval;
    clock = h.clock;
  })
