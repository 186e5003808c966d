-- ===== src/Heartbeat/Build.antt =====
-- When `New` gives a heartbeat, and what its errors are.
use mathlib.Core.Path.{subst}
use gardener_extension_shoot.Base.{
  ap, ◌∙◌, wrapf, >>=-eq-ok, >>=-eq-err, err-injective, ok-ne-err, String, false, List, [], Error,
  ok, err, Wraps, here, under, ◌==◌, ◌≡◌, ◌↔◌, ◌⊎◌, inl, inr, arith, Bool-cases,
}
use gardener_extension_shoot.Base.Options.{apply_options}
use gardener_extension_shoot.Heartbeat.{
  Heartbeat, HeartbeatOption, new_heartbeat, initial_heartbeat, check_heartbeat,
  err_invalid_heartbeat,
}

module _ (Clock : Type 0) where
  pub record IsReady (h : Heartbeat Clock) : Type 0 where
    pub extension_name : (h.extension_name == "") ≡ false
    pub namespace : (h.namespace == "") ≡ false

  check_heartbeat-ok :
      (g h : Heartbeat Clock) → check_heartbeat Clock g ≡ ok h → (g ≡ h) × IsReady g
  check_heartbeat-ok g h e = ground arith

  check_heartbeat-IsReady : (h : Heartbeat Clock) → IsReady h → check_heartbeat Clock h ≡ ok h
  check_heartbeat-IsReady h r = ground arith

  check_heartbeat-err :
      (h : Heartbeat Clock) (e : Error)
      → check_heartbeat Clock h ≡ err e
      → Wraps err_invalid_heartbeat e
  check_heartbeat-err h e f = elim (Bool-cases (h.extension_name == "")) [
    | inl unnamed ↦ subst (Wraps err_invalid_heartbeat) (err-injective (rw unnamed at f)) wrapped
    | inr named ↦ elim (Bool-cases (h.namespace == "")) [
      | inl nowhere ↦
          subst (Wraps err_invalid_heartbeat) (err-injective (rw (named, nowhere) at f)) wrapped
      | inr placed ↦ absurd (ok-ne-err (rw (named, placed) at f))
    ]
  ]
    where
      wrapped :
          {format : String} → Wraps err_invalid_heartbeat (wrapf format [] err_invalid_heartbeat)
      wrapped {format} = under format [] here

  -- `New` gives a heartbeat exactly when the options, applied in order to the initial one, give it
  -- and it has an extension name and a namespace.
  pub new_heartbeat_iff :
      (real_clock : Clock) (opts : List (HeartbeatOption Clock)) (h : Heartbeat Clock)
      → (new_heartbeat Clock real_clock opts ≡ ok h)
        ↔ ((apply_options opts (initial_heartbeat Clock real_clock) ≡ ok h) × IsReady h)
  unfolding new_heartbeat
  new_heartbeat_iff real_clock opts h = (
    λ e.
        let (g, applied, checked) = >>=-eq-ok (apply_options opts _) (check_heartbeat Clock) e in
        let (same, ready) = check_heartbeat-ok g h checked in
        (applied ∙ ap ok same, subst IsReady same ready),
    λ p. rw (p.0) (check_heartbeat-IsReady h p.1),
  )

  -- An error of `New` is that of the first option that fails, or one that wraps the sentinel.
  pub new_heartbeat_error :
      (real_clock : Clock) (opts : List (HeartbeatOption Clock)) (e : Error)
      → new_heartbeat Clock real_clock opts ≡ err e
      → (apply_options opts (initial_heartbeat Clock real_clock) ≡ err e)
        ⊎ Wraps err_invalid_heartbeat e
  unfolding new_heartbeat
  new_heartbeat_error real_clock opts e f =
      elim (>>=-eq-err (apply_options opts _) (check_heartbeat Clock) f) [
        | inl first ↦ inl first
        | inr (h, _, refused) ↦ inr (check_heartbeat-err h e refused)
      ]
