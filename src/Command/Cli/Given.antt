-- ===== src/Command/Cli/Given.antt =====
-- A command line: what was given to the flags of a table, what it stores, and the actions that it
-- starts. github.com/urfave/cli stores the values, runs `Before`, then the action of each flag that
-- was given, in the order of the table, and then the command's own action.
use gardener_extension_shoot.Base.{
  false, Option, none, some, List, [], ◌∷◌, ◌++◌, Result, ok, err, ◌≡◌,
}
use gardener_extension_shoot.Base.Exec.{Exec, pure, ◌>>=◌}
use gardener_extension_shoot.Command.Cli.{Flag}

abbrev pub returning : {A : Type 0} → A → Result (Unit {0}) → Result A
returning a (ok _) = ok a
returning a (err e) = err e

module _ {W F : Type 0} where
  abbrev pub Given : List (Flag W F) → Type 0
  Given [] = Unit
  Given (flag ∷ flags) = Option flag.V × Given flags

  abbrev value_or_default : (flag : Flag W F) → Option flag.V → flag.V
  value_or_default flag none = flag.value
  value_or_default flag (some v) = v

  -- The values of the flags that were given, and of the others their own.
  abbrev pub store_given : (flags : List (Flag W F)) → Given flags → F → F
  store_given [] given f = f
  store_given (flag ∷ flags) (o, given) f =
      store_given flags given (flag.destination (value_or_default flag o) f)

  -- The parser goes on: what is required was given, and what was given is accepted.
  abbrev pub IsAccepted : (flags : List (Flag W F)) → Given flags → Type 0
  IsAccepted [] given = Unit
  IsAccepted (flag ∷ flags) (none, given) = (flag.required ≡ false) × IsAccepted flags given
  IsAccepted (flag ∷ flags) (some v, given) = (flag.validator v ≡ none) × IsAccepted flags given

  abbrev pub run_action : (flag : Flag W F) → Option flag.V → Exec (W × F) (Unit {0})
  run_action flag none s = (ok tt, s)
  run_action flag (some v) s = flag.action v s

  unfoldable pub run_actions : (flags : List (Flag W F)) → Given flags → Exec (W × F) (Unit {0})
  run_actions [] given = pure tt
  run_actions (flag ∷ flags) (o, given) = run_action flag o >>= λ _. run_actions flags given

  -- The actions on flags, with what they make of these.
  abbrev pub with_actions : (flags : List (Flag W F)) → Given flags → F → Exec W F
  with_actions flags given f w =
      let (r, (w', f')) = run_actions flags given (w, f) in (returning f' r, w')

  -- What was given to the last flag.
  abbrev pub last_given :
      (before : List (Flag W F)) (flag : Flag W F) → Given (before ++ flag ∷ []) → Option flag.V
  last_given [] flag (o, given) = o
  last_given (b ∷ before) flag (o, given) = last_given before flag given
