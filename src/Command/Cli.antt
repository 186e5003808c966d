-- ===== src/Command/Cli.antt =====
-- Flags as github.com/urfave/cli declares them: the table of a command, and what its parser promises
-- of the values that it stores. The texts of the help are left out.
pub mod Given
pub mod Actions
use gardener_extension_shoot.Base.{
  String, Bool, false, Option, none, List, [], ◌∷◌, ◌++◌, Error, ok, sym, ◌≡◌, ◌⊎◌,
}
use mathlib.Core.Path.{subst}
use gardener_extension_shoot.Base.Exec.{Exec}
use gardener_extension_shoot.Base.Lists.{All}

pub data Kind : Type 0 where
  string_kind bool_kind int_kind int32_kind duration_kind float32_kind string_map_kind : Kind

-- A flag of a command that keeps its values in `F` and acts on `W`. `validator` tells the error of a
-- value that is given; `destination` stores a value; `action` runs if the flag was given.
pub record Flag (W F : Type 0) : Type 1 where
  pub V : Type 0
  pub kind : Kind
  pub name : String
  pub aliases : List String
  pub value : V
  pub sources : List String
  pub required : Bool
  pub validator : V → Option Error
  pub destination : V → F → F
  pub action : V → Exec (W × F) (Unit {0})

-- A flag that is stored as it is given.
abbrev pub flag_of : {W F V : Type 0} → Kind → String → V → List String → (V → F → F) → Flag W F
flag_of {W} {F} {V} kind name value sources destination = record {
  V = V;
  kind = kind;
  name = name;
  aliases = [];
  value = value;
  sources = sources;
  required = false;
  validator = λ v. none;
  destination = destination;
  action = λ v s. (ok tt, s);
}

module _ {W F : Type 0} where
  -- A value is the flag's own, or one that was given and that the validator accepts.
  abbrev pub Chosen : (flag : Flag W F) → flag.V → Type 0
  Chosen flag v = (v ≡ flag.value) ⊎ (flag.validator v ≡ none)

  -- From `f`, the flags of a table were stored one after the other, which gave `g`.
  abbrev pub Parsed : List (Flag W F) → F → F → Type 0
  Parsed [] f g = g ≡ f
  Parsed (flag ∷ flags) f g = (v : flag.V) × Chosen flag v × Parsed flags (flag.destination v f) g

  abbrev pub Spares : (F → Type 0) → Flag W F → Type 0
  Spares P flag = (v : flag.V) (f : F) → P f → P (flag.destination v f)

  Parsed-Spares :
      (P : F → Type 0) (flags : List (Flag W F)) (f g : F)
      → All (Spares P) flags
      → Parsed flags f g
      → P f
      → P g
  Parsed-Spares P [] f g s p h = subst P (sym p) h
  Parsed-Spares P (flag ∷ flags) f g (s, ss) (v, c, p) h =
      Parsed-Spares P flags (flag.destination v f) g ss p (s v f h)

  -- What a flag settles holds in the end, if the flags after it spare it.
  pub Parsed-settles :
      (P : F → Type 0) (before : List (Flag W F)) (flag : Flag W F) (after : List (Flag W F))
      (f g : F)
      → ((v : flag.V) (f : F) → Chosen flag v → P (flag.destination v f))
      → All (Spares P) after
      → Parsed (before ++ flag ∷ after) f g
      → P g
  Parsed-settles P [] flag after f g settles s (v, c, p) =
      Parsed-Spares P after (flag.destination v f) g s p (settles v f c)
  Parsed-settles P (b ∷ before) flag after f g settles s (v, c, p) =
      Parsed-settles P before flag after (b.destination v f) g settles s p
