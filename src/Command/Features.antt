-- ===== src/Command/Features.antt =====
-- The flag `gardenlet-feature-gate` of cmd/extension-traefik/internal/manager/manager.go.
use gardener_extension_shoot.Base.{
  String, Bool, true, false, Option, none, some, List, [], ◌∷◌, Error, Result, ok, err, errorf,
  wrap, is_ok, ◌||◌, ◌==◌, ◌≡◌, refl, arith, if◌then◌else◌,
}
use gardener_extension_shoot.Base.Lists.{contains, all}
use gardener_extension_shoot.Base.Assoc.{Map, lookup, insert, lookup-insert, or_else}

abbrev pub true_words : List String
true_words = "1" ∷ "t" ∷ "T" ∷ "true" ∷ "TRUE" ∷ "True" ∷ []

abbrev pub false_words : List String
false_words = "0" ∷ "f" ∷ "F" ∷ "false" ∷ "FALSE" ∷ "False" ∷ []

-- `strconv.ParseBool` of the standard library.
unfoldable pub parse_bool : String → Result Bool
parse_bool s =
    if contains true_words s
    then ok true
    else if contains false_words s
    then ok false
    else err (errorf "strconv.ParseBool: parsing %q: invalid syntax" (s ∷ []))

abbrev store :
    Result Bool
    → String
    → Map Bool
    → (Map Bool → Result (Unit {0}) × Map Bool)
    → Result (Unit {0}) × Map Bool
store (ok enabled) feature gates rest = rest (insert feature enabled gates)
store (err e) feature gates rest = (err e, gates)

-- The loop over the items, in the order in which `range` goes through them. What was set before an
-- error stays set.
unfoldable pub set_gates : List (String × String) → Map Bool → Result (Unit {0}) × Map Bool
set_gates [] gates = (ok tt, gates)
set_gates ((feature, value) ∷ items) gates =
    store (wrap "invalid value for gardenlet feature gate: %w" [] (parse_bool value)) feature gates
      (set_gates items)

unfoldable pub is_true_word : String → Bool
is_true_word value = contains true_words value

unfoldable pub is_word : String → Bool
is_word value = contains true_words value || contains false_words value

-- The last item of a feature says whether it is enabled.
abbrev pub asked : List (String × String) → String → Option Bool
asked [] feature = none
asked ((f, value) ∷ items) feature =
    or_else (asked items feature) (if f == feature then some (is_true_word value) else none)

ok-parsed :
    (t f : Bool) (e : Error)
    → is_ok (if t then ok true else if f then ok false else err e) ≡ (t || f)
ok-parsed true f e = refl
ok-parsed false true e = refl
ok-parsed false false e = refl

parsed_value :
    (t f b : Bool) (e : Error)
    → (if t then ok true else if f then ok false else err e) ≡ ok b
    → b ≡ t
parsed_value t f b e h = ground arith

parse_bool-is_word : (value : String) → is_ok (parse_bool value) ≡ is_word value
unfolding parse_bool is_word
parse_bool-is_word value = ok-parsed (contains true_words value) (contains false_words value) _

parse_bool-is_true_word :
    (value : String) (b : Bool) → parse_bool value ≡ ok b → b ≡ is_true_word value
unfolding parse_bool is_true_word
parse_bool-is_true_word value b h =
    parsed_value (contains true_words value) (contains false_words value) b _ h

-- The items of the feature-gate flag are all taken exactly when each of them has a word for true or false.
pub set_gates-is_ok :
    (items : List (String × String)) (gates : Map Bool)
    → is_ok (set_gates items gates).0 ≡ all (λ (item : String × String). is_word item.1) items
unfolding set_gates
set_gates-is_ok [] gates = refl
set_gates-is_ok ((f, value) ∷ items) gates = ground (
  arith,
  parse_bool-is_word value,
  set_gates-is_ok items (insert f true gates),
  set_gates-is_ok items (insert f false gates),
)

-- If all items of the feature-gate flag are taken, each feature has the value of its last item, and a
-- feature without one keeps its own.
pub set_gates-asked :
    (items : List (String × String)) (gates : Map Bool) (feature : String)
    → (set_gates items gates).0 ≡ ok tt
    → lookup feature (set_gates items gates).1
      ≡ or_else (asked items feature) (lookup feature gates)
unfolding set_gates
set_gates-asked [] gates feature h = refl
set_gates-asked ((f, value) ∷ items) gates feature h = ground (
  arith,
  parse_bool-is_true_word value true,
  parse_bool-is_true_word value false,
  set_gates-asked items (insert f true gates) feature,
  set_gates-asked items (insert f false gates) feature,
  lookup-insert f feature true gates,
  lookup-insert f feature false gates,
)
