-- ===== src/Traefik/Crds.antt =====
-- `splitCRDs` of pkg/traefik/deployer.go against a description of what it returns.
use gardener_extension_shoot.Base.{
  String, Bool, true, false, not, ◌&&◌, ◌||◌, List, [], ◌∷◌, Option, none, some, Result, ok, err,
  ◌>>=◌, ◌==◌, ◌≡◌, ◌∙◌, sym, ap, refl, arith, is_ok, >>=-eq-ok, err-ne-ok, ok-injective,
  if◌then◌else◌,
}
use gardener_extension_shoot.Base.Lists.{any, all}
use gardener_extension_shoot.Base.Assoc.{Map, or_else, lookup, insert, lookup-insert}
use gardener_extension_shoot.Kube.{Codec, Crd}
use gardener_extension_shoot.Traefik.Resources.{crd_key, split_loop, non_empty, split_crds}

-- A document counts if it is a CRD with a name.
abbrev pub is_used : Crd → Bool
is_used crd = crd.kind == "CustomResourceDefinition" && not (crd.name == "")

abbrev pub json_of : Result String → Option String
json_of (ok json) = some json
json_of (err e) = none

module _ (codec : Codec) where
  -- The JSON of the last document that counts and has a file of that name.
  unfoldable pub last_of : List (Result Crd) → String → Option String
  last_of [] file = none
  last_of (err e ∷ docs) file = last_of docs file
  last_of (ok crd ∷ docs) file =
      or_else (last_of docs file)
        (if is_used crd && crd_key crd.name == file then json_of (codec.marshal_crd crd) else none)

  -- A document that does not stop the loop.
  abbrev pub is_fine : Result Crd → Bool
  is_fine (err e) = false
  is_fine (ok crd) = not (is_used crd) || is_ok (codec.marshal_crd crd)

  abbrev pub counts : Result Crd → Bool
  counts (err e) = false
  counts (ok crd) = is_used crd

  abbrev has_entry : Map String → Bool
  has_entry [] = false
  has_entry (x ∷ xs) = true

  insert-has_entry : (key value : String) (m : Map String) → has_entry (insert key value m) ≡ true
  unfolding insert
  insert-has_entry key value [] = refl
  insert-has_entry key value (x ∷ xs) = ground arith

  split_loop-is_ok :
      (docs : List (Result Crd)) (result : Map String)
      → is_ok (split_loop codec docs result >>= non_empty codec)
        ≡ (all is_fine docs && (has_entry result || any counts docs))
  unfolding split_loop
  split_loop-is_ok [] [] = refl
  split_loop-is_ok [] (x ∷ xs) = refl
  split_loop-is_ok (err e ∷ docs) result = refl
  split_loop-is_ok (ok crd ∷ docs) result = grind (arith, split_loop-is_ok docs, insert-has_entry)

  split_loop-last :
      (docs : List (Result Crd)) (result m : Map String) (file : String)
      → split_loop codec docs result ≡ ok m
      → lookup file m ≡ or_else (last_of docs file) (lookup file result)
  unfolding split_loop last_of
  split_loop-last [] result m file h = ap (lookup file) (sym (ok-injective h))
  split_loop-last (err e ∷ docs) result m file h = absurd (err-ne-ok h)
  split_loop-last (ok crd ∷ docs) result m file h =
      with_json (codec.marshal_crd crd) refl (λ next. split_loop-last docs next m file)
    where
      with_json :
          (r : Result String)
          → codec.marshal_crd crd ≡ r
          → ((next : Map String)
              → split_loop codec docs next ≡ ok m
              → lookup file m ≡ or_else (last_of docs file) (lookup file next))
          → lookup file m ≡ or_else (last_of (ok crd ∷ docs) file) (lookup file result)
      with_json (ok json) e later = ground (
        arith,
        later result,
        later (insert (crd_key crd.name) json result),
        lookup-insert (crd_key crd.name) file json result,
      )
      with_json (err x) e later = ground (arith, later result)

  -- Splitting succeeds exactly when every document decodes, every one that counts can be marshalled,
  -- and at least one counts.
  pub split_crds-is_ok :
      (raw : String)
      → is_ok (split_crds codec raw)
        ≡ (all is_fine (codec.documents raw) && any counts (codec.documents raw))
  unfolding split_crds
  split_crds-is_ok raw = split_loop-is_ok (codec.documents raw) []

  non_empty-same : (m n : Map String) → non_empty codec m ≡ ok n → m ≡ n
  non_empty-same [] n h = absurd (err-ne-ok h)
  non_empty-same (x ∷ xs) n h = ok-injective h

  or_else-none : (o : Option String) → or_else o none ≡ o
  or_else-none none = refl
  or_else-none (some v) = refl

  -- A map that splitting returns has under each file name the JSON of the last document that counts
  -- and has a file of that name, and nothing under any other name.
  pub split_crds-last :
      (raw : String) (m : Map String) (file : String)
      → split_crds codec raw ≡ ok m
      → lookup file m ≡ last_of (codec.documents raw) file
  unfolding split_crds lookup
  split_crds-last raw m file h =
      let (found, split, kept) =
        >>=-eq-ok (split_loop codec (codec.documents raw) []) (non_empty codec) h in
      ap (lookup file) (sym (non_empty-same found m kept))
      ∙ split_loop-last (codec.documents raw) [] found file split
      ∙ or_else-none (last_of (codec.documents raw) file)
