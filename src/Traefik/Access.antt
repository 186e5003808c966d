-- ===== src/Traefik/Access.antt =====
-- What the pods may do in the shoot: the rules of `clusterRole`.
use gardener_extension_shoot.Base.{
  String, Bool, true, false, List, [], ◌∷◌, ◌++◌, ◌&&◌, ◌||◌, ◌==◌, ◌≡◌, refl, arith, if◌then◌else◌,
  ◌⊎◌, inl, inr,
}
use mathlib.Core.Bool.{false≢true}
use mathlib.Core.Path.{subst}
use text.Mathlib.TextEquality.{eq_iff}
use gardener_extension_shoot.Base.Lists.{All, any, contains}
use gardener_extension_shoot.Kube.{PolicyRule}
use gardener_extension_shoot.Traefik.Config.{Deployer, kubernetes_ingress_nginx}
use gardener_extension_shoot.Traefik.Manifests.{cluster_role, base_rules, nginx_rules, read_verbs}

-- What a list of a rule stands for: its elements, or everything if "*" is among them.
abbrev pub covers : List String → String → Bool
covers names name = contains names name || contains names "*"

-- A rule grants a verb on a resource of a group if it covers all three; rights add up.
abbrev pub rule_grants : String → String → String → PolicyRule → Bool
rule_grants group resource verb r =
    covers r.api_groups group && (covers r.resources resource && covers r.verbs verb)

abbrev pub grants : List PolicyRule → String → String → String → Bool
grants rules group resource verb = any (rule_grants group resource verb) rules

-- Reading, or the update of an ingress's status.
unfoldable pub is_modest : String → String → Bool
is_modest resource verb =
    contains read_verbs verb
    || (contains ("ingresses/status" ∷ []) resource && contains ("update" ∷ []) verb)

grants-append :
    (xs ys : List PolicyRule) (g r v : String)
    → grants (xs ++ ys) g r v ≡ (grants xs g r v || grants ys g r v)
grants-append [] ys g r v = refl
grants-append (x ∷ xs) ys g r v = ground (arith, grants-append xs ys g r v)

weaken : (a v w : Bool) → (a && (v || false)) ≡ true → (v || w) ≡ true
weaken a v w h = ground arith

status_only :
    (x u v : Bool)
    → (((x || false) || false) && ((u || false) || false)) ≡ true
    → (v || ((x || false) && (u || false))) ≡ true
status_only x u v h = ground arith

first_true : (a x y w : Bool) → (a && ((x || false) || false)) ≡ true → ((x || y) || w) ≡ true
first_true a x y w h = ground arith

-- A rule that gives no other rights.
unfoldable IsModest : PolicyRule → Type 0
IsModest rule =
    (resource verb : String)
    → (covers rule.resources resource && covers rule.verbs verb) ≡ true
    → is_modest resource verb ≡ true

reads-IsModest :
    (groups resources : List String)
    → IsModest (record { api_groups = groups; resources = resources; verbs = read_verbs })
unfolding IsModest is_modest
reads-IsModest groups resources resource verb h =
    weaken (covers resources resource) (contains read_verbs verb) _ h

status-IsModest :
    (groups : List String)
    → IsModest
        (record { api_groups = groups; resources = "ingresses/status" ∷ []; verbs = "update" ∷ [] })
unfolding IsModest is_modest
status-IsModest groups resource verb h =
    status_only ("ingresses/status" == resource) ("update" == verb) _ h

get-IsModest :
    (groups resources : List String)
    → IsModest (record { api_groups = groups; resources = resources; verbs = "get" ∷ [] })
unfolding IsModest is_modest
get-IsModest groups resources resource verb h =
    first_true (covers resources resource) ("get" == verb) _ _ h

modest-grants :
    (rules : List PolicyRule)
    → All IsModest rules
    → (group resource verb : String) → grants rules group resource verb ≡ true
    → is_modest resource verb ≡ true
unfolding IsModest
modest-grants [] _ group resource verb h = absurd (false≢true h)
modest-grants (x ∷ xs) (p, ps) group resource verb h =
    ground (arith, p resource verb, modest-grants xs ps group resource verb)

base-IsModest : All IsModest base_rules
base-IsModest = (
  reads-IsModest _ _,
  (reads-IsModest _ _, (reads-IsModest _ _, (status-IsModest _, (reads-IsModest _ _, tt)))),
)

nginx-IsModest : All IsModest nginx_rules
nginx-IsModest = (reads-IsModest _ _, (get-IsModest _ _, tt))

All-append : (xs ys : List PolicyRule) → All IsModest xs → All IsModest ys → All IsModest (xs ++ ys)
All-append [] ys _ qs = qs
All-append (x ∷ xs) ys (p, ps) qs = (p, All-append xs ys ps qs)

rules-IsModest :
    (nginx : Bool) → All IsModest (if nginx then base_rules ++ nginx_rules else base_rules)
rules-IsModest true = All-append base_rules nginx_rules base-IsModest nginx-IsModest
rules-IsModest false = base-IsModest

-- The rights that only the NGINX provider needs: to read namespaces, and to get pods.
unfoldable pub is_nginx_right : String → String → String → Bool
is_nginx_right group resource verb =
    ("" == group)
    && (("namespaces" == resource && contains read_verbs verb)
        || ("pods" == resource && "get" == verb))

nginx-exact :
    (group resource verb : String)
    → grants nginx_rules group resource verb ≡ is_nginx_right group resource verb
unfolding is_nginx_right
nginx-exact group resource verb = ground arith

without_namespaces : (group verb : String) → grants base_rules group "namespaces" verb ≡ false
without_namespaces group verb = ground arith

without_pods : (group verb : String) → grants base_rules group "pods" verb ≡ false
without_pods group verb = ground arith

either : (g n r p q : Bool) → (g && ((n && r) || (p && q))) ≡ true → (n ≡ true) ⊎ (p ≡ true)
either g n r p q h = ground arith

not_base :
    (group resource verb : String)
    → is_nginx_right group resource verb ≡ true
    → grants base_rules group resource verb ≡ false
unfolding is_nginx_right
not_base group resource verb h =
    elim (either _ ("namespaces" == resource) _ ("pods" == resource) _ h) [
      | inl same ↦
          subst (λ r. grants base_rules group r verb ≡ false)
            ((eq_iff "namespaces" resource).0 same) (without_namespaces group verb)
      | inr same ↦
          subst (λ r. grants base_rules group r verb ≡ false) ((eq_iff "pods" resource).0 same)
            (without_pods group verb)
    ]

choose :
    (b n r nginx other : Bool)
    → n ≡ r
    → (r ≡ true → b ≡ false)
    → (if nginx then b || n else b) ≡ (if r then nginx else if other then b || n else b)
choose b n r nginx other same h = ground arith

role_rights :
    (nginx : Bool) (group resource verb : String)
    → grants (if nginx then base_rules ++ nginx_rules else base_rules) group resource verb ≡ (
        if nginx
        then grants base_rules group resource verb || grants nginx_rules group resource verb
        else grants base_rules group resource verb)
role_rights true group resource verb = grants-append base_rules nginx_rules group resource verb
role_rights false group resource verb = refl

with_rights :
    (nginx other : Bool) (group resource verb : String)
    → grants (if nginx then base_rules ++ nginx_rules else base_rules) group resource verb ≡ (
        if is_nginx_right group resource verb
        then nginx
        else grants (if other then base_rules ++ nginx_rules else base_rules) group resource verb)
with_rights nginx other group resource verb =
    rw (role_rights nginx group resource verb, role_rights other group resource verb)
      (choose _ _ (is_nginx_right group resource verb) nginx other (nginx-exact group resource verb)
        (not_base group resource verb))

-- Whatever the configuration, every right that the cluster role grants is to read, or to update the
-- status of an ingress.
pub cluster_role_modest :
    (d : Deployer) (group resource verb : String)
    → grants (cluster_role d).rules group resource verb ≡ true
    → is_modest resource verb ≡ true
unfolding cluster_role
cluster_role_modest d group resource verb h =
    modest-grants (cluster_role d).rules
      (rules-IsModest (d.config.ingress_provider == kubernetes_ingress_nginx)) group resource verb h

-- To read namespaces and to get pods is granted exactly with the NGINX provider, and every other right
-- is granted whatever the configuration or under none.
pub cluster_role_nginx :
    (d e : Deployer) (group resource verb : String)
    → grants (cluster_role d).rules group resource verb ≡ (
        if is_nginx_right group resource verb
        then d.config.ingress_provider == kubernetes_ingress_nginx
        else grants (cluster_role e).rules group resource verb)
unfolding cluster_role
cluster_role_nginx d e group resource verb = with_rights _ _ group resource verb
