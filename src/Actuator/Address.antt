-- ===== src/Actuator/Address.antt =====
-- `lbAddressFromService`
use gardener_extension_shoot.Base.{
  String, List, [], ◌∷◌, ◌++◌, ◌==◌, ◌≡◌, ◌≢◌, ◌↔◌, inl, inr, refl, sym, ap, ◌∙◌, arith, eq_iff,
  Bool-cases, if◌then◌else◌,
}
use gardener_extension_shoot.Base.Lists.{All}
use gardener_extension_shoot.Kube.{LoadBalancerIngress, Service}
use gardener_extension_shoot.Actuator.Dns.{first_address, lb_address_from_service}

abbrev pub HasNone : LoadBalancerIngress → Type 0
HasNone ing = (ing.ip ≡ "") × (ing.hostname ≡ "")

-- The entry's IP, or its host name if it has no IP.
abbrev pub address_of : LoadBalancerIngress → String
address_of ing = if ing.ip == "" then ing.hostname else ing.ip

-- The first entry that has an address gives it.
pub record Picks (ings : List LoadBalancerIngress) (address : String) : Type 0 where
  pub before : List LoadBalancerIngress
  pub entry : LoadBalancerIngress
  pub after : List LoadBalancerIngress
  pub split : ings ≡ before ++ entry ∷ after
  pub others : All HasNone before
  pub picked : address ≡ address_of entry
  pub non_empty : address ≢ ""

first_address-none : (ings : List LoadBalancerIngress) → All HasNone ings → first_address ings ≡ ""
unfolding first_address
first_address-none [] h = refl
first_address-none (ing ∷ rest) h =
    ground (arith, first_address-none rest h.1, eq_iff ing.ip "", eq_iff ing.hostname "")

first_address-skip :
    (before : List LoadBalancerIngress) (e : LoadBalancerIngress) (after : List LoadBalancerIngress)
    → All HasNone before
    → address_of e ≢ ""
    → first_address (before ++ e ∷ after) ≡ address_of e
unfolding first_address
first_address-skip [] e after h n = ground (arith, eq_iff e.ip "", eq_iff e.hostname "")
first_address-skip (ing ∷ before) e after h n =
    ground (arith, first_address-skip before e after h.1, eq_iff ing.ip "", eq_iff ing.hostname "")

All-HasNone : (ings : List LoadBalancerIngress) → first_address ings ≡ "" → All HasNone ings
unfolding first_address
All-HasNone [] h = tt
All-HasNone (ing ∷ rest) h =
    ground (arith, All-HasNone rest, eq_iff ing.ip "", eq_iff ing.hostname "")

later_Picks :
    (ing : LoadBalancerIngress) (rest : List LoadBalancerIngress) (address : String)
    → HasNone ing
    → Picks rest address
    → Picks (ing ∷ rest) address
later_Picks ing rest address empty p = record {
  before = ing ∷ p.before;
  entry = p.entry;
  after = p.after;
  split = ap (λ l. ing ∷ l) p.split;
  others = (empty, p.others);
  picked = p.picked;
  non_empty = p.non_empty;
}

first_Picks :
    (ing : LoadBalancerIngress) (rest : List LoadBalancerIngress) (address : String)
    → address ≡ address_of ing
    → address ≢ ""
    → Picks (ing ∷ rest) address
first_Picks ing rest address e n = record {
  before = [];
  entry = ing;
  after = rest;
  split = refl;
  others = tt;
  picked = e;
  non_empty = n;
}

Picks-first_address :
    (ings : List LoadBalancerIngress) (address : String)
    → first_address ings ≡ address
    → address ≢ ""
    → Picks ings address
unfolding first_address
Picks-first_address [] address e n = absurd (n (sym e))
Picks-first_address (ing ∷ rest) address e n = elim (Bool-cases (ing.ip == "")) [
  | inr ip ↦ first_Picks ing rest address (ground arith) n
  | inl no_ip ↦ elim (Bool-cases (ing.hostname == "")) [
    | inr host ↦ first_Picks ing rest address (ground arith) n
    | inl no_host ↦
        later_Picks ing rest address ((eq_iff _ _).0 no_ip, (eq_iff _ _).0 no_host)
          (Picks-first_address rest address (ground arith) n)
  ]
]

first_address-Picks :
    (ings : List LoadBalancerIngress) (address : String)
    → Picks ings address
    → first_address ings ≡ address
first_address-Picks ings address p = rw p.split (
    first_address-skip p.before p.entry p.after p.others (λ e. p.non_empty (p.picked ∙ e))
    ∙ sym p.picked)

-- The address of a service is "" exactly when no entry has an IP or a host name, and it is any other
-- text exactly when the first entry that has one gives that text, its IP before its host name.
pub lb_address_from_service_exact :
    (svc : Service) (address : String)
    → ((lb_address_from_service svc ≡ "") ↔ All HasNone svc.load_balancer_ingress)
      × (((lb_address_from_service svc ≡ address) × (address ≢ ""))
          ↔ Picks svc.load_balancer_ingress address)
unfolding lb_address_from_service
lb_address_from_service_exact svc address = (
  (All-HasNone svc.load_balancer_ingress, first_address-none svc.load_balancer_ingress),
  (
    λ h. Picks-first_address svc.load_balancer_ingress address h.0 h.1,
    λ p. (first_address-Picks svc.load_balancer_ingress address p, p.non_empty),
  ),
)
