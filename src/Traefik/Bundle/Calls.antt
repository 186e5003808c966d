-- ===== src/Traefik/Bundle/Calls.antt =====
-- `generateResources` over the results of its calls: what they were if it returns.
use gardener_extension_shoot.Base.{
  String, [], ◌∷◌, Result, ok, err, wrap, ◌>>=◌, ◌≡◌, refl, sym, err-ne-ok, ok-injective,
}
use gardener_extension_shoot.Base.Assoc.{Map, copy}
use gardener_extension_shoot.Kube.{Deployment}

-- The map over the nine texts that it is made of.
abbrev pub files : (sa cr crb dep svc ic np pdb : String) → Map String → Map String
files sa cr crb dep svc ic np pdb crds =
    copy
      (("serviceaccount.yaml", sa)
        ∷ ("clusterrole.yaml", cr)
        ∷ ("clusterrolebinding.yaml", crb)
        ∷ ("deployment.yaml", dep)
        ∷ ("service.yaml", svc)
        ∷ ("ingressclass.yaml", ic)
        ∷ ("networkpolicy.yaml", np)
        ∷ ("poddisruptionbudget.yaml", pdb)
        ∷ [])
      crds

-- The part of the function from the encoding of the deployment on, over the results of its calls.
abbrev pub from_deployment :
    (dep svc ic np pdb : Result String)
    → Result (Map String)
    → (sa cr crb : String) → Result (Map String)
from_deployment dep svc ic np pdb crds sa cr crb = do
  dep ← wrap "failed to encode deployment: %w" [] dep
  svc ← wrap "failed to encode service: %w" [] svc
  ic ← wrap "failed to encode ingress class: %w" [] ic
  np ← wrap "failed to encode network policy: %w" [] np
  pdb ← wrap "failed to encode pod disruption budget: %w" [] pdb
  crds ← wrap "failed to split traefik CRDs: %w" [] crds
  ok (files sa cr crb dep svc ic np pdb crds)

pub record AreFiles (sa cr crb dep svc ic np pdb : Result String) (crds : Result (Map String))
    (m : Map String) : Type 0 where
  pub sa_text : String
  pub cr_text : String
  pub crb_text : String
  pub dep_text : String
  pub svc_text : String
  pub ic_text : String
  pub np_text : String
  pub pdb_text : String
  pub crd_map : Map String
  pub sa_ok : sa ≡ ok sa_text
  pub cr_ok : cr ≡ ok cr_text
  pub crb_ok : crb ≡ ok crb_text
  pub dep_ok : dep ≡ ok dep_text
  pub svc_ok : svc ≡ ok svc_text
  pub ic_ok : ic ≡ ok ic_text
  pub np_ok : np ≡ ok np_text
  pub pdb_ok : pdb ≡ ok pdb_text
  pub crds_ok : crds ≡ ok crd_map
  pub same : m ≡ files sa_text cr_text crb_text dep_text svc_text ic_text np_text pdb_text crd_map

from_deployment-AreFiles :
    (dep svc ic np pdb : Result String) (crds : Result (Map String)) (sa cr crb : String)
    {m : Map String}
    → from_deployment dep svc ic np pdb crds sa cr crb ≡ ok m
    → AreFiles (ok sa) (ok cr) (ok crb) dep svc ic np pdb crds m
from_deployment-AreFiles (ok dep) (ok svc) (ok ic) (ok np) (ok pdb) (ok crds) sa cr crb h = record {
  sa_text = sa;
  cr_text = cr;
  crb_text = crb;
  dep_text = dep;
  svc_text = svc;
  ic_text = ic;
  np_text = np;
  pdb_text = pdb;
  crd_map = crds;
  sa_ok = refl;
  cr_ok = refl;
  crb_ok = refl;
  dep_ok = refl;
  svc_ok = refl;
  ic_ok = refl;
  np_ok = refl;
  pdb_ok = refl;
  crds_ok = refl;
  same = sym (ok-injective h);
}
from_deployment-AreFiles (err e) _ _ _ _ _ _ _ _ h = absurd (err-ne-ok h)
from_deployment-AreFiles (ok _) (err e) _ _ _ _ _ _ _ h = absurd (err-ne-ok h)
from_deployment-AreFiles (ok _) (ok _) (err e) _ _ _ _ _ _ h = absurd (err-ne-ok h)
from_deployment-AreFiles (ok _) (ok _) (ok _) (err e) _ _ _ _ _ h = absurd (err-ne-ok h)
from_deployment-AreFiles (ok _) (ok _) (ok _) (ok _) (err e) _ _ _ _ h = absurd (err-ne-ok h)
from_deployment-AreFiles (ok _) (ok _) (ok _) (ok _) (ok _) (err e) _ _ _ h = absurd (err-ne-ok h)

pub generated :
    (sa cr crb : Result String) (dep : Result Deployment) (encode : Deployment → Result String)
    (svc ic np pdb : Result String) (crds : Result (Map String)) {m : Map String}
    → (do
      sa ← wrap "failed to encode service account: %w" [] sa
      cr ← wrap "failed to encode cluster role: %w" [] cr
      crb ← wrap "failed to encode cluster role binding: %w" [] crb
      dep ← wrap "failed to create deployment: %w" [] dep
      from_deployment (encode dep) svc ic np pdb crds sa cr crb)
      ≡ ok m
    → (d : Deployment) × (dep ≡ ok d) × AreFiles sa cr crb (encode d) svc ic np pdb crds m
generated (ok sa) (ok cr) (ok crb) (ok d) encode svc ic np pdb crds h =
    (d, refl, from_deployment-AreFiles (encode d) svc ic np pdb crds sa cr crb h)
generated (err e) _ _ _ _ _ _ _ _ _ h = absurd (err-ne-ok h)
generated (ok _) (err e) _ _ _ _ _ _ _ _ h = absurd (err-ne-ok h)
generated (ok _) (ok _) (err e) _ _ _ _ _ _ _ h = absurd (err-ne-ok h)
generated (ok _) (ok _) (ok _) (err e) _ _ _ _ _ _ h = absurd (err-ne-ok h)
