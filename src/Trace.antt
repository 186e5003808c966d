-- ===== src/Trace.antt =====
-- The calls that a run makes, in order, newest first: an `Api` that notes each call with its answer
-- on the way to another one. What the program does is stated over such histories.
use gardener_extension_shoot.Base.{
  ℕ, ◌+◌, String, Bool, true, false, ◌&&◌, List, [], ◌∷◌, Result, ok, err, is_ok, ◌==◌,
  if◌then◌else◌,
}
use gardener_extension_shoot.Base.Exec.{Exec}
use gardener_extension_shoot.Base.Assoc.{Map}
use gardener_extension_shoot.Kube.{Cluster, Service, DnsRecord}
use gardener_extension_shoot.Api.{Api}
pub mod Along
pub mod Safety
pub mod Keep

-- A call with its arguments and its answer; of the answers only what a statement reads is kept.
pub data Event : Type 0 where
  got_cluster : String → Result Cluster → Event
  built_client : String → Bool → Event
  got_service : String → String → Result Service → Event
  created_for_shoot : String → String → Bool → Map String → Result (Unit {0}) → Event
  created_for_seed : String → String → Bool → Map String → Result (Unit {0}) → Event
  set_keep : String → String → Bool → Result (Unit {0}) → Event
  deleted_resource : String → String → Result (Unit {0}) → Event
  waited : String → String → Result (Unit {0}) → Event
  got_dns_record : String → String → Result DnsRecord → Event
  patched_dns_record : DnsRecord → DnsRecord → Result DnsRecord → Event
  deleted_dns_record : DnsRecord → Result (Unit {0}) → Event
  counted : String → String → Event
  timed : String → String → Event

abbrev pub History : Type 0
History = List Event

abbrev note : {W A : Type 0} → (Result A → Event) → Exec W A → Exec (W × History) A
note event m (w, h) = let (r, w') = m w in (r, (w', event r ∷ h))

abbrev pub traced : Api → Api
traced A = record {
  World = A.World × History;
  ShootClient = A.ShootClient;
  codec = A.codec;
  gardener = A.gardener;
  ignore_not_found = A.ignore_not_found;
  get_cluster = λ ns. note (got_cluster ns) (A.get_cluster ns);
  new_client_for_shoot = λ ns. note (λ r. built_client ns (is_ok r)) (A.new_client_for_shoot ns);
  get_service = λ c ns name. note (got_service ns name) (A.get_service c ns name);
  create_for_shoot = λ ns name origin keep content.
      note (created_for_shoot ns name keep content)
        (A.create_for_shoot ns name origin keep content);
  create_for_seed = λ ns name keep content.
      note (created_for_seed ns name keep content) (A.create_for_seed ns name keep content);
  set_keep_objects = λ ns name keep. note (set_keep ns name keep) (A.set_keep_objects ns name keep);
  delete_resource =
      λ ns name secret. note (deleted_resource ns name) (A.delete_resource ns name secret);
  wait_until_deleted =
      λ timeout ns name. note (waited ns name) (A.wait_until_deleted timeout ns name);
  get_dns_record = λ ns name. note (got_dns_record ns name) (A.get_dns_record ns name);
  patch_dns_record =
      λ changed base. note (patched_dns_record changed base) (A.patch_dns_record changed base);
  delete_dns_record = λ r. note (deleted_dns_record r) (A.delete_dns_record r);
  now = λ (w, h). let (t, w') = A.now w in (t, (w', h));
  count_operation = λ cluster operation (w, h).
      (A.count_operation cluster operation w, counted cluster operation ∷ h);
  set_duration = λ cluster operation d (w, h).
      (A.set_duration cluster operation d w, timed cluster operation ∷ h);
}

-- How often an operation was counted for a cluster.
abbrev pub occurrences : String → String → History → ℕ
occurrences cluster operation [] = 0
occurrences cluster operation (counted c o ∷ h) =
    (if c == cluster && o == operation then 1 else 0) + occurrences cluster operation h
occurrences cluster operation (_ ∷ h) = occurrences cluster operation h

-- Whether a managed resource is known to be gone: a wait for its deletion ended well, and none of
-- that name was created since.
abbrev pub released : String → String → History → Bool
released ns name [] = false
released ns name (waited n m (ok _) ∷ h) = if n == ns && m == name then true else released ns name h
released ns name (created_for_shoot n m _ _ _ ∷ h) =
    if n == ns && m == name then false else released ns name h
released ns name (created_for_seed n m _ _ _ ∷ h) =
    if n == ns && m == name then false else released ns name h
released ns name (_ ∷ h) = released ns name h
