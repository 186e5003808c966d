-- ===== src/Trace/Safety.antt =====
-- When a history deletes a DNSRecord in the right order.
use gardener_extension_shoot.Base.{String, true, some, ◌∷◌, ok, ◌≡◌}
use gardener_extension_shoot.Base.Assoc.{lookup}
use gardener_extension_shoot.Kube.{DnsRecord}
use gardener_extension_shoot.Trace.Along.{Along}
use gardener_extension_shoot.Trace.{
  Event, deleted_dns_record, patched_dns_record, got_dns_record, History, released,
}

module _ (confirmation : String) where
  -- Just before, the record was read under its own name and patched with the confirmation, by a merge
  -- patch against what was read, and the object deleted is the server's answer; and before that the
  -- managed resource of that name was gone.
  abbrev pub Prepared : DnsRecord → History → Type 0
  Prepared r (patched_dns_record sent base (ok answer) ∷ got_dns_record ns name (ok found) ∷ h) =
      (r ≡ answer)
      × (base ≡ found)
      × (lookup confirmation sent.meta.annotations ≡ some "true")
      × (released ns name h ≡ true)
  Prepared r _ = ⊥

  abbrev pub Permitted : Event → History → Type 0
  Permitted (deleted_dns_record r _) h = Prepared r h
  Permitted _ h = Unit

  -- Every deletion of a DNSRecord in the history was prepared.
  abbrev pub IsSafe : History → Type 0
  IsSafe = Along Permitted
