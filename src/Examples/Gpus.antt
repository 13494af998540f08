-- ===== src/Examples/Gpus.antt =====
-- A node with one card, given by Core's view to the machine of `Host` that runs with it.
use omnuv_provider.Base.{ℕ, ◌≤◌, ◌≡◌, refl, true, false, List, [], ◌∷◌, Option, none, some, All}
use omnuv_provider.Base.Text.{
  Text, codes, same, split, split_once, drop_return, first_line, strip_prefix, trim, trim_start,
  is_space,
}
use omnuv_provider.Names.{
  tag_instance, description, stamped, label, tags, is_key_of, short_tag, key_tag,
  is_legacy_marketplace_tag,
}
use omnuv_provider.Hypervisor.{Config}
use omnuv_provider.Leased.{stamp_line}
use omnuv_provider.Scrub.Pass.{pci_slot}
use omnuv_provider.Cards.{
  PciMapping, widths_of, device_fits, check_address, address_of, slots_from, pci_claim_slots,
  fields_from, property_fields, field_of, source_from, entry_slots, entries_slots, mapped_slots,
  resolve_pci_claim,
}
use omnuv_provider.Cards.Claims.{
  VmEntry, Desired, claims_of, is_its, devices_slots, matched_slots, accounted_pci, is_marketplace,
  assigned, may_offer, holding_of, hold_slot, hold_each, observe_vm, observe_each, claimed_pci,
}
use omnuv_provider.Cards.Offers.{Provable, holders, claimed_pci-may_offer}
use omnuv_provider.Examples.Host.{machine_id, node_name}

abbrev machine : VmEntry
machine = record {
  vmid = 101;
  status = some (codes "running");
  tags = some (tags tag_instance machine_id none);
}

abbrev mapping : PciMapping
mapping = record { id = codes "card"; entries = codes "node=alpha,path=0000:21:00" ∷ [] }

abbrev config : Config
config =
    (codes "description", some (description tag_instance machine_id))
    ∷ (codes "hostpci0", some (codes "mapping=card,pcie=1"))
    ∷ []

abbrev view : Desired
view = record {
  unchanged = false;
  protocol_version = 4;
  instances = record { id = machine_id; gpu_local_ids = codes "0000:21:00.0" ∷ [] } ∷ [];
  inference_workers = [];
}

abbrev configs : ℕ → Option (Option Config)
configs v = some (some config)

abbrev card : Text
card = codes "0000:21:00"

offered :
    may_offer
      (claimed_pci 4 node_name (some view) (some (machine ∷ [])) (some (mapping ∷ [])) configs)
      card
    ≡ true
unfolding may_offer claimed_pci observe_each observe_vm hold_each hold_slot holding_of assigned
    is_marketplace accounted_pci matched_slots devices_slots is_its claims_of resolve_pci_claim
    mapped_slots entries_slots entry_slots source_from field_of property_fields fields_from
    pci_claim_slots slots_from address_of check_address device_fits widths_of pci_slot stamp_line
    tags is_key_of short_tag key_tag is_legacy_marketplace_tag same split split_once drop_return
    first_line strip_prefix trim trim_start is_space description stamped label
offered = refl

claimed_pci-may_offer_example :
    (vms : List VmEntry) × (mappings : List PciMapping) × (◌≡◌ {A = Option (List VmEntry)}
      (some (machine ∷ []))
      (some vms))
    × (◌≡◌ {A = Option (List PciMapping)} (some (mapping ∷ [])) (some mappings))
    × All (Provable 4 node_name mappings (some view) configs card) vms
    × (holders 4 node_name mappings (some view) configs card vms ≤ 1)
claimed_pci-may_offer_example =
    claimed_pci-may_offer 4 node_name (some view) (some (machine ∷ [])) (some (mapping ∷ []))
      configs card offered

-- The same guest without a view: a card that is held and not accounted for is not offered.
withheld :
    may_offer
      (claimed_pci 4 node_name none (some (machine ∷ [])) (some (mapping ∷ [])) configs)
      card
    ≡ false
unfolding may_offer claimed_pci observe_each observe_vm hold_each hold_slot holding_of assigned
    is_marketplace accounted_pci matched_slots devices_slots is_its claims_of resolve_pci_claim
    mapped_slots entries_slots entry_slots source_from field_of property_fields fields_from
    pci_claim_slots slots_from address_of check_address device_fits widths_of pci_slot stamp_line
    tags is_key_of short_tag key_tag is_legacy_marketplace_tag same split split_once drop_return
    first_line strip_prefix trim trim_start is_space description stamped label
withheld = refl
