-- ===== src/Machine/Request/Network.antt =====
-- internal/controller/virtualmachine_controller.go, buildCreateRequest: the network attachments.
use virtrigaud.Prelude.{ℕ, Option, none, some, List, [], ◌∷◌}
use virtrigaud.Machine.Types.{
  NetworkRef, NetworkConfig, VsphereNetwork, LibvirtNetwork, ProxmoxNetwork,
}
use virtrigaud.Machine.Request.Contract.{Attachment}

vlan_or : Option ℕ → ℕ → ℕ
vlan_or none vlan = vlan
vlan_or (some v) vlan = v

from_vsphere : Option VsphereNetwork → Attachment → Attachment
unfolding vlan_or
from_vsphere none a = a
from_vsphere (some n) a = record a {
  network_name = n.portgroup;
  vlan = vlan_or n.vlan_id a.vlan;
  pci_slot_number = elim n.pci_slot_number [ none ↦ a.pci_slot_number | some s ↦ some s ];
}

from_libvirt : Option LibvirtNetwork → Attachment → Attachment
from_libvirt none a = a
from_libvirt (some n) a = record a {
  network_name = n.network_name;
  bridge = elim n.bridge [ none ↦ a.bridge | some b ↦ b ];
  model = n.model;
}

from_proxmox : Option ProxmoxNetwork → Attachment → Attachment
unfolding vlan_or
from_proxmox none a = a
from_proxmox (some n) a = record a {
  bridge = n.bridge;
  model = n.model;
  vlan = vlan_or n.vlan_tag a.vlan;
}

-- What a reference brings by itself: the guest's addresses
bare_attachment : NetworkRef → Attachment
bare_attachment r = record {
  name = r.name;
  network_name = "";
  bridge = "";
  vlan = 0;
  model = "";
  static_ip = r.ip_address;
  prefix = r.prefix;
  gateway = r.gateway;
  dns = r.dns;
  pci_slot_number = none;
}

unfoldable pub attachment_of : NetworkRef → Option NetworkConfig → Attachment
unfolding from_vsphere from_libvirt from_proxmox bare_attachment
attachment_of r config = elim r.network_ref [
  | none ↦ bare_attachment r
  | some _ ↦ elim config [
    | none ↦ bare_attachment r
    | some c ↦
        from_proxmox c.proxmox (from_libvirt c.libvirt (from_vsphere c.vsphere (bare_attachment r)))
  ]
]

-- Each reference with the attachment of its index, while there are any
unfoldable pub attachments : List NetworkRef → List (Option NetworkConfig) → List Attachment
unfolding attachment_of
attachments [] configs = []
attachments (r ∷ rs) [] = attachment_of r none ∷ attachments rs []
attachments (r ∷ rs) (c ∷ configs) = attachment_of r c ∷ attachments rs configs
