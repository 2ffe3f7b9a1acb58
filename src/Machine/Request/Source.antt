-- ===== src/Machine/Request/Source.antt =====
-- internal/controller/virtualmachine_controller.go, buildCreateRequest: the image or the disk that the
-- VM is made from, and overrideImageWithPreparedLocation.
use virtrigaud.Prelude.{
  not, String, Option, none, some, [], ◌∷◌, str_eq, sprintf, decimal, if◌then◌else◌,
}
use virtrigaud.Prelude.Dict.{lookup}
use virtrigaud.Migration.Machines.{ImportedDisk}
use virtrigaud.Machine.Types.{Image, Prepared, VsphereSource, LibvirtSource, ProxmoxSource}
use virtrigaud.Machine.Request.Contract.{ImageSource}

abbrev pub or_default : String → String → String
or_default text default_text = if str_eq text "" then default_text else text

abbrev no_image : ImageSource
no_image = record {
  template_name = "";
  path = "";
  url = "";
  format = "";
  checksum = "";
  checksum_type = "";
}

-- An imported disk: its own path, or the default path of libvirt.
unfoldable pub imported_image : ImportedDisk → ImageSource
imported_image d = record {
  template_name = "";
  path =
      or_default d.path
        (sprintf ("/var/lib/libvirt/images/" ∷ d.disk_id ∷ "." ∷ or_default d.format "qcow2" ∷ []));
  url = "";
  format = or_default d.format "qcow2";
  checksum = "";
  checksum_type = "sha256";
}

from_vsphere : Option VsphereSource → ImageSource → ImageSource
from_vsphere none image = image
from_vsphere (some s) image = record image {
  template_name = s.template_name;
  url = s.ova_url;
  checksum = or_default s.checksum image.checksum;
  checksum_type = or_default s.checksum_type image.checksum_type;
}

from_libvirt : Option LibvirtSource → ImageSource → ImageSource
from_libvirt none image = image
from_libvirt (some s) image = record image {
  path = s.path;
  url = s.url;
  format = s.format;
  checksum = or_default s.checksum image.checksum;
  checksum_type = or_default s.checksum_type image.checksum_type;
}

from_proxmox : Option ProxmoxSource → ImageSource → ImageSource
from_proxmox none image = image
from_proxmox (some s) image = record image {
  template_name = elim s.template_id [
    | some id ↦ decimal id
    | none ↦ or_default s.template_name image.template_name
  ];
}

-- The image as the VMImage refers to it
unfoldable pub referenced_image : Image → ImageSource
unfolding from_vsphere from_libvirt from_proxmox
referenced_image i = from_proxmox i.proxmox (
    from_libvirt i.libvirt
      (from_vsphere i.vsphere (record no_image { format = "template"; checksum_type = "sha256" })))

-- The first source kind that the VMImage has, with the prepared location put in its place
override_by_kind : Image → Prepared → ImageSource → ImageSource
override_by_kind i p image = elim i.libvirt [
  | some _ ↦ if str_eq p.path "" then image else record image { path = p.path; url = "" }
  | none ↦ elim i.vsphere [
    | some _ ↦ if str_eq p.id "" then image else record image { template_name = p.id; url = "" }
    | none ↦ elim i.proxmox [
      | some _ ↦ if str_eq p.id "" then image else record image { template_name = p.id }
      | none ↦ image
    ]
  ]
]

-- overrideImageWithPreparedLocation: the image as it is left
unfoldable pub override_prepared : Image → String → ImageSource → ImageSource
unfolding override_by_kind
override_prepared i provider_name image = elim (lookup provider_name i.status.provider_status) [
  | none ↦ image
  | some p ↦ if not p.available then image else override_by_kind i p image
]

-- The image of a request: an imported disk comes first; a VM with neither has an empty one.
unfoldable pub image_of : Option ImportedDisk → Option Image → String → ImageSource
unfolding imported_image referenced_image override_prepared
image_of (some d) image provider_name = imported_image d
image_of none none provider_name = no_image
image_of none (some i) provider_name = override_prepared i provider_name (referenced_image i)
