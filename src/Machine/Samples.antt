-- ===== src/Machine/Samples.antt =====
-- Inputs for the tests of the VirtualMachine controller: a libvirt provider that imports images, an image
-- with a URL, a VM made from it, and an API server that has them all.
use virtrigaud.Prelude.{List, [], ◌∷◌, none, some, true, false}
use virtrigaud.Migration.Types.{returned, refused}
use virtrigaud.Migration.Machines.{found}
use virtrigaud.Machine.Types.{
  Machine, MachineSpec, MachineStatus, MachineClass, Image, ImageStatus, LibvirtSource, NetworkRef,
  NetworkConfig,
}
use virtrigaud.Machine.Env.{delete_begun, MachineEnv, Host}
use virtrigaud.Machine.Dependencies.{Dependencies}
use virtrigaud.Machine.Deletion.{machine_finalizer}
use virtrigaud.Machine.Once.{Round}
use virtrigaud.Machine.Request.Contract.{DescribeResponse, PrepareResponse}

abbrev pub small : MachineClass
small = record {
  cpu = 2;
  memory = 4294967296;
  firmware = "UEFI";
  disk_defaults = none;
  guest_tools_policy = "install";
  extra_config = [];
  resource_limits = none;
  performance_profile = none;
  security_profile = none;
}

abbrev pub from_url : LibvirtSource
from_url = record {
  path = "";
  url = "https://images/a.qcow2";
  format = "qcow2";
  checksum = "";
  checksum_type = "";
}

abbrev pub unprepared : ImageStatus
unprepared = record {
  ready = false;
  phase = "";
  message = "";
  available_on = [];
  provider_status = [];
  prepare_task_ref = "";
  last_prepare_time = none;
  conditions = [];
}

abbrev pub debian : Image
debian = record {
  name = "debian";
  namespace = "default";
  generation = 1;
  vsphere = none;
  libvirt = some from_url;
  proxmox = none;
  on_missing = none;
  status = unprepared;
}

-- The image while another provider imports it
abbrev pub importing_debian : Image
importing_debian = record debian { status = record unprepared { prepare_task_ref = "task-7" } }

abbrev pub kvm : Host
kvm = record { name = "kvm"; image_import = some true }

abbrev pub bridged : NetworkConfig
bridged = record {
  vsphere = none;
  libvirt = some (record { network_name = "lan"; bridge = some "br0"; model = "virtio" });
  proxmox = none;
}

abbrev pub networks : List NetworkRef
networks =
    record {
      name = "mgmt";
      network_ref = none;
      ip_address = "10.0.0.2";
      prefix = 24;
      gateway = "";
      dns = "";
    }
    ∷ record {
      name = "lan";
      network_ref = some (record { name = "lan"; namespace = "" });
      ip_address = "";
      prefix = 0;
      gateway = "";
      dns = "";
    }
    ∷ []

abbrev pub plain_spec : MachineSpec
plain_spec = record {
  provider_ref = record { name = "kvm"; namespace = "" };
  class_ref = record { name = "small"; namespace = "" };
  image_ref = some (record { name = "debian"; namespace = "" });
  imported_disk = none;
  networks = networks;
  disks = [];
  user_data = none;
  meta_data = none;
  placement = none;
  power_state = "";
  tags = [];
  resources = none;
  placement_ref = none;
}

abbrev pub new_status : MachineStatus
new_status = record {
  id = "";
  power_state = "";
  ips = [];
  console_url = "";
  provider = [];
  conditions = [];
  observed_generation = 0;
  last_task_ref = "";
  reconfigure_task_ref = "";
  last_reconfigure_time = none;
  current_resources = none;
  phase = "";
}

abbrev pub fresh_machine : Machine
fresh_machine = record {
  name = "vm1";
  namespace = "default";
  generation = 1;
  deletion_timestamp = none;
  finalizers = machine_finalizer ∷ [];
  labels = [];
  annotations = [];
  spec = plain_spec;
  status = new_status;
}

abbrev pub running_machine : Machine
running_machine = record fresh_machine { status = record new_status { id = "id-1" } }

abbrev pub described : DescribeResponse
described = record {
  is_there = true;
  power_state = "On";
  ips = "10.0.0.2" ∷ [];
  console_url = "";
  provider_raw = [];
}

abbrev pub import_response : PrepareResponse
import_response = record {
  task_ref = "task-7";
  prepared_image_id = "";
  prepared_image_path = "/pool/debian.qcow2";
}

-- The conditions of images are set by a function that keeps them as they are.
abbrev pub answers : MachineEnv
answers = record {
  now = 5;
  get_provider = λ _. found kvm;
  get_class = λ _. found small;
  get_image = λ _. found debian;
  get_network = λ _. found bridged;
  get_secret = λ _. refused "forbidden";
  resolve = λ _. none;
  implements_prepare = true;
  image_json = none;
  prepare = λ _. returned import_response;
  latest_image = returned debian;
  set_status_condition = λ _ _ _ _ _ conditions. conditions;
  is_task_complete = λ _. returned true;
  create = λ _. returned (record { id = "id-1"; task_ref = "" });
  describe = λ _. returned described;
  power = λ _ _. returned "";
  reconfigure = λ _ _. returned "";
  delete = λ _. delete_begun "";
  update = none;
}

abbrev pub dependencies : Dependencies
dependencies = record {
  provider = kvm;
  class = small;
  image = some debian;
  networks = none ∷ some bridged ∷ [];
}

-- A reconcile of the VM as it was made
abbrev pub plain_round : Round
plain_round = record {
  env = record answers { implements_prepare = false };
  spec = plain_spec;
  generation = 1;
  labels = [];
  annotations = [];
  deletion_timestamp = none;
}
