-- ===== src/Machine/Creating.antt =====
-- internal/controller/virtualmachine_controller.go: buildCreateRequest and createVM.
use virtrigaud.Prelude.{String, List, [], ◌∷◌, Option, none, some, str_eq, sprintf, if◌then◌else◌}
use virtrigaud.Prelude.Dict.{Dict}
use virtrigaud.K8s.Conditions.{condition_true, condition_false}
use virtrigaud.Migration.Types.{error, Answer, returned, refused}
use virtrigaud.Machine.Types.{Machine}
use virtrigaud.Machine.Env.{
  MachineEnv, Call, call_create, write_status, Handled, with_condition, write_and_requeue,
}
use virtrigaud.Machine.Dependencies.{Dependencies}
use virtrigaud.Machine.Resources.{update_current_resources}
use virtrigaud.Machine.Request.Contract.{CreateRequest, CreateResponse}
use virtrigaud.Machine.Request.Class.{class_of}
use virtrigaud.Machine.Request.Source.{image_of}
use virtrigaud.Machine.Request.Network.{attachments}
use virtrigaud.Machine.Request.CloudInit.{resolve_user_data, resolve_meta_data}

secret_of : MachineEnv → Machine → String → Answer (Dict String)
secret_of x vm secret_name = x.get_secret (record { name = secret_name; namespace = vm.namespace })

-- The cloud-init text, empty without one
user_data_text : MachineEnv → Machine → Answer String
unfolding secret_of
user_data_text x vm = elim vm.spec.user_data [
  | none ↦ returned ""
  | some c ↦ resolve_user_data (secret_of x vm) c
]

meta_data_text : MachineEnv → Machine → Answer String
unfolding secret_of
meta_data_text x vm = elim vm.spec.meta_data [
  | none ↦ returned ""
  | some c ↦ resolve_meta_data (secret_of x vm) c
]

request_with : Machine → Dependencies → String → String → CreateRequest
request_with vm d user_text meta_text = record {
  name = vm.name;
  class = class_of d.class;
  image = image_of vm.spec.imported_disk d.image d.provider.name;
  networks = attachments vm.spec.networks d.networks;
  disks = vm.spec.disks;
  user_data =
      if str_eq user_text ""
      then none
      else some (record { type = "cloud-init"; cloud_init_data = user_text });
  meta_data = if str_eq meta_text "" then none else some meta_text;
  placement = vm.spec.placement;
  tags = vm.spec.tags;
}

-- buildCreateRequest
unfoldable pub build_create_request : MachineEnv → Machine → Dependencies → Answer CreateRequest
unfolding user_data_text meta_data_text request_with
build_create_request x vm d = elim (user_data_text x vm) [
  | refused err ↦ refused (sprintf ("resolving cloud-init user data: " ∷ err ∷ []))
  | returned user_text ↦ elim (meta_data_text x vm) [
    | refused err ↦ refused (sprintf ("resolving cloud-init metadata: " ∷ err ∷ []))
    | returned meta_text ↦ returned (request_with vm d user_text meta_text)
  ]
]

-- A specification with neither an image nor a disk, or with both
unfoldable pub invalid_spec : Machine → Option String
invalid_spec vm = elim vm.spec.image_ref [
  | none ↦ elim vm.spec.imported_disk [
    | none ↦ some "either imageRef or importedDisk must be specified"
    | some _ ↦ none
  ]
  | some _ ↦ elim vm.spec.imported_disk [
    | none ↦ none
    | some _ ↦ some "imageRef and importedDisk are mutually exclusive"
  ]
]

abbrev provisioning_error : MachineEnv → String → Machine → Machine
provisioning_error x message vm =
    with_condition x "Provisioning" condition_false "ProviderError" message vm

-- The VM that the provider has created, or is about to
unfoldable pub created_vm : MachineEnv → Dependencies → CreateResponse → Machine → Machine
created_vm x d r vm =
    let identified = record vm { status = record (vm.status) { id = r.id } } in
    let tracked = update_current_resources identified d.class in
    if str_eq r.task_ref ""
    then with_condition x "Provisioning" condition_false "ReconcileSuccess" "VM created" tracked
    else with_condition x "Provisioning" condition_true "Creating" "VM creation initiated"
        (record tracked { status = record (tracked.status) { last_task_ref = r.task_ref } })

unfoldable pub send_create :
    MachineEnv → Dependencies → Machine → CreateRequest → List Call → Handled
unfolding created_vm
send_create x d vm request calls =
    let called = call_create request ∷ calls in
    elim (x.create request) [
      | refused err ↦
          write_and_requeue 5
            (provisioning_error x (sprintf ("Failed to create VM: " ∷ err ∷ [])) vm) called
      | returned r ↦ write_and_requeue 5 (created_vm x d r vm) called
    ]

-- createVM
unfoldable pub create_vm : MachineEnv → Dependencies → Machine → List Call → Handled
unfolding invalid_spec build_create_request send_create
create_vm x d vm calls = elim (invalid_spec vm) [
  | some err ↦
      let vm' = provisioning_error x err vm in (error err, vm', write_status vm'.status ∷ calls)
  | none ↦ elim (build_create_request x vm d) [
    | refused err ↦
        write_and_requeue 5
          (provisioning_error x (sprintf ("Failed to build create request: " ∷ err ∷ [])) vm) calls
    | returned request ↦ send_create x d vm request calls
  ]
]
