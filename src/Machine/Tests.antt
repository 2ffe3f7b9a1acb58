-- ===== src/Machine/Tests.antt =====
-- The VirtualMachine controller at concrete inputs.
use virtrigaud.Prelude.{
  ◌≡◌, ◌≤◌, ◌*◌, ◌||◌, refl, true, [], ◌∷◌, none, some, str_eq, map, if◌then◌else◌,
}
use virtrigaud.Prelude.Dict.{lookup}
use virtrigaud.K8s.Conditions.{condition_false}
use virtrigaud.Migration.Types.{returned, requeue_after, done, error}
use virtrigaud.Migration.Machines.{missing}
use virtrigaud.Migration.Exporting.{second}
use virtrigaud.Migration.Deletion.{without}
use virtrigaud.Machine.Types.{Machine, Resources}
use virtrigaud.Machine.Env.{MachineEnv, delete_begun, with_condition, write_and_requeue}
use virtrigaud.Machine.Prepare.{
  ensure_image, proceed, trigger_prepare, poll_prepare, advertises_import, source_needs_prepare,
}
use virtrigaud.Machine.Prepare.Laws.{Available, must_prepare, ensure_image-Available}
use virtrigaud.Machine.Prepare.Shared.{KeepsEntry, ensure_image-KeepsEntry}
use virtrigaud.Machine.Prepare.Located.{async_location_used}
use virtrigaud.Machine.Request.Source.{image_of}
use virtrigaud.Machine.Request.Network.{attachments}
use virtrigaud.Machine.Creating.{create_vm}
use virtrigaud.Machine.Resources.{needs_reconfigure, update_current_resources}
use virtrigaud.Machine.Running.{check_existing}
use virtrigaud.Machine.Deletion.{handle_machine_deletion, machine_finalizer, has_force_delete}
use virtrigaud.Machine.Deletion.Laws.{
  deletes, writes_finalizers, is_accepted, deletion_waits_for_provider,
}
use virtrigaud.Machine.Running.Graceful.{Look, Sees, total_shutdowns, count, graceful_off_repeats}
use virtrigaud.Machine.Dependencies.{networks_of}
use virtrigaud.Machine.Reconcile.{
  reconcile_machine, ensure_exists, reconcile_vm, observe_generation,
}
use virtrigaud.Machine.Reconcile.Laws.{
  own_attachment, attachments-own, missing_class_blames_provider,
}
use virtrigaud.Machine.Once.{total_accepted}
use virtrigaud.Machine.Once.Owned.{IsSteady}
use virtrigaud.Machine.Once.History.{create_at_most_once}
use virtrigaud.Machine.Samples.{
  answers, debian, importing_debian, from_url, kvm, fresh_machine, running_machine, described,
  dependencies, networks, bridged, plain_round, import_response,
}

plain_round-IsSteady : IsSteady plain_round.env
plain_round-IsSteady = record { gives_id = λ request r e. cc; keeps = λ id r e. cc }

-- A Create is answered in the first round, and the VM is found in the second.
created_once : total_accepted (plain_round ∷ plain_round ∷ []) fresh_machine ≡ 1
unfolding total_accepted reconcile_machine ensure_exists lookup create_vm update_current_resources
    check_existing needs_reconfigure
created_once = refl

create_at_most_once_example :
    total_accepted (plain_round ∷ plain_round ∷ []) fresh_machine
    ≤ (if str_eq fresh_machine.status.id "" then 1 else 0)
create_at_most_once_example =
    create_at_most_once (plain_round ∷ plain_round ∷ []) fresh_machine
      (plain_round-IsSteady, (plain_round-IsSteady, tt))

ensure_image-Available_example : Available "kvm" (ensure_image answers kvm importing_debian [])
unfolding must_prepare advertises_import source_needs_prepare
ensure_image-Available_example = ensure_image-Available answers kvm importing_debian refl

ensure_image-KeepsEntry_example :
    KeepsEntry "other" importing_debian
      (ensure_image (record answers { latest_image = returned importing_debian }) kvm debian []).2
ensure_image-KeepsEntry_example =
    ensure_image-KeepsEntry (record answers { latest_image = returned importing_debian }) kvm
      "other" importing_debian debian (λ e. cc) refl

-- The path that a task has reported reaches the request.
async_location_used_example :
    let y = record answers {
      latest_image = returned (trigger_prepare answers "kvm" debian []).1;
    } in
    let (e, i', calls) = poll_prepare y "kvm" (trigger_prepare answers "kvm" debian []).1 [] in
    (e ≡ proceed)
    × ((image_of none (some i') "kvm").path ≡ "/pool/debian.qcow2")
    × ((image_of none (some i') "kvm").url ≡ "")
async_location_used_example =
    async_location_used answers
      (record answers { latest_image = returned (trigger_prepare answers "kvm" debian []).1 }) "kvm"
      debian debian import_response from_url refl refl refl refl refl refl refl refl

deletion_waits_for_provider_example :
    let (o, vm', calls) = handle_machine_deletion answers running_machine in
    (deletes "id-1" calls ≡ true)
    × (writes_finalizers calls ≡ (is_accepted answers "id-1" || has_force_delete running_machine))
    × (o ≡ (
        if is_accepted answers "id-1" || has_force_delete running_machine
        then (elim answers.update [ none ↦ done | some err ↦ error err ])
        else requeue_after (15 * second)))
    × (vm' ≡ (
        if is_accepted answers "id-1" || has_force_delete running_machine
        then record running_machine {
          finalizers = without machine_finalizer running_machine.finalizers;
        }
        else running_machine))
deletion_waits_for_provider_example =
    deletion_waits_for_provider answers running_machine kvm refl refl refl refl refl

-- The provider has begun a task that deletes the VM.
abbrev begun_answers : MachineEnv
begun_answers = record answers { delete = λ _. delete_begun "task-9" }

abbrev graceful_machine : Machine
graceful_machine = record running_machine {
  spec = record (running_machine.spec) { power_state = "OffGraceful" };
}

-- The VM is described as off.
abbrev off_look : Look
off_look = record {
  env = record answers { describe = λ _. returned (record described { power_state = "Off" }) };
  dependencies = dependencies;
  response = record described { power_state = "Off" };
  is_stored = true;
}

off_look-Sees : Sees "id-1" off_look
off_look-Sees = record { described = refl; is_there = refl; in_contract = refl }

graceful_off_repeats_example :
    total_shutdowns (off_look ∷ off_look ∷ []) graceful_machine ≡ count (off_look ∷ off_look ∷ [])
graceful_off_repeats_example =
    graceful_off_repeats (off_look ∷ off_look ∷ []) graceful_machine refl
      (off_look-Sees, (off_look-Sees, tt))

attachments-own_example :
    attachments networks (none ∷ some bridged ∷ [])
    ≡ map (own_attachment answers "default") networks
unfolding networks_of
attachments-own_example = attachments-own answers "default" networks (none ∷ some bridged ∷ []) refl

missing_class_blames_provider_example :
    reconcile_vm (record answers { get_class = λ _. missing }) fresh_machine
    ≡ write_and_requeue 30
        (with_condition
          (record answers { get_class = λ _. missing })
          "Ready"
          condition_false
          "WaitingForDependencies"
          "Provider kvm not found"
          (observe_generation fresh_machine))
        []
missing_class_blames_provider_example =
    missing_class_blames_provider (record answers { get_class = λ _. missing }) fresh_machine kvm
      refl refl
