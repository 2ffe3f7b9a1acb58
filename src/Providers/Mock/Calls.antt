-- ===== src/Providers/Mock/Calls.antt =====
-- internal/providers/mock/provider.go: the calls that change the state, Describe and TaskStatus. What
-- sdk/provider/errors makes of a failed call is its kind with its text.
use virtrigaud.Prelude.{
  ℕ, zero, suc, Bool, true, false, String, List, [], ◌∷◌, Option, none, some, sprintf,
  if◌then◌else◌,
}
use virtrigaud.Prelude.Dict.{Dict, lookup, insert}
use virtrigaud.Providers.Mock.State.{
  Snapshot, Machine, PowerOp, Job, complete_task, delete_machine, set_power, delete_snapshot,
  MockProvider, write, Draw, generate_id, should_fail, add_machine, add_task, run_job,
}

-- The response of a call, NewInternal with its message, or NewNotFound of a kind of object and its ID
pub data Reply (A : Type 0) : Type 0 where
  replied : A → Reply A
  internal_error : String → Reply A
  not_found : String → String → Reply A

abbrev pub fails : {A : Type 0} → String → MockProvider → Reply A × MockProvider
fails what p =
    (internal_error (sprintf ("mock provider configured to fail " ∷ what ∷ " operations" ∷ [])), p)

-- An operation on a machine that exists, which starts a task
unfoldable pub on_machine :
    String
    → String
    → String
    → Draw
    → (ℕ → String → ℕ → Job)
    → MockProvider
    → Reply String × MockProvider
on_machine operation what id r job p =
    if should_fail p operation then fails what p else (elim (lookup id p.vms) [
      | none ↦ (not_found "VirtualMachine" id, p)
      | some vm ↦ let (task, p') = add_task r (job vm) p in (replied task, p')
    ])

-- Delete, Power and Reconfigure, with the ID of the task in the response
unfoldable pub delete : Draw → String → MockProvider → Reply String × MockProvider
unfolding on_machine
delete r id p = on_machine "delete" "delete" id r (λ vm task at. delete_machine id at) p

unfoldable pub power : Draw → String → PowerOp → MockProvider → Reply String × MockProvider
unfolding on_machine
power r id op p = on_machine "power" "power" id r (λ vm task at. set_power op vm at) p

unfoldable pub reconfigure : Draw → String → MockProvider → Reply String × MockProvider
unfolding on_machine
reconfigure r id p =
    on_machine "reconfigure" "reconfigure" id r (λ vm task at. complete_task task) p

-- A machine as Create and Clone make it
unfoldable pub new_machine : String → String → ℕ → Machine
new_machine id name now = record {
  id = id;
  name = name;
  power_state = "Off";
  ips = [];
  console_url = sprintf ("https://console.example.com/vm/" ∷ id ∷ []);
  created = now;
  last_updated = now;
  snapshots = [];
}

-- The machine with its task; the response is the two IDs.
unfoldable pub make_machine : Draw → String → MockProvider → (String × String) × MockProvider
unfolding new_machine
make_machine r name p =
    let id = generate_id "vm" r.now r.number in
    let (task, p') =
      add_task r (λ t at. complete_task t) (add_machine id (new_machine id name r.now) p) in
    ((id, task), p')

-- Create
unfoldable pub create_machine :
    Draw → String → MockProvider → Reply (String × String) × MockProvider
unfolding make_machine
create_machine r name p =
    if should_fail p "create"
    then fails "create" p
    else (let (ids, p') = make_machine r name p in (replied ids, p'))

-- Clone
unfoldable pub clone :
    Draw → String → String → MockProvider → Reply (String × String) × MockProvider
unfolding make_machine
clone r source name p =
    if should_fail p "clone" then fails "clone" p else (elim (lookup source p.vms) [
      | none ↦ (not_found "VirtualMachine" source, p)
      | some vm ↦ let (ids, p') = make_machine r name p in (replied ids, p')
    ])

-- ImagePrepare: the task, and the prepared image's ID and path
unfoldable pub image_prepare :
    Draw → String → MockProvider → Reply (String × String × String) × MockProvider
image_prepare r target p =
    if should_fail p "image_prepare"
    then fails "image" p
    else (let (task, p') = add_task r (λ t at. complete_task t) p in
        (
          replied (task, target, sprintf ("/var/lib/virtrigaud/mock/" ∷ target ∷ ".qcow2" ∷ [])),
          p',
        ))

-- The snapshot is in the machine's map before its task has ended.
unfoldable pub add_snapshot : ℕ → Snapshot → MockProvider → MockProvider
add_snapshot vm s p = record p {
  machines =
      write vm (record (p.machines vm) { snapshots = insert s.id s (p.machines vm).snapshots })
        p.machines;
}

-- SnapshotCreate: the IDs of the snapshot and of its task
unfoldable pub snapshot_create :
    Draw → String → String → String → Bool → MockProvider → Reply (String × String) × MockProvider
unfolding add_snapshot
snapshot_create r id name description memory p =
    let snapshot = generate_id "snap" r.now r.number in
    if should_fail p "snapshot_create" then fails "snapshot" p else (elim (lookup id p.vms) [
      | none ↦ (not_found "VirtualMachine" id, p)
      | some vm ↦
          let (task, p') =
            add_task r (λ t at. complete_task t)
              (add_snapshot vm
                (record {
                  id = snapshot;
                  name = name;
                  created_time = r.now;
                  description = description;
                  size_bytes = r.size;
                  has_memory = memory;
                })
                p) in
          (replied (snapshot, task), p')
    ])

-- An operation on a snapshot that exists
unfoldable pub on_snapshot :
    String
    → String
    → String
    → Draw
    → (ℕ → String → ℕ → Job)
    → MockProvider
    → Reply String × MockProvider
on_snapshot operation id snapshot r job p =
    if should_fail p operation then fails "snapshot" p else (elim (lookup id p.vms) [
      | none ↦ (not_found "VirtualMachine" id, p)
      | some vm ↦ (elim (lookup snapshot (p.machines vm).snapshots) [
        | none ↦ (not_found "Snapshot" snapshot, p)
        | some s ↦ let (task, p') = add_task r (job vm) p in (replied task, p')
      ])
    ])

-- SnapshotDelete and SnapshotRevert
unfoldable pub snapshot_delete : Draw → String → String → MockProvider → Reply String × MockProvider
unfolding on_snapshot
snapshot_delete r id snapshot p =
    on_snapshot "snapshot_delete" id snapshot r (λ vm task at. delete_snapshot vm snapshot at) p

unfoldable pub snapshot_revert : Draw → String → String → MockProvider → Reply String × MockProvider
unfolding on_snapshot
snapshot_revert r id snapshot p =
    on_snapshot "snapshot_revert" id snapshot r (λ vm task at. complete_task task) p

-- Describe: the machine, if it exists
unfoldable pub describe : String → MockProvider → Reply (Option Machine)
describe id p =
    if should_fail p "describe"
    then internal_error "mock provider configured to fail describe operations"
    else (elim (lookup id p.vms) [ none ↦ replied none | some vm ↦ replied (some (p.machines vm)) ])

-- TaskStatus: whether the task is done, and its error
unfoldable pub task_status : String → MockProvider → Reply (Bool × String)
task_status id p =
    if should_fail p "task_status"
    then internal_error "mock provider configured to fail task status operations"
    else (elim (lookup id p.tasks) [
      | none ↦ replied (true, "task not found")
      | some at ↦ replied ((p.works at).is_done, (p.works at).error)
    ])

-- The calls that change the state, and a job that runs: the one at the position, if there is one
pub data Event : Type 0 where
  create_call : Draw → String → Event
  delete_call : Draw → String → Event
  power_call : Draw → String → PowerOp → Event
  reconfigure_call : Draw → String → Event
  snapshot_create_call : Draw → String → String → String → Bool → Event
  snapshot_delete_call snapshot_revert_call : Draw → String → String → Event
  clone_call : Draw → String → String → Event
  image_prepare_call : Draw → String → Event
  job_runs : ℕ → String → ℕ → Event

unfoldable pub job_at : ℕ → List Job → Option Job
job_at n [] = none
job_at zero (j ∷ js) = some j
job_at (suc n) (j ∷ js) = job_at n js

unfoldable pub without_job : ℕ → List Job → List Job
without_job n [] = []
without_job zero (j ∷ js) = js
without_job (suc n) (j ∷ js) = j ∷ without_job n js

unfoldable pub finish : ℕ → String → ℕ → MockProvider → MockProvider
unfolding run_job
finish now ip n p = elim (job_at n p.jobs) [
  | none ↦ p
  | some j ↦ run_job now ip j (record p { jobs = without_job n p.jobs })
]

unfoldable pub step : Event → MockProvider → MockProvider
step (create_call r name) p = (create_machine r name p).1
step (delete_call r id) p = (delete r id p).1
step (power_call r id op) p = (power r id op p).1
step (reconfigure_call r id) p = (reconfigure r id p).1
step (snapshot_create_call r id name description memory) p =
    (snapshot_create r id name description memory p).1
step (snapshot_delete_call r id snapshot) p = (snapshot_delete r id snapshot p).1
step (snapshot_revert_call r id snapshot) p = (snapshot_revert r id snapshot p).1
step (clone_call r source name) p = (clone r source name p).1
step (image_prepare_call r target) p = (image_prepare r target p).1
step (job_runs now ip n) p = finish now ip n p

unfoldable pub run : List Event → MockProvider → MockProvider
run [] p = p
run (e ∷ es) p = run es (step e p)

-- NewProvider: no tasks and no jobs. The machines that it starts with are an argument, in the map and
-- in the heap.
abbrev pub new_provider : Dict ℕ → (ℕ → Machine) → ℕ → String → MockProvider
new_provider vms machines next failure_mode = record {
  vms = vms;
  tasks = [];
  machines = machines;
  works = λ at. record { id = ""; is_done = false; error = ""; created = 0; completed = 0 };
  next_machine = next;
  next_task = 0;
  jobs = [];
  failure_mode = failure_mode;
}
