-- ===== src/Providers/Mock/State.antt =====
-- internal/providers/mock/provider.go: the state of the provider, its helpers and its goroutines.
use virtrigaud.Prelude.{
  ℕ, suc, ◌==◌, Bool, true, false, ◌||◌, String, List, [], ◌∷◌, none, some, str_eq, sprintf,
  decimal, if◌then◌else◌,
}
use virtrigaud.Prelude.Dict.{Dict, lookup, insert, erase}

pub record Snapshot : Type 0 where
  pub id : String
  pub name : String
  pub created_time : ℕ
  pub description : String
  pub size_bytes : ℕ
  pub has_memory : Bool

-- VirtualMachine
pub record Machine : Type 0 where
  pub id : String
  pub name : String
  pub power_state : String
  pub ips : List String
  pub console_url : String
  pub created : ℕ
  pub last_updated : ℕ
  pub snapshots : Dict Snapshot

pub record Task : Type 0 where
  pub id : String
  pub is_done : Bool
  pub error : String
  pub created : ℕ
  pub completed : ℕ

-- The power operations of the protocol, and any other number
pub data PowerOp : Type 0 where
  power_on power_down power_reboot power_graceful power_other : PowerOp

-- A goroutine that has been started: completeTaskAfterDelay, and those of Delete, Power and
-- SnapshotDelete, which hold pointers to the machine and to the task.
pub data Job : Type 0 where
  complete_task : String → Job
  delete_machine : String → ℕ → Job
  set_power : PowerOp → ℕ → ℕ → Job
  delete_snapshot : ℕ → String → ℕ → Job

-- The provider: its two maps, the heaps that they point into with the next free position, and the
-- jobs that have not run yet
pub record MockProvider : Type 0 where
  pub vms : Dict ℕ
  pub tasks : Dict ℕ
  pub machines : ℕ → Machine
  pub works : ℕ → Task
  pub next_machine : ℕ
  pub next_task : ℕ
  pub jobs : List Job
  pub failure_mode : String

abbrev pub write : {A : Type 0} → ℕ → A → (ℕ → A) → ℕ → A
write at a heap i = if i == at then a else heap i

-- The clock and the random numbers of a call
pub record Draw : Type 0 where
  pub now : ℕ
  pub number : ℕ
  pub task_number : ℕ
  pub size : ℕ

-- generateID
abbrev pub generate_id : String → ℕ → ℕ → String
generate_id prefix now number = sprintf (prefix ∷ "-" ∷ decimal now ∷ "-" ∷ decimal number ∷ [])

-- shouldFail
unfoldable pub should_fail : MockProvider → String → Bool
should_fail p operation =
    if str_eq p.failure_mode ""
    then false
    else str_eq p.failure_mode operation || str_eq p.failure_mode "all"

-- `p.vms[id] = vm` for a machine that is new
unfoldable pub add_machine : String → Machine → MockProvider → MockProvider
add_machine id vm p = record p {
  vms = insert id p.next_machine p.vms;
  machines = write p.next_machine vm p.machines;
  next_machine = suc p.next_machine;
}

-- The task of an operation, and the job that ends it, which may hold the task's position
unfoldable pub add_task : Draw → (String → ℕ → Job) → MockProvider → String × MockProvider
add_task r job p =
    let id = generate_id "task" r.now r.task_number in
    (
      id,
      record p {
        tasks = insert id p.next_task p.tasks;
        works =
            write p.next_task
              (record { id = id; is_done = false; error = ""; created = r.now; completed = 0 })
              p.works;
        next_task = suc p.next_task;
        jobs = job id p.next_task ∷ p.jobs;
      },
    )

-- The end of a task, written through its pointer
unfoldable pub end_task : ℕ → ℕ → MockProvider → MockProvider
end_task now at p = record p {
  works = write at (record (p.works at) { is_done = true; completed = now }) p.works;
}

-- What a power operation makes of a machine; `ip` is the address that is drawn for it.
unfoldable pub powered : PowerOp → ℕ → String → Machine → Machine
powered power_on now ip vm = record vm {
  power_state = "On";
  ips = elim vm.ips [ [] ↦ ip ∷ [] | (a ∷ rest) ↦ a ∷ rest ];
  last_updated = now;
}
powered power_down now ip vm = record vm { power_state = "Off"; ips = []; last_updated = now }
powered power_reboot now ip vm = record vm { power_state = "On"; last_updated = now }
powered power_graceful now ip vm = record vm { power_state = "Off"; ips = []; last_updated = now }
powered power_other now ip vm = record vm { power_state = ""; last_updated = now }

-- What a job does when it runs
unfoldable pub run_job : ℕ → String → Job → MockProvider → MockProvider
unfolding end_task powered
run_job now ip (complete_task id) p = elim (lookup id p.tasks) [
  | none ↦ p
  | some at ↦ end_task now at p
]
run_job now ip (delete_machine id task) p = end_task now task (record p { vms = erase id p.vms })
run_job now ip (set_power op vm task) p =
    end_task now task
      (record p { machines = write vm (powered op now ip (p.machines vm)) p.machines })
run_job now ip (delete_snapshot vm snapshot task) p = end_task now task (record p {
  machines =
      write vm (record (p.machines vm) { snapshots = erase snapshot (p.machines vm).snapshots })
        p.machines;
})
