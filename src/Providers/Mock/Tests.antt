-- ===== src/Providers/Mock/Tests.antt =====
-- internal/providers/mock/provider.go with one machine that is switched on, and then deleted.
use virtrigaud.Prelude.{◌≡◌, refl, true, false, String, List, [], ◌∷◌, length}
use virtrigaud.Prelude.Dict.{lookup, erase}
use virtrigaud.Providers.Mock.{
  MockProvider, Machine, Draw, power_on, should_fail, replied, delete, task_status, step, power,
  on_machine, add_task, run_job, end_task, powered, job_at, without_job, Event, delete_call,
  power_call, finish, run, new_provider,
}
use virtrigaud.Providers.Mock.Drained.{drain, all_tasks_end}

abbrev demo : Machine
demo = record {
  id = "vm-1";
  name = "demo-vm-1";
  power_state = "Off";
  ips = [];
  console_url = "https://console.example.com/vm/vm-1";
  created = 0;
  last_updated = 0;
  snapshots = [];
}

abbrev with_demo : MockProvider
with_demo = new_provider (("vm-1", 0) ∷ []) (λ at. demo) 1 ""

abbrev draw : Draw
draw = record { now = 7; number = 1; task_number = 2; size = 0 }

healthy : (operation : String) → should_fail with_demo operation ≡ false
unfolding should_fail
healthy operation = refl

-- The same random numbers for both tasks: their IDs collide.
abbrev events : List Event
events = power_call draw "vm-1" power_on ∷ delete_call draw "vm-1" ∷ []

abbrev left : MockProvider
left = run events with_demo

unfailing : should_fail (drain 9 "192.168.1.100" (length left.jobs) left) "task_status" ≡ false
unfolding run step power delete on_machine add_task drain finish run_job end_task powered job_at
    without_job lookup should_fail erase
unfailing = refl

all_tasks_end_example :
    (err : String) × (task_status "task-7-2" (drain 9 "192.168.1.100" (length left.jobs) left)
      ≡ replied (true, err))
all_tasks_end_example =
    all_tasks_end (("vm-1", 0) ∷ []) (λ at. demo) 1 "" events 9 "192.168.1.100" "task-7-2" unfailing
