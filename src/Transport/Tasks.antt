-- ===== src/Transport/Tasks.antt =====
-- internal/transport/grpc/client.go: the set of tasks in flight and its gauge. The gauge is pushed
-- after the lock is given up, so the value to push is kept apart from the change of the set.
use virtrigaud.Prelude.{
  ℕ, ◌≡◌, ◌≢◌, refl, ap, ◌∙◌, Bool, false, ◌||◌, not, String, List, [], ◌∷◌, Option, none, some,
  str_eq, contains, length, arith, eq_iff, if◌then◌else◌,
}

pub record Client : Type 0 where
  pub inflight_tasks : List String
  pub gauge : ℕ

-- delete(c.inflightTasks, taskID)
unfoldable pub delete_task : String → List String → List String
delete_task id [] = []
delete_task id (j ∷ js) = if str_eq j id then delete_task id js else j ∷ delete_task id js

-- The part of trackTaskStart under the lock: the new set, and the value to push if there is one. The
-- metrics are there, as in every client that NewClient makes.
unfoldable pub start_locked : String → List String → List String × Option ℕ
start_locked id set =
    if str_eq id "" || contains set id then (set, none) else (id ∷ set, some (length (id ∷ set)))

-- The part of trackTaskDone under the lock.
unfoldable pub done_locked : String → List String → List String × Option ℕ
done_locked id set =
    if str_eq id "" || not (contains set id)
    then (set, none)
    else (delete_task id set, some (length (delete_task id set)))

-- SetInflightTasks
unfoldable pub push : Option ℕ → ℕ → ℕ
push none gauge = gauge
push (some n) gauge = n

-- trackTaskStart and trackTaskDone, when nothing runs between the lock and the push
unfoldable pub track_task_start : String → Client → Client
unfolding start_locked push
track_task_start id c =
    let (set, n) = start_locked id c.inflight_tasks in
    record { inflight_tasks = set; gauge = push n c.gauge }

unfoldable pub track_task_done : String → Client → Client
unfolding done_locked push
track_task_done id c =
    let (set, n) = done_locked id c.inflight_tasks in
    record { inflight_tasks = set; gauge = push n c.gauge }

-- The calls that a client makes of the two.
pub data Event : Type 0 where
  task_started task_done : String → Event

pub step : Event → Client → Client
unfolding track_task_start track_task_done
step (task_started id) c = track_task_start id c
step (task_done id) c = track_task_done id c

pub run : List Event → Client → Client
run [] c = c
run (e ∷ es) c = run es (step e c)

-- No task stands twice in the set.
abbrev Distinct : List String → Type 0
Distinct [] = Unit
Distinct (t ∷ ts) = (contains ts t ≡ false) × Distinct ts

pub record IsCounted (c : Client) : Type 0 where
  pub distinct : Distinct c.inflight_tasks
  pub counted : c.gauge ≡ length c.inflight_tasks

contains-delete :
    (id j : String) (set : List String)
    → contains (delete_task id set) j ≡ (if str_eq id j then false else contains set j)
unfolding delete_task
contains-delete id j [] = ground arith
contains-delete id j (i ∷ set) =
    ground (arith, eq_iff i id, eq_iff i j, eq_iff id j, contains-delete id j set)

delete-Distinct : (id : String) (set : List String) → Distinct set → Distinct (delete_task id set)
unfolding delete_task
delete-Distinct id [] d = tt
delete-Distinct id (i ∷ set) d =
    ground (arith, eq_iff id i, eq_iff i id, contains-delete id i set, delete-Distinct id set d.1)

step-IsCounted : (e : Event) (c : Client) → IsCounted c → IsCounted (step e c)
unfolding step
step-IsCounted (task_started id) c v = ground (arith, v.distinct)
step-IsCounted (task_done id) c v = ground (arith, delete-Distinct id c.inflight_tasks v.distinct)

-- The gauge shows the number of distinct tasks in the set after every sequence of starts and ends,
-- repeated ones, unknown ones and empty IDs included, when each push follows its change at once.
pub run-IsCounted : (es : List Event) (c : Client) → IsCounted c → IsCounted (run es c)
unfolding run
run-IsCounted [] c v = v
run-IsCounted (e ∷ es) c v = run-IsCounted es (step e c) (step-IsCounted e c v)

-- Whether a task counts as running: by the last event that names it.
pub tracked : String → List Event → Bool → Bool
tracked id [] before = before
tracked id (task_started j ∷ es) before = tracked id es (str_eq j id || before)
tracked id (task_done j ∷ es) before = tracked id es (if str_eq j id then false else before)

contains-step_started :
    (id j : String) (c : Client)
    → id ≢ ""
    → contains (step (task_started j) c).inflight_tasks id
      ≡ (str_eq j id || contains c.inflight_tasks id)
unfolding step
contains-step_started id j c h = ground (arith, eq_iff j "", eq_iff j id)

contains-step_done :
    (id j : String) (c : Client)
    → id ≢ ""
    → contains (step (task_done j) c).inflight_tasks id
      ≡ (if str_eq j id then false else contains c.inflight_tasks id)
unfolding step
contains-step_done id j c h =
    ground (arith, eq_iff j "", eq_iff j id, contains-delete j id c.inflight_tasks)

-- The set holds exactly the tasks whose last event is a start: for every ID that is not empty, after
-- every sequence of events.
pub contains-run :
    (id : String) (es : List Event) (c : Client)
    → id ≢ ""
    → contains (run es c).inflight_tasks id ≡ tracked id es (contains c.inflight_tasks id)
unfolding run tracked
contains-run id [] c h = refl
contains-run id (task_started j ∷ es) c h =
    contains-run id es (step (task_started j) c) h
    ∙ ap (tracked id es) (contains-step_started id j c h)
contains-run id (task_done j ∷ es) c h =
    contains-run id es (step (task_done j) c) h ∙ ap (tracked id es) (contains-step_done id j c h)

-- Two tasks that are started at once, on a client with no task, leave the gauge at 1 with two tasks in
-- the set, when the second to change the set is the first to push.
pub gauge_race :
    (a b : String)
    → a ≢ ""
    → b ≢ ""
    → a ≢ b
    → let (set, n) = start_locked a [] in
      let (set', n') = start_locked b set in (length set' ≡ 2) × (push n (push n' 0) ≡ 1)
unfolding start_locked push
gauge_race a b h k n = ground (arith, eq_iff a "", eq_iff b "", eq_iff a b)
