-- ===== src/Providers/Mock/Drained.antt =====
-- internal/providers/mock/provider.go: the life of the provider, and that every task comes to its end.
use virtrigaud.Prelude.{
  ℕ, zero, suc, ◌≡◌, refl, inl, inr, Bool, true, false, String, List, [], ◌∷◌, none, arith, eq_refl,
  Option-cases, Bool-cases, length,
}
use virtrigaud.Prelude.Dict.{Dict, lookup}
use virtrigaud.Providers.Mock.{
  MockProvider, Machine, Job, complete_task, Draw, should_fail, add_machine, replied, on_machine,
  delete, power, reconfigure, make_machine, create_machine, clone, image_prepare, add_snapshot,
  snapshot_create, on_snapshot, snapshot_delete, snapshot_revert, task_status, Event, create_call,
  delete_call, power_call, reconfigure_call, snapshot_create_call, snapshot_delete_call,
  snapshot_revert_call, clone_call, image_prepare_call, job_runs, job_at, without_job, finish, step,
  run, new_provider,
}
use virtrigaud.Providers.Mock.Laws.{
  run_frame, some_ends, IsValid, EndsOwn, add_task-IsValid, other_parts-IsValid, finish-IsValid,
}

completes-EndsOwn : EndsOwn (λ id at. complete_task id)
completes-EndsOwn id at = eq_refl id

on_machine-IsValid :
    (operation what id : String) (r : Draw) (job : ℕ → String → ℕ → Job) (p : MockProvider)
    → ((vm : ℕ) → EndsOwn (job vm))
    → IsValid p
    → IsValid (on_machine operation what id r job p).1
unfolding on_machine
on_machine-IsValid operation what id r job p own v = elim (Bool-cases (should_fail p operation)) [
  | inl f ↦ rw (on_machine, f) v
  | inr f ↦ (elim (Option-cases (lookup id p.vms)) [
    | inl n ↦ rw (on_machine, f, n) v
    | inr (vm, n) ↦ rw (on_machine, f, n) (add_task-IsValid r (job vm) p (own vm) v)
  ])
]

on_snapshot-IsValid :
    (operation id snapshot : String) (r : Draw) (job : ℕ → String → ℕ → Job) (p : MockProvider)
    → ((vm : ℕ) → EndsOwn (job vm))
    → IsValid p
    → IsValid (on_snapshot operation id snapshot r job p).1
unfolding on_snapshot
on_snapshot-IsValid operation id snapshot r job p own v =
    elim (Bool-cases (should_fail p operation)) [
      | inl f ↦ rw (on_snapshot, f) v
      | inr f ↦ (elim (Option-cases (lookup id p.vms)) [
        | inl n ↦ rw (on_snapshot, f, n) v
        | inr (vm, n) ↦ (elim (Option-cases (lookup snapshot (p.machines vm).snapshots)) [
          | inl s ↦ rw (on_snapshot, f, n, s) v
          | inr (x, s) ↦ rw (on_snapshot, f, n, s) (add_task-IsValid r (job vm) p (own vm) v)
        ])
      ])
    ]

make_machine-IsValid :
    (r : Draw) (name : String) (p : MockProvider) → IsValid p → IsValid (make_machine r name p).1
unfolding make_machine add_machine
make_machine-IsValid r name p v =
    add_task-IsValid r (λ t at. complete_task t) _ completes-EndsOwn
      (other_parts-IsValid p _ refl refl refl refl v)

create-IsValid :
    (r : Draw) (name : String) (p : MockProvider) → IsValid p → IsValid (create_machine r name p).1
unfolding create_machine
create-IsValid r name p v = elim (Bool-cases (should_fail p "create")) [
  | inl f ↦ rw (create_machine, f) v
  | inr f ↦ rw (create_machine, f) (make_machine-IsValid r name p v)
]

clone-IsValid :
    (r : Draw) (source name : String) (p : MockProvider)
    → IsValid p
    → IsValid (clone r source name p).1
unfolding clone
clone-IsValid r source name p v = elim (Bool-cases (should_fail p "clone")) [
  | inl f ↦ rw (clone, f) v
  | inr f ↦ (elim (Option-cases (lookup source p.vms)) [
    | inl n ↦ rw (clone, f, n) v
    | inr (vm, n) ↦ rw (clone, f, n) (make_machine-IsValid r name p v)
  ])
]

image_prepare-IsValid :
    (r : Draw) (target : String) (p : MockProvider)
    → IsValid p
    → IsValid (image_prepare r target p).1
unfolding image_prepare
image_prepare-IsValid r target p v = elim (Bool-cases (should_fail p "image_prepare")) [
  | inl f ↦ rw (image_prepare, f) v
  | inr f ↦
      rw (image_prepare, f) (add_task-IsValid r (λ t at. complete_task t) p completes-EndsOwn v)
]

snapshot_create-IsValid :
    (r : Draw) (id name description : String) (memory : Bool) (p : MockProvider)
    → IsValid p
    → IsValid (snapshot_create r id name description memory p).1
unfolding snapshot_create add_snapshot
snapshot_create-IsValid r id name description memory p v =
    elim (Bool-cases (should_fail p "snapshot_create")) [
      | inl f ↦ rw (snapshot_create, f) v
      | inr f ↦ (elim (Option-cases (lookup id p.vms)) [
        | inl n ↦ rw (snapshot_create, f, n) v
        | inr (vm, n) ↦
            rw (snapshot_create, f, n)
              (add_task-IsValid r (λ t at. complete_task t) _ completes-EndsOwn
                (other_parts-IsValid p _ refl refl refl refl v))
      ])
    ]

step-IsValid : (e : Event) (p : MockProvider) → IsValid p → IsValid (step e p)
unfolding step delete power reconfigure snapshot_delete snapshot_revert
step-IsValid (create_call r name) p v = create-IsValid r name p v
step-IsValid (delete_call r id) p v =
    on_machine-IsValid "delete" "delete" id r _ p (λ vm task at. ground arith) v
step-IsValid (power_call r id op) p v =
    on_machine-IsValid "power" "power" id r _ p (λ vm task at. ground arith) v
step-IsValid (reconfigure_call r id) p v =
    on_machine-IsValid "reconfigure" "reconfigure" id r _ p (λ vm. completes-EndsOwn) v
step-IsValid (snapshot_create_call r id name description memory) p v =
    snapshot_create-IsValid r id name description memory p v
step-IsValid (snapshot_delete_call r id snapshot) p v =
    on_snapshot-IsValid "snapshot_delete" id snapshot r _ p (λ vm task at. ground arith) v
step-IsValid (snapshot_revert_call r id snapshot) p v =
    on_snapshot-IsValid "snapshot_revert" id snapshot r _ p (λ vm. completes-EndsOwn) v
step-IsValid (clone_call r source name) p v = clone-IsValid r source name p v
step-IsValid (image_prepare_call r target) p v = image_prepare-IsValid r target p v
step-IsValid (job_runs now ip n) p v = finish-IsValid now ip n p v

run-IsValid : (es : List Event) (p : MockProvider) → IsValid p → IsValid (run es p)
unfolding run
run-IsValid [] p v = v
run-IsValid (e ∷ es) p v = run-IsValid es (step e p) (step-IsValid e p v)

new_provider-IsValid :
    (vms : Dict ℕ) (machines : ℕ → Machine) (next : ℕ) (mode : String)
    → IsValid (new_provider vms machines next mode)
unfolding lookup
new_provider-IsValid vms machines next mode = record {
  within = λ id at h. ground arith;
  ending = λ id at h. ground arith;
}

-- The jobs run one after the other.
unfoldable pub drain : ℕ → String → ℕ → MockProvider → MockProvider
drain now ip zero p = p
drain now ip (suc n) p = drain now ip n (finish now ip 0 p)

drain-IsValid :
    (now : ℕ) (ip : String) (n : ℕ) (p : MockProvider) → IsValid p → IsValid (drain now ip n p)
unfolding drain
drain-IsValid now ip zero p v = v
drain-IsValid now ip (suc n) p v =
    drain-IsValid now ip n (finish now ip 0 p) (finish-IsValid now ip 0 p v)

finish_jobs :
    (now : ℕ) (ip : String) (p : MockProvider) → (finish now ip 0 p).jobs ≡ without_job 0 p.jobs
unfolding finish job_at without_job
finish_jobs now ip p = elim (Option-cases (job_at 0 p.jobs)) [
  | inl n ↦ rw (finish, n) (no_job p.jobs n)
  | inr (j, n) ↦ rw (finish, n) (run_frame now ip j (record p { jobs = without_job 0 p.jobs })).2
]
  where
    no_job : (js : List Job) → job_at 0 js ≡ none → js ≡ without_job 0 js
    no_job [] n = refl
    no_job (j ∷ js) n = ground arith

drained :
    (now : ℕ) (ip : String) (n : ℕ) (p : MockProvider)
    → length p.jobs ≡ n
    → (drain now ip n p).jobs ≡ []
unfolding drain without_job
drained now ip zero p l = no_jobs p.jobs l
  where
    no_jobs : (js : List Job) → length js ≡ 0 → js ≡ []
    no_jobs [] l = refl
    no_jobs (j ∷ js) l = ground arith
drained now ip (suc n) p l =
    drained now ip n (finish now ip 0 p) (rw (finish_jobs now ip p) (shorter p.jobs l))
  where
    shorter : (js : List Job) → length js ≡ suc n → length (without_job 0 js) ≡ n
    shorter [] l = ground arith
    shorter (j ∷ js) l = ground arith

ends_of :
    (q : MockProvider)
    → IsValid q
    → q.jobs ≡ []
    → (id : String) → should_fail q "task_status" ≡ false
    → (err : String) × (task_status id q ≡ replied (true, err))
unfolding task_status
ends_of q v j id f = elim (Option-cases (lookup id q.tasks)) [
  | inl n ↦ ("task not found", rw (task_status, f, n) refl)
  | inr (at, n) ↦ (
    (q.works at).error,
    elim (v.ending id at n) [
      | inl d ↦ rw (task_status, f, n, d) refl
      | inr s ↦ (let clash : some_ends id at [] ≡ true = rw j at s in ground arith)
    ],
  )
]

-- Every task comes to its end. After any calls of a new provider, in any order with the goroutines that
-- they start, even when generated IDs collide: once the goroutines that are left have run, TaskStatus,
-- unless it is configured to fail, reports every task as done.
pub all_tasks_end :
    (vms : Dict ℕ) (machines : ℕ → Machine) (next : ℕ) (mode : String) (es : List Event) (now : ℕ)
    (ip id : String)
    → let p = run es (new_provider vms machines next mode) in
      let q = drain now ip (length p.jobs) p in
      should_fail q "task_status" ≡ false
      → (err : String) × (task_status id q ≡ replied (true, err))
all_tasks_end vms machines next mode es now ip id =
    let p = run es (new_provider vms machines next mode) in
    let q = drain now ip (length p.jobs) p in
    let v = drain-IsValid now ip (length p.jobs) p (
      run-IsValid es (new_provider vms machines next mode)
        (new_provider-IsValid vms machines next mode)) in
    ends_of q v (drained now ip (length p.jobs) p refl) id
