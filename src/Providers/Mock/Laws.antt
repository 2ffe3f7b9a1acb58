-- ===== src/Providers/Mock/Laws.antt =====
-- internal/providers/mock/provider.go: every task that is not done has a goroutine that will end it.
use virtrigaud.Prelude.{
  ℕ, zero, suc, ◌==◌, ◌≡◌, ◌<◌, refl, ◌⊎◌, inl, inr, Bool, true, false, String, List, [], ◌∷◌, some,
  str_eq, if◌then◌else◌, arith, eq_iff, Bool-cases, Option-cases,
}
use virtrigaud.Prelude.Dict.{lookup, lookup-insert}
use virtrigaud.Providers.Mock.{
  MockProvider, Job, complete_task, delete_machine, set_power, delete_snapshot, Draw, generate_id,
  add_task, end_task, run_job, job_at, without_job, finish,
}

-- Whether a job ends the task that the map has under the ID, at the position
abbrev pub ends : String → ℕ → Job → Bool
ends id at (complete_task i) = str_eq i id
ends id at (delete_machine vm task) = task == at
ends id at (set_power op vm task) = task == at
ends id at (delete_snapshot vm s task) = task == at

abbrev pub some_ends : String → ℕ → List Job → Bool
some_ends id at [] = false
some_ends id at (j ∷ js) = if ends id at j then true else some_ends id at js

-- The tasks in the map lie in the used part of the heap, and each of them is done or will be ended.
pub record IsValid (p : MockProvider) : Type 0 where
  pub within : (id : String) (at : ℕ) → lookup id p.tasks ≡ some at → at < p.next_task
  pub ending :
      (id : String) (at : ℕ)
      → lookup id p.tasks ≡ some at
      → ((p.works at).is_done ≡ true) ⊎ (some_ends id at p.jobs ≡ true)

-- A job of an operation ends the task that it was started with.
abbrev pub EndsOwn : (String → ℕ → Job) → Type 0
EndsOwn job = (id : String) (at : ℕ) → ends id at (job id at) ≡ true

pub add_task-IsValid :
    (r : Draw) (job : String → ℕ → Job) (p : MockProvider)
    → EndsOwn job
    → IsValid p
    → IsValid (add_task r job p).1
unfolding add_task
add_task-IsValid r job p own v = record {
  within = λ id at h. ground (
    arith,
    lookup-insert (generate_id "task" r.now r.task_number) id p.next_task p.tasks,
    v.within id at,
  );
  ending = λ id at h. ground (
    arith,
    lookup-insert (generate_id "task" r.now r.task_number) id p.next_task p.tasks,
    v.within id at,
    v.ending id at,
    own id at,
    eq_iff (generate_id "task" r.now r.task_number) id,
  );
}

-- Whatever only touches machines keeps it.
pub other_parts-IsValid :
    (p q : MockProvider)
    → q.tasks ≡ p.tasks
    → q.works ≡ p.works
    → q.next_task ≡ p.next_task
    → q.jobs ≡ p.jobs
    → IsValid p
    → IsValid q
other_parts-IsValid p q t w n j v = record {
  within = λ id at h. rw n (v.within id at (rw t at h));
  ending = λ id at h. rw (w, j) (v.ending id at (rw t at h));
}

end_stays :
    (now at i : ℕ) (p : MockProvider)
    → (p.works i).is_done ≡ true
    → ((end_task now at p).works i).is_done ≡ true
unfolding end_task
end_stays now at i p d = ground arith

end_ends : (now at : ℕ) (p : MockProvider) → ((end_task now at p).works at).is_done ≡ true
unfolding end_task
end_ends now at p = ground arith

done_stays :
    (now : ℕ) (ip : String) (j : Job) (p : MockProvider) (i : ℕ)
    → (p.works i).is_done ≡ true
    → ((run_job now ip j p).works i).is_done ≡ true
unfolding run_job
done_stays now ip (complete_task id) p i d = elim (Option-cases (lookup id p.tasks)) [
  | inl n ↦ rw (run_job, n) d
  | inr (at, f) ↦ rw (run_job, f) (end_stays now at i p d)
]
done_stays now ip (delete_machine id task) p i d = end_stays now task i p d
done_stays now ip (set_power op vm task) p i d = end_stays now task i p d
done_stays now ip (delete_snapshot vm s task) p i d = end_stays now task i p d

done_after :
    (now : ℕ) (ip : String) (j : Job) (p : MockProvider) (id : String) (at : ℕ)
    → lookup id p.tasks ≡ some at
    → ends id at j ≡ true
    → ((run_job now ip j p).works at).is_done ≡ true
unfolding run_job
done_after now ip (complete_task i) p id at l e =
    let same : i ≡ id = ground (arith, eq_iff i id) in rw (run_job, same, l) (end_ends now at p)
done_after now ip (delete_machine i task) p id at l e =
    let same : task ≡ at = ground arith in rw same (end_ends now at p)
done_after now ip (set_power op vm task) p id at l e =
    let same : task ≡ at = ground arith in rw same (end_ends now at p)
done_after now ip (delete_snapshot vm s task) p id at l e =
    let same : task ≡ at = ground arith in rw same (end_ends now at p)

pub run_frame :
    (now : ℕ) (ip : String) (j : Job) (p : MockProvider)
    → let q = run_job now ip j p in
      (q.tasks ≡ p.tasks) × (q.next_task ≡ p.next_task) × (q.jobs ≡ p.jobs)
unfolding run_job end_task
run_frame now ip (complete_task i) p = ground arith
run_frame now ip (delete_machine i task) p = (refl, refl, refl)
run_frame now ip (set_power op vm task) p = (refl, refl, refl)
run_frame now ip (delete_snapshot vm s task) p = (refl, refl, refl)

split_ends :
    (id : String) (at n : ℕ) (js : List Job) (j : Job)
    → job_at n js ≡ some j
    → some_ends id at js ≡ true
    → (ends id at j ≡ true) ⊎ (some_ends id at (without_job n js) ≡ true)
unfolding job_at without_job
split_ends id at n [] j h e = ground arith
split_ends id at zero (k ∷ js) j h e = ground arith
split_ends id at (suc n) (k ∷ js) j h e = elim (Bool-cases (ends id at k)) [
  | inl d ↦ inr (ground arith)
  | inr d ↦ (elim (split_ends id at n js j h (ground arith)) [
    | inl f ↦ inl f
    | inr f ↦ inr (ground arith)
  ])
]

ran-IsValid :
    (now : ℕ) (ip : String) (n : ℕ) (p : MockProvider) (j : Job)
    → job_at n p.jobs ≡ some j
    → IsValid p
    → IsValid (run_job now ip j (record p { jobs = without_job n p.jobs }))
ran-IsValid now ip n p j f v =
    let q : MockProvider = record p { jobs = without_job n p.jobs } in
    let (t, m, k) = run_frame now ip j q in
    record {
      within = λ id at h. rw m (v.within id at (rw t at h));
      ending = λ id at h. rw k (elim (v.ending id at (rw t at h)) [
        | inl d ↦ inl (done_stays now ip j q at d)
        | inr s ↦ (elim (split_ends id at n p.jobs j f s) [
          | inl e ↦ inl (done_after now ip j q id at (rw t at h) e)
          | inr e ↦ inr e
        ])
      ]);
    }

pub finish-IsValid :
    (now : ℕ) (ip : String) (n : ℕ) (p : MockProvider) → IsValid p → IsValid (finish now ip n p)
unfolding finish
finish-IsValid now ip n p v = elim (Option-cases (job_at n p.jobs)) [
  | inl f ↦ rw (finish, f) v
  | inr (j, f) ↦ rw (finish, f) (ran-IsValid now ip n p j f v)
]
