-- ===== src/Providers/Mock/Described.antt =====
-- internal/providers/mock/provider.go: what Describe says after Create and after Delete.
use virtrigaud.Prelude.{ℕ, ◌≡◌, ◌≢◌, false, String, none, some, arith, eq_iff, eq_refl}
use virtrigaud.Prelude.Dict.{lookup, lookup-insert, lookup-erase}
use virtrigaud.Providers.Mock.{
  MockProvider, Draw, should_fail, generate_id, add_task, add_machine, run_job, end_task, replied,
  on_machine, delete, new_machine, make_machine, create_machine, describe, finish, job_at,
  without_job,
}

-- What Create creates Describe finds at once, although the task of the creation is still running: off,
-- with the name that was asked for. The provider is not configured to fail either call.
pub create_machine-describe :
    (r : Draw) (name : String) (p : MockProvider)
    → should_fail p "create" ≡ false
    → should_fail p "describe" ≡ false
    → let (reply, p') = create_machine r name p in
      let id = generate_id "vm" r.now r.number in
      (reply ≡ replied (id, generate_id "task" r.now r.task_number))
      × (describe id p' ≡ replied (some (new_machine id name r.now)))
unfolding create_machine make_machine add_machine add_task describe should_fail
create_machine-describe r name p c d = (
  ground arith,
  ground (
    arith,
    lookup-insert (generate_id "vm" r.now r.number) (generate_id "vm" r.now r.number) p.next_machine
        p.vms,
    eq_refl (generate_id "vm" r.now r.number),
  ),
)

-- What Delete deletes is gone when its goroutine has run, and Describe answers for every other machine
-- what it answered before. The machine exists, and the provider is not configured to fail.
pub delete-describe :
    (r : Draw) (id other : String) (vm now : ℕ) (ip : String) (p : MockProvider)
    → should_fail p "delete" ≡ false
    → should_fail p "describe" ≡ false
    → lookup id p.vms ≡ some vm
    → other ≢ id
    → let q = finish now ip 0 (delete r id p).1 in
      (describe id q ≡ replied none) × (describe other q ≡ describe other p)
unfolding delete on_machine add_task finish run_job end_task job_at without_job describe should_fail
delete-describe r id other vm now ip p f d l n = (
  ground (arith, lookup-erase id id p.vms, eq_refl id),
  ground (arith, lookup-erase id other p.vms, eq_iff id other),
)
