-- ===== src/Migration/Failed/Tests.antt =====
-- handleFailedPhase and its backoff in vmmigration_controller.go on small inputs.
use virtrigaud.Prelude.{
  ◌*◌, ◌-◌, ◌%◌, ◌^◌, ◌<◌, ◌≤◌, ◌⊎◌, false, true, ◌≡◌, min, refl, [], none, some, arith,
}
use virtrigaud.Migration.Samples.{plain_source, plain_target}
use virtrigaud.Migration.Types.{
  Migration, RetryPolicy, failed, done, requeue, requeue_after, pending,
}
use virtrigaud.Migration.Failed.{Env, after_update, minute, retry_delay, scale, reconcile}
use virtrigaud.Migration.Failed.Backoff.{base_of, multiplier_of, retry_delay_exact}
use virtrigaud.Migration.Failed.Laws.{Handler, failed_never_cleans_up}
use virtrigaud.Migration.Failed.Waiting.{due, exact_delay, failed_with_retries_left}

-- maxRetries and backoffMultiplier at the limits of the CRD
abbrev steep : RetryPolicy
steep = record { max_retries = some 10; retry_delay = none; backoff_multiplier = some 10 }

abbrev gentle : RetryPolicy
gentle = record { max_retries = none; retry_delay = some minute; backoff_multiplier = none }

retry_delay_exact_example :
    retry_delay gentle 4 ≡ min (base_of gentle * multiplier_of gentle ^ 4) (30 * minute)
retry_delay_exact_example = retry_delay_exact gentle 4 (omega arith) (omega arith)

below_cap : retry_delay gentle 4 ≡ 16 * minute
unfolding retry_delay
below_cap = refl

steep_scaled : scale 10 8 (5 * minute) ≡ 30_000_000_000_000_000_000 % 2 ^ 64
unfolding scale
steep_scaled = refl

abbrev env : Env
env = record { now = 90_000_000_000; update_status = none }

-- Retried once already, thirty seconds ago.
abbrev broken : Migration
broken = record {
  name = "mig";
  namespace = "default";
  deletion_timestamp = none;
  finalizers = [];
  uid = "u1";
  generation = 1;
  spec = record {
    source = plain_source;
    target = plain_target;
    storage = none;
    options = some (record {
      disk_format = "";
      compress = false;
      verify_checksums = true;
      retry_policy = some gentle;
      cleanup_policy = "";
    });
  };
  status = record {
    phase = failed;
    message = "";
    snapshot_id = "snap-1";
    export_id = "";
    import_id = "";
    task_ref = "";
    completion_time = none;
    disk_info = none;
    conditions = [];
    retry_count = 1;
    last_retry_time = some 60_000_000_000;
    start_time = none;
    target_vm_id = "";
    storage_pvc_name = "";
    storage_info = none;
  };
}

idle : Handler
idle e m deletions = (done, m, deletions)

failed_never_cleans_up_example : (reconcile idle env broken 0).2 ≡ 0
failed_never_cleans_up_example = failed_never_cleans_up idle env broken 0 refl

failed_with_retries_left_example :
    let at = due (some 60_000_000_000) (exact_delay gentle 1) in
    let (o, m', deletions') = reconcile idle env broken 0 in
    ((90_000_000_000 < at)
      × (reconcile idle env broken 0 ≡ (requeue_after (at - 90_000_000_000), broken, 0)))
    ⊎ ((at ≤ 90_000_000_000)
        × (o ≡ after_update env requeue)
        × (m'.status.phase ≡ pending)
        × (m'.status.retry_count ≡ 2)
        × (m'.status.last_retry_time ≡ some 90_000_000_000)
        × (m'.status.task_ref ≡ "")
        × (m'.status.export_id ≡ "")
        × (m'.spec ≡ broken.spec))
failed_with_retries_left_example =
    failed_with_retries_left idle env broken gentle 0 refl refl (omega arith) (omega arith)
      (omega arith) (omega arith) (omega arith)

waits_ninety_seconds : reconcile idle env broken 0 ≡ (requeue_after 90_000_000_000, broken, 0)
unfolding reconcile retry_delay
waits_ninety_seconds = refl
