-- ===== src/Migration/Failed/Waiting.antt =====
-- handleFailedPhase in vmmigration_controller.go: when a failed migration is retried.
use virtrigaud.Prelude.{
  ℕ, ◌+◌, ◌*◌, ◌-◌, ◌^◌, ◌≤◌, ◌<◌, min, ◌≡◌, sym, ap, ◌∙◌, ◌⊎◌, inl, inr, none, some, Option, arith,
  ltb, Bool-cases,
}
use virtrigaud.Migration.Types.{Migration, RetryPolicy, failed, pending, requeue, requeue_after}
use virtrigaud.Migration.Failed.{
  Env, after_update, minute, or_default, retry_policy, max_retries_of, remaining_wait, reconcile,
}
use virtrigaud.Migration.Failed.Backoff.{base_of, multiplier_of, retry_delay_exact}
use virtrigaud.Migration.Failed.Laws.{Handler, waits_or_retries}

-- The time of the next retry: a migration that was never retried may be retried at once.
abbrev pub due : Option ℕ → ℕ → ℕ
due none delay = 0
due (some last) delay = last + delay

-- The delay before the retry, without overflow
abbrev pub exact_delay : RetryPolicy → ℕ → ℕ
exact_delay p n = min (base_of p * multiplier_of p ^ n) (30 * minute)

remaining-due :
    (now delay : ℕ) (last : Option ℕ)
    → or_default 0 last ≤ now
    → now < 2 ^ 63
    → delay ≤ 30 * minute
    → ((now < due last delay) × (remaining_wait now delay last ≡ some (due last delay - now)))
      ⊎ ((due last delay ≤ now) × (remaining_wait now delay last ≡ none))
unfolding remaining_wait
remaining-due now delay none past small short = inr (omega arith, ground arith)
remaining-due now delay (some last) past small short = elim (Bool-cases (ltb now (last + delay))) [
  | inl early ↦ inl (ground arith, ground arith)
  | inr late ↦ inr (ground arith, ground arith)
]

wait_unique : {a b : ℕ} → some a ≡ some b → a ≡ b
wait_unique e = ground arith

-- What Reconcile does with a failed migration that has retries left, if the backoff does not overflow and
-- the clock is not behind the last retry. The retry is due at once if there was none before, and otherwise
-- base * multiplier ^ retries, at most 30 minutes, after the last one. Before that time Reconcile asks to
-- be called again exactly at it and changes nothing; from then on the migration goes back to Pending with
-- one more retry counted, the time noted, the task forgotten and the export's ID kept.
pub failed_with_retries_left :
    (handle : Handler) (env : Env) (m : Migration) (p : RetryPolicy) (deletions : ℕ)
    → m.status.phase ≡ failed
    → retry_policy m ≡ some p
    → m.status.retry_count < max_retries_of p
    → 0 < multiplier_of p
    → base_of p * multiplier_of p ^ m.status.retry_count < 2 ^ 63
    → or_default 0 m.status.last_retry_time ≤ env.now
    → env.now < 2 ^ 63
    → let at = due m.status.last_retry_time (exact_delay p m.status.retry_count) in
      let (o, m', deletions') = reconcile handle env m deletions in
      ((env.now < at)
        × (reconcile handle env m deletions ≡ (requeue_after (at - env.now), m, deletions)))
      ⊎ ((at ≤ env.now)
          × (o ≡ after_update env requeue)
          × (m'.status.phase ≡ pending)
          × (m'.status.retry_count ≡ m.status.retry_count + 1)
          × (m'.status.last_retry_time ≡ some env.now)
          × (m'.status.task_ref ≡ "")
          × (m'.status.export_id ≡ m.status.export_id)
          × (m'.spec ≡ m.spec))
failed_with_retries_left handle env m p deletions f e h pos bounded past small =
    let n = m.status.retry_count in
    let known =
      rw (retry_delay_exact p n pos bounded) at (waits_or_retries handle env m p deletions f e h) in
    elim (remaining-due env.now (exact_delay p n) m.status.last_retry_time past small
      (omega arith)) [
        | inl (early, left) ↦ (elim known [
          | inl (wait, w, waits) ↦ inl (
            early,
            waits ∙ ap (λ d. (requeue_after d, m, deletions)) (wait_unique (sym w ∙ left)),
          )
          | inr (w, retried) ↦ absurd (ground arith)
        ])
        | inr (late, over) ↦ (elim known [
          | inl (wait, w, waits) ↦ absurd (ground arith)
          | inr (w, retried) ↦
              inr
                (late, retried.0, retried.1, retried.2, retried.3, retried.4, retried.5, retried.6)
        ])
      ]
