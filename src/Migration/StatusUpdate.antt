-- ===== src/Migration/StatusUpdate.antt =====
-- internal/controller/vmmigration_controller.go, updateStatus: the status write with its retries on
-- conflicts. The API server and the sleep are parameters that act on a state of the caller's choice.
pub mod Laws
mod Tests
use virtrigaud.Prelude.{
  ℕ, zero, suc, ◌+◌, ◌*◌, ◌^◌, String, [], ◌∷◌, Option, none, some, ltb, sprintf, decimal,
  if◌then◌else◌,
}
use virtrigaud.Migration.Types.{Migration, Answer, returned, refused}

-- What Status().Update answers: nil, an error for which errors.IsConflict holds, or another one.
pub data Write : Type 0 where
  written : Write
  conflict rejected : String → Write

abbrev pub max_retries : ℕ
max_retries = 3

-- 100 milliseconds in nanoseconds
abbrev pub base_delay : ℕ
base_delay = 100_000_000

module _ {ℓ} {W : Type ℓ}
    -- Status().Update, Get of the same object, and time.Sleep
    (write : Migration → W → Write × W) (get : W → Answer Migration × W) (sleep : ℕ → W → W) where
  -- The attempts that are left, with the number of the attempt. The error is `none` for nil.
  unfoldable pub update_loop : ℕ → ℕ → Migration → W → Option String × Migration × W
  update_loop zero attempt m w = (
    some (sprintf ("failed to update status after " ∷ decimal max_retries ∷ " attempts" ∷ [])),
    m,
    w,
  )
  update_loop (suc left) attempt m w =
      let (result, w') = write m w in
      elim result [
        | written ↦ (none, m, w')
        | rejected err ↦ (some err, m, w')
        | conflict err ↦
            if ltb attempt 2
            then (let (answer, w'') = get (sleep (base_delay * 2 ^ attempt) w') in
                elim answer [
                  | refused err' ↦ (some err', m, w'')
                  | returned fresh ↦
                      update_loop left (attempt + 1) (record fresh { status = m.status }) w''
                ])
            else (some err, m, w')
      ]

  -- updateStatus
  unfoldable pub update_status : Migration → W → Option String × Migration × W
  unfolding update_loop
  update_status m w = update_loop max_retries 0 m w
