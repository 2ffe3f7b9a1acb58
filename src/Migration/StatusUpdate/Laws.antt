-- ===== src/Migration/StatusUpdate/Laws.antt =====
-- What updateStatus of vmmigration_controller.go writes, and how often.
use virtrigaud.Prelude.{ℕ, zero, suc, ◌+◌, ◌*◌, ◌^◌, ◌≤◌, ◌≡◌, refl, inl, inr, none, arith}
use virtrigaud.Migration.Types.{Migration, Status, Answer, Answer-cases}
use virtrigaud.Migration.StatusUpdate.{
  Write, written, update_loop, update_status, max_retries, base_delay,
}

module _ {ℓ} {W : Type ℓ} (write : Migration → W → Write × W) (get : W → Answer Migration × W)
    (sleep : ℕ → W → W) where
  module _ (stored : W → Status)
      -- A write that the API server accepts stores the status of the object.
      (stores : (m : Migration) (w : W)
        → (write m w).0 ≡ written
        → stored (write m w).1 ≡ m.status) where
    loop_persists :
        (left attempt : ℕ) (m : Migration) (w : W)
        → (update_loop write get sleep left attempt m w).0 ≡ none
        → stored (update_loop write get sleep left attempt m w).2 ≡ m.status
    unfolding update_loop
    loop_persists zero attempt m w h = absurd (ground arith)
    loop_persists (suc left) attempt m w h =
        let reply = get (sleep (base_delay * 2 ^ attempt) (write m w).1) in
        elim (Answer-cases reply.0) [
          | inl (err, e) ↦ ground (arith, stores m w)
          | inr (fresh, e) ↦ ground (
            arith,
            stores m w,
            loop_persists left (attempt + 1) (record fresh { status = m.status }) reply.1,
          )
        ]

    -- When updateStatus returns nil, what is stored is the status that its caller passed, also if the
    -- object was refreshed after conflicts in between, whatever another writer has stored there: for
    -- any API server whose accepted writes store the status of the object.
    pub update_status_persists :
        (m : Migration) (w : W)
        → (update_status write get sleep m w).0 ≡ none
        → stored (update_status write get sleep m w).2 ≡ m.status
    unfolding update_status
    update_status_persists m w h = loop_persists max_retries 0 m w h

  module _ (writes : W → ℕ)
      -- The number of writes so far
      (counts : (m : Migration) (w : W) → writes (write m w).1 ≡ writes w + 1)
      (get_keeps : (w : W) → writes (get w).1 ≡ writes w)
      (sleep_keeps : (delay : ℕ) (w : W) → writes (sleep delay w) ≡ writes w) where
    loop_bounded :
        (left attempt : ℕ) (m : Migration) (w : W)
        → (writes (update_loop write get sleep left attempt m w).2 ≤ writes w + left)
          × ((update_loop write get sleep left attempt m w).1.status ≡ m.status)
    unfolding update_loop
    loop_bounded zero attempt m w = (omega arith, refl)
    loop_bounded (suc left) attempt m w =
        let pause = base_delay * 2 ^ attempt in
        let slept = sleep pause (write m w).1 in
        let reply = get slept in
        elim (Answer-cases reply.0) [
          | inl (err, e) ↦
              ground (arith, counts m w, get_keeps slept, sleep_keeps pause (write m w).1)
          | inr (fresh, e) ↦ ground (
            arith,
            counts m w,
            get_keeps slept,
            sleep_keeps pause (write m w).1,
            loop_bounded left (attempt + 1) (record fresh { status = m.status }) reply.1,
          )
        ]

    -- updateStatus writes at most three times, and the object that it leaves with its caller carries
    -- the status that the caller passed, with or without an error.
    pub update_status_bounded :
        (m : Migration) (w : W)
        → (writes (update_status write get sleep m w).2 ≤ writes w + 3)
          × ((update_status write get sleep m w).1.status ≡ m.status)
    unfolding update_status
    update_status_bounded m w = loop_bounded max_retries 0 m w
