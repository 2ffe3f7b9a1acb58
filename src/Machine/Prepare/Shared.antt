-- ===== src/Machine/Prepare/Shared.antt =====
-- internal/controller/virtualmachine_image_prepare.go: one image, prepared on several providers.
use virtrigaud.Prelude.{
  ◌≡◌, ◌≢◌, refl, true, false, String, List, [], ◌∷◌, Option, some, str_eq, if◌then◌else◌, arith,
  eq_iff, inl, inr, Option-cases,
}
use virtrigaud.Prelude.Dict.{lookup, lookup-insert}
use virtrigaud.Migration.Types.{returned, Answer-cases}
use virtrigaud.Machine.Types.{Image, ImageStatus, Prepared}
use virtrigaud.Machine.Env.{MachineEnv, Host, Call, call_prepare, write_image_status}
use virtrigaud.Machine.Request.Contract.{PrepareResponse}
use virtrigaud.Machine.Prepare.{
  prepared_on, write_image, hold_status, preparing_status, triggered_status, prepared_status,
  poll_prepare, trigger_prepare, prepare_missing, ensure_image,
}

-- What is recorded of the image on one provider
abbrev pub entry : String → ImageStatus → Option Prepared
entry name s = lookup name s.provider_status

module _ (x : MachineEnv) (p other : String) (apart : p ≢ other) (latest : Image) where
  triggered_status-entry :
      (r : PrepareResponse)
      → entry other (triggered_status x p r latest) ≡ entry other latest.status
  unfolding triggered_status
  triggered_status-entry r = ground (
    arith,
    eq_iff p other,
    lookup-insert p other
        (record {
          available = false;
          id = r.prepared_image_id;
          path = r.prepared_image_path;
          last_updated = some x.now;
          message = "image import in progress";
        })
        latest.status.provider_status,
  )

  prepared_status-entry :
      (id path : String)
      → entry other (prepared_status x p id path latest) ≡ entry other latest.status
  unfolding prepared_status
  prepared_status-entry id path = ground (
    arith,
    eq_iff p other,
    lookup-insert p other
        (record {
          available = true;
          id = if str_eq id "" then (prepared_on latest p).id else id;
          path = if str_eq path "" then (prepared_on latest p).path else path;
          last_updated = some x.now;
          message = "image prepared";
        })
        latest.status.provider_status,
  )

  hold_status-entry :
      (phase message reason : String)
      → entry other (hold_status x phase message reason latest) ≡ entry other latest.status
  unfolding hold_status
  hold_status-entry phase message reason = refl

  preparing_status-entry : entry other (preparing_status x latest) ≡ entry other latest.status
  unfolding preparing_status
  preparing_status-entry = refl

-- Every status of the image that is written has the entry of the other provider that the latest object has.
abbrev pub KeepsEntry : String → Image → List Call → Type 0
KeepsEntry other latest [] = Unit
KeepsEntry other latest (write_image_status s ∷ calls) =
    (entry other s ≡ entry other latest.status) × KeepsEntry other latest calls
KeepsEntry other latest (_ ∷ calls) = KeepsEntry other latest calls

module _ (x : MachineEnv) (p other : String) (apart : p ≢ other) (latest i : Image)
    (e : x.latest_image ≡ returned latest) where
  poll_prepare-KeepsEntry : KeepsEntry other latest (poll_prepare x p i []).2
  unfolding poll_prepare write_image
  poll_prepare-KeepsEntry = elim (Answer-cases (x.is_task_complete i.status.prepare_task_ref)) [
    | inl (err, refusal) ↦ ground arith
    | inr (over, answer) ↦ ground (
      arith,
      preparing_status-entry x p other apart latest,
      prepared_status-entry x p other apart latest "" "",
    )
  ]

  trigger_prepare-KeepsEntry : KeepsEntry other latest (trigger_prepare x p i []).2
  unfolding trigger_prepare write_image
  trigger_prepare-KeepsEntry = elim (Option-cases x.image_json) [
    | inr (err, failure) ↦ ground arith
    | inl encoded ↦ elim (Answer-cases (x.prepare i.name)) [
      | inl (err, refusal) ↦ ground arith
      | inr (r, answer) ↦ ground (
        arith,
        triggered_status-entry x p other apart latest r,
        prepared_status-entry x p other apart latest r.prepared_image_id r.prepared_image_path,
      )
    ]
  ]

-- The preparation on one provider writes the image's status only with the entry of any other provider as
-- the latest object has it, however that object differs from the one in memory.
pub ensure_image-KeepsEntry :
    (x : MachineEnv) (p : Host) (other : String) (latest i : Image)
    → p.name ≢ other
    → x.latest_image ≡ returned latest
    → KeepsEntry other latest (ensure_image x p i []).2
unfolding ensure_image prepare_missing write_image hold_status
ensure_image-KeepsEntry x p other latest i apart e = ground (
  arith,
  poll_prepare-KeepsEntry x p.name other apart latest i e,
  trigger_prepare-KeepsEntry x p.name other apart latest i e,
)

-- None of the calls prepares an image.
abbrev pub NeverPrepares : List Call → Type 0
NeverPrepares [] = Unit
NeverPrepares (call_prepare _ ∷ calls) = ⊥
NeverPrepares (_ ∷ calls) = NeverPrepares calls
