-- ===== src/Machine/Prepare.antt =====
-- internal/controller/virtualmachine_image_prepare.go: EnsureImageOnProvider, which prepares an image on a
-- provider before a VM is created from it.
pub mod Laws
pub mod Shared
pub mod Located
use virtrigaud.Prelude.{
  ℕ, Bool, true, false, ◌&&◌, ◌||◌, not, String, List, [], ◌∷◌, ◌++◌, Option, none, some, str_eq,
  contains, sprintf, if◌then◌else◌,
}
use virtrigaud.Prelude.Dict.{lookup, insert}
use virtrigaud.K8s.Conditions.{ConditionStatus, condition_true, condition_false}
use virtrigaud.Migration.Types.{Answer, returned, refused}
use virtrigaud.Machine.Types.{
  Machine, Image, ImageStatus, Prepared, LibvirtSource, VsphereSource, ProxmoxSource,
}
use virtrigaud.Machine.Env.{MachineEnv, Host, Call, call_prepare, write_image_status}
use virtrigaud.Machine.Request.Contract.{PrepareResponse}
use virtrigaud.Machine.Request.Source.{or_default}

-- What EnsureImageOnProvider returns: (false, nil), (true, nil), errImagePrepareHold, another error
pub data Ensured : Type 0 where
  proceed in_flight held : Ensured
  failed_with : String → Ensured

-- With the image as it is in memory, and the calls made so far, the last one first.
abbrev pub Preparing : Type 0
Preparing = Ensured × Image × List Call

-- providerAdvertisesImageImport
unfoldable pub advertises_import : Host → Bool
advertises_import p = elim p.image_import [ none ↦ false | some b ↦ b ]

-- imageMissingAction
unfoldable pub missing_action : Image → String
missing_action i = elim i.on_missing [ none ↦ "Import" | some a ↦ or_default a "Import" ]

proxmox_needs_prepare : ProxmoxSource → Bool
proxmox_needs_prepare s = elim s.template_id [ some _ ↦ false | none ↦ str_eq s.template_name "" ]

-- imageSourceNeedsPrepare
unfoldable pub source_needs_prepare : Image → Bool
unfolding proxmox_needs_prepare
source_needs_prepare i = elim i.libvirt [
  | some s ↦ not (str_eq s.url "") || str_eq s.path ""
  | none ↦ elim i.vsphere [
    | some s ↦ not (str_eq s.ova_url "") || (str_eq s.template_name "" && not s.content_library)
    | none ↦ elim i.proxmox [ some s ↦ proxmox_needs_prepare s | none ↦ true ]
  ]
]

-- The image as it is prepared on a provider, the zero value if nothing was recorded
unfoldable pub prepared_on : Image → String → Prepared
prepared_on i provider_name = elim (lookup provider_name i.status.provider_status) [
  | none ↦ record { available = false; id = ""; path = ""; last_updated = none; message = "" }
  | some p ↦ p
]

unfoldable pub is_available_on : Image → String → Bool
unfolding prepared_on
is_available_on i provider_name = (prepared_on i provider_name).available

-- appendDedup
unfoldable pub append_dedup : List String → String → List String
append_dedup names name = if contains names name then names else names ++ name ∷ []

module _ (x : MachineEnv) where
  image_condition : String → ConditionStatus → String → String → Image → ImageStatus
  image_condition type status reason message i = record (i.status) {
    conditions = x.set_status_condition type status reason message i.generation i.status.conditions;
  }

  -- writeImageStatus: the change is made to the latest image, whose status is then that of the image in
  -- memory; `after` is what is returned then.
  unfoldable pub write_image : (Image → ImageStatus) → Ensured → Image → List Call → Preparing
  write_image mutate after i calls = elim x.latest_image [
    | refused err ↦
        (failed_with (sprintf ("update VMImage " ∷ i.name ∷ " status: " ∷ err ∷ [])), i, calls)
    | returned latest ↦
        (after, record i { status = mutate latest }, write_image_status (mutate latest) ∷ calls)
  ]

  -- The image is missing, and Prepare.OnMissing holds the creation.
  unfoldable pub hold_status : String → String → String → Image → ImageStatus
  unfolding image_condition
  hold_status phase message reason latest =
      image_condition "Ready" condition_false reason message (record latest {
        status = record (latest.status) { ready = false; phase = phase; message = message };
      })

  -- markImagePreparing
  unfoldable pub preparing_status : Image → ImageStatus
  unfolding image_condition
  preparing_status latest =
      image_condition "Importing" condition_true "Importing" "image import in progress"
        (record latest { status = record (latest.status) { phase = "Importing"; ready = false } })

  -- The status of an image whose prepare has begun, with the location if the provider knows it already
  unfoldable pub triggered_status : String → PrepareResponse → Image → ImageStatus
  unfolding image_condition prepared_on
  triggered_status provider_name r latest =
      let message = sprintf ("importing image into provider \"" ∷ provider_name ∷ "\"" ∷ []) in
      let location : Prepared = record {
        available = false;
        id = r.prepared_image_id;
        path = r.prepared_image_path;
        last_updated = some x.now;
        message = "image import in progress";
      } in
      image_condition "Importing" condition_true "Importing" message (record latest {
        status = record (latest.status) {
          prepare_task_ref = r.task_ref;
          phase = "Importing";
          ready = false;
          message = message;
          last_prepare_time = some x.now;
          provider_status =
              if str_eq r.prepared_image_id "" && str_eq r.prepared_image_path ""
              then latest.status.provider_status
              else insert provider_name location latest.status.provider_status;
        };
      })

  -- markImagePrepared
  unfoldable pub prepared_status : String → String → String → Image → ImageStatus
  unfolding image_condition prepared_on append_dedup
  prepared_status provider_name id path latest =
      let old = prepared_on latest provider_name in
      let location : Prepared = record {
        available = true;
        id = if str_eq id "" then old.id else id;
        path = if str_eq path "" then old.path else path;
        last_updated = some x.now;
        message = "image prepared";
      } in
      let ready_status =
        image_condition "Ready" condition_true "Prepared"
          (sprintf ("image prepared on provider \"" ∷ provider_name ∷ "\"" ∷ []))
          (record latest {
            status = record (latest.status) {
              provider_status = insert provider_name location latest.status.provider_status;
              available_on = append_dedup latest.status.available_on provider_name;
              prepare_task_ref = "";
              ready = true;
              phase = "Ready";
              message = "";
              last_prepare_time = some x.now;
            };
          }) in
      image_condition "Importing" condition_false "Prepared" "image import complete"
        (record latest { status = ready_status })

  -- An outstanding prepare task is polled on the provider at hand.
  unfoldable pub poll_prepare : String → Image → List Call → Preparing
  unfolding write_image preparing_status prepared_status
  poll_prepare provider_name i calls = elim (x.is_task_complete i.status.prepare_task_ref) [
    | refused err ↦ (
      failed_with
          (sprintf ("check image prepare task " ∷ i.status.prepare_task_ref ∷ ": " ∷ err ∷ [])),
      i,
      calls,
    )
    | returned false ↦ write_image preparing_status in_flight i calls
    | returned true ↦ write_image (prepared_status provider_name "" "") proceed i calls
  ]

  -- PrepareImage is called, and what it answers is recorded.
  unfoldable pub trigger_prepare : String → Image → List Call → Preparing
  unfolding write_image triggered_status prepared_status
  trigger_prepare provider_name i calls = elim x.image_json [
    | some err ↦ (
      failed_with (sprintf ("marshal VMImage " ∷ i.name ∷ " spec for prepare: " ∷ err ∷ [])),
      i,
      calls,
    )
    | none ↦
        let called = call_prepare i.name ∷ calls in
        elim (x.prepare i.name) [
          | refused err ↦ (
            failed_with (
                sprintf
                  ("prepare image " ∷ i.name ∷ " on provider " ∷ provider_name ∷ ": " ∷ err ∷ [])),
            i,
            called,
          )
          | returned r ↦
              if str_eq r.task_ref ""
              then write_image
                  (prepared_status provider_name r.prepared_image_id r.prepared_image_path) proceed
                  i called
              else write_image (triggered_status provider_name r) in_flight i called
        ]
  ]

  -- What is done about an image that has to be prepared, by Prepare.OnMissing
  unfoldable pub prepare_missing : String → Image → List Call → Preparing
  unfolding missing_action write_image hold_status poll_prepare trigger_prepare
  prepare_missing provider_name i calls =
      if str_eq (missing_action i) "Fail"
      then write_image
          (hold_status "Failed"
            (sprintf (
              "image not available on provider \"" ∷ provider_name ∷ "\" and Prepare.OnMissing=Fail"
              ∷ []))
            "MissingOnProvider")
          held i calls
      else if str_eq (missing_action i) "Wait"
      then write_image
          (hold_status "Pending"
            (sprintf (
              "image not available on provider \"" ∷ provider_name
              ∷ "\"; waiting (Prepare.OnMissing=Wait)" ∷ []))
            "WaitingForImage")
          held i calls
      else if str_eq i.status.prepare_task_ref ""
      then trigger_prepare provider_name i calls
      else poll_prepare provider_name i calls

  -- EnsureImageOnProvider, for a VM that refers to an image
  unfoldable pub ensure_image : Host → Image → List Call → Preparing
  unfolding advertises_import is_available_on source_needs_prepare prepare_missing
  ensure_image p i calls =
      if not x.implements_prepare
        || not (advertises_import p)
        || is_available_on i p.name
        || not (source_needs_prepare i)
      then (proceed, i, calls)
      else prepare_missing p.name i calls
