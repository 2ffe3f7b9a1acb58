-- ===== src/Machine/Prepare/Located.antt =====
-- internal/controller/virtualmachine_image_prepare.go and virtualmachine_controller.go: from the location
-- that PrepareImage reports to the request that creates a VM.
use virtrigaud.Prelude.{
  ◌≡◌, refl, ap, ◌∙◌, true, false, String, [], none, some, str_eq, arith, eq_iff,
}
use virtrigaud.Prelude.Dict.{lookup, lookup-insert}
use virtrigaud.Migration.Types.{returned}
use virtrigaud.Machine.Types.{Image, Prepared, LibvirtSource}
use virtrigaud.Machine.Env.{MachineEnv}
use virtrigaud.Machine.Request.Contract.{PrepareResponse}
use virtrigaud.Machine.Request.Source.{image_of, override_prepared}
use virtrigaud.Machine.Prepare.{
  proceed, prepared_on, prepared_status, triggered_status, trigger_prepare, poll_prepare,
  write_image,
}

-- The location is found, once it was recorded as prepared.
prepared_status-entry :
    (x : MachineEnv) (name : String) (latest : Image)
    → lookup name (prepared_status x name "" "" latest).provider_status
      ≡ some (record {
        available = true;
        id = (prepared_on latest name).id;
        path = (prepared_on latest name).path;
        last_updated = some x.now;
        message = "image prepared";
      })
unfolding prepared_status
prepared_status-entry x name latest = ground (
  arith,
  eq_iff name name,
  lookup-insert name name
      (record {
        available = true;
        id = (prepared_on latest name).id;
        path = (prepared_on latest name).path;
        last_updated = some x.now;
        message = "image prepared";
      })
      latest.status.provider_status,
)

triggered_status-path :
    (x : MachineEnv) (name : String) (r : PrepareResponse) (latest i : Image)
    → str_eq r.prepared_image_path "" ≡ false
    → (prepared_on (record i { status = triggered_status x name r latest }) name).path
      ≡ r.prepared_image_path
unfolding triggered_status prepared_on
triggered_status-path x name r latest i given = ground (
  arith,
  eq_iff name name,
  lookup-insert name name
      (record {
        available = false;
        id = r.prepared_image_id;
        path = r.prepared_image_path;
        last_updated = some x.now;
        message = "image import in progress";
      })
      latest.status.provider_status,
)

image_of-prepared :
    (i : Image) (name : String) (p : Prepared) (s : LibvirtSource)
    → i.libvirt ≡ some s
    → lookup name i.status.provider_status ≡ some p
    → p.available ≡ true
    → str_eq p.path "" ≡ false
    → ((image_of none (some i) name).path ≡ p.path) × ((image_of none (some i) name).url ≡ "")
unfolding image_of override_prepared
image_of-prepared i name p s e found_entry available given = ground arith

trigger_prepare-begun :
    (x : MachineEnv) (name : String) (i latest : Image) (r : PrepareResponse)
    → x.image_json ≡ none
    → x.prepare i.name ≡ returned r
    → str_eq r.task_ref "" ≡ false
    → x.latest_image ≡ returned latest
    → (trigger_prepare x name i []).1 ≡ record i { status = triggered_status x name r latest }
unfolding trigger_prepare write_image
trigger_prepare-begun x name i latest r encoded answer has_task stored =
    rw (trigger_prepare, encoded, answer, has_task, write_image, stored)

poll_prepare_complete :
    (y : MachineEnv) (name : String) (i : Image)
    → y.is_task_complete i.status.prepare_task_ref ≡ returned true
    → y.latest_image ≡ returned i
    → let (e, i', calls) = poll_prepare y name i [] in
      (e ≡ proceed) × (i' ≡ record i { status = prepared_status y name "" "" i })
unfolding poll_prepare write_image
poll_prepare_complete y name i complete stored = ground arith

image_of-poll :
    (y : MachineEnv) (name path : String) (i : Image) (s : LibvirtSource)
    → i.libvirt ≡ some s
    → (prepared_on i name).path ≡ path
    → str_eq path "" ≡ false
    → let i' = record i { status = prepared_status y name "" "" i } in
      ((image_of none (some i') name).path ≡ path) × ((image_of none (some i') name).url ≡ "")
image_of-poll y name path i s source recorded given =
    let i' = record i { status = prepared_status y name "" "" i } in
    let p : Prepared = record {
      available = true;
      id = (prepared_on i name).id;
      path = (prepared_on i name).path;
      last_updated = some y.now;
      message = "image prepared";
    } in
    let (located, no_url) =
      image_of-prepared i' name p s source (prepared_status-entry y name i) refl
        (rw recorded given) in
    (located ∙ recorded, no_url)

-- A libvirt image whose prepare runs as a task, with its path reported when it began: once the task is
-- complete, the request that creates a VM on that provider has that path, and no URL to download from. The
-- object that the second status write starts from is the one that the first has left.
pub async_location_used :
    (x y : MachineEnv) (name : String) (i latest : Image) (r : PrepareResponse) (s : LibvirtSource)
    → x.image_json ≡ none
    → x.prepare i.name ≡ returned r
    → str_eq r.task_ref "" ≡ false
    → str_eq r.prepared_image_path "" ≡ false
    → x.latest_image ≡ returned latest
    → i.libvirt ≡ some s
    → let begun = (trigger_prepare x name i []).1 in
      y.is_task_complete begun.status.prepare_task_ref ≡ returned true
      → y.latest_image ≡ returned begun
      → let (e, i', calls) = poll_prepare y name begun [] in
        (e ≡ proceed)
        × ((image_of none (some i') name).path ≡ r.prepared_image_path)
        × ((image_of none (some i') name).url ≡ "")
async_location_used x y name i latest r s encoded answer has_task given stored source complete
      stored' =
    let begun = (trigger_prepare x name i []).1 in
    let shape = trigger_prepare-begun x name i latest r encoded answer has_task stored in
    let (proceeds, after) = poll_prepare_complete y name begun complete stored' in
    let (located, no_url) =
      image_of-poll y name r.prepared_image_path begun s (ap (λ j. j.libvirt) shape ∙ source)
        (ap (λ j. (prepared_on j name).path) shape ∙ triggered_status-path x name r latest i given)
        given in
    (proceeds, rw after located, rw after no_url)
