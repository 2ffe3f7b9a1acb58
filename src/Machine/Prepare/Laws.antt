-- ===== src/Machine/Prepare/Laws.antt =====
-- internal/controller/virtualmachine_image_prepare.go: what EnsureImageOnProvider guarantees of an image.
use virtrigaud.Prelude.{
  ◌≡◌, ◌≢◌, Bool, true, ◌&&◌, String, List, [], ◌∷◌, some, str_eq, if◌then◌else◌, sprintf, arith,
  eq_iff, inl, inr, Option-cases, Bool-cases,
}
use virtrigaud.Prelude.Dict.{lookup-insert}
use virtrigaud.Migration.Types.{Answer-cases}
use virtrigaud.Machine.Types.{Image, ImageStatus}
use virtrigaud.Machine.Env.{MachineEnv, Host, Call, call_prepare}
use virtrigaud.Machine.Prepare.{
  Ensured, proceed, in_flight, held, failed_with, Preparing, advertises_import,
  source_needs_prepare, prepared_on, is_available_on, write_image, hold_status, preparing_status,
  triggered_status, prepared_status, poll_prepare, trigger_prepare, prepare_missing, ensure_image,
}

-- Whether the provider has to prepare the image: it can, and the source is not on it yet.
unfoldable pub must_prepare : MachineEnv → Host → Image → Bool
must_prepare x p i = x.implements_prepare && advertises_import p && source_needs_prepare i

pub prepared_status-available :
    (x : MachineEnv) (name id path : String) (latest i : Image)
    → is_available_on (record i { status = prepared_status x name id path latest }) name ≡ true
unfolding prepared_status prepared_on is_available_on
prepared_status-available x name id path latest i = ground (
  arith,
  eq_iff name name,
  lookup-insert name name
      (record {
        available = true;
        id = if str_eq id "" then (prepared_on latest name).id else id;
        path = if str_eq path "" then (prepared_on latest name).path else path;
        last_updated = some x.now;
        message = "image prepared";
      })
      latest.status.provider_status,
)

-- What is claimed of the image when the creation may proceed
abbrev pub Available : String → Preparing → Type 0
Available name (proceed, i, calls) = is_available_on i name ≡ true
Available name (in_flight, i, calls) = Unit
Available name (held, i, calls) = Unit
Available name (failed_with err, i, calls) = Unit

module _ (x : MachineEnv) (name : String) (i : Image) where
  write_prepared-Available :
      (id path : String) (calls : List Call)
      → Available name (write_image x (prepared_status x name id path) proceed i calls)
  unfolding write_image
  write_prepared-Available id path calls = elim (Answer-cases x.latest_image) [
    | inl (err, refusal) ↦ ground arith
    | inr (latest, answer) ↦ ground (arith, prepared_status-available x name id path latest i)
  ]

  write_other-Available :
      (mutate : Image → ImageStatus) (after : Ensured) (calls : List Call)
      → after ≢ proceed
      → Available name (write_image x mutate after i calls)
  unfolding write_image
  write_other-Available mutate after calls other = elim (Answer-cases x.latest_image) [
    | inl (err, refusal) ↦ ground arith
    | inr (latest, answer) ↦ ground arith
  ]

  poll_prepare-Available : Available name (poll_prepare x name i [])
  unfolding poll_prepare
  poll_prepare-Available = elim (Answer-cases (x.is_task_complete i.status.prepare_task_ref)) [
    | inl (err, refusal) ↦ ground arith
    | inr (over, answer) ↦ elim (Bool-cases over) [
      | inl e ↦ ground (arith, write_prepared-Available "" "" [])
      | inr e ↦ ground (arith, write_other-Available (preparing_status x) in_flight [])
    ]
  ]

  trigger_prepare-Available : Available name (trigger_prepare x name i [])
  unfolding trigger_prepare
  trigger_prepare-Available = elim (Option-cases x.image_json) [
    | inr (err, e) ↦ ground arith
    | inl e ↦ elim (Answer-cases (x.prepare i.name)) [
      | inl (err, refusal) ↦ ground arith
      | inr (r, answer) ↦
          let called : List Call = call_prepare i.name ∷ [] in
          ground (
            arith,
            write_prepared-Available r.prepared_image_id r.prepared_image_path called,
            write_other-Available (triggered_status x name r) in_flight called,
          )
    ]
  ]

-- If the provider has to prepare the image, then the creation of a VM proceeds only with an image that is
-- recorded as available on that provider, whatever the API server and the provider answer.
pub ensure_image-Available :
    (x : MachineEnv) (p : Host) (i : Image)
    → must_prepare x p i ≡ true
    → Available p.name (ensure_image x p i [])
unfolding ensure_image prepare_missing must_prepare
ensure_image-Available x p i must = elim (Bool-cases (is_available_on i p.name)) [
  | inl there ↦ ground arith
  | inr absent ↦ ground (
    arith,
    poll_prepare-Available x p.name i,
    trigger_prepare-Available x p.name i,
    write_other-Available x p.name i
        (hold_status x "Failed"
          (sprintf
            ("image not available on provider \"" ∷ p.name ∷ "\" and Prepare.OnMissing=Fail" ∷ []))
          "MissingOnProvider")
        held [],
    write_other-Available x p.name i
        (hold_status x "Pending"
          (sprintf (
            "image not available on provider \"" ∷ p.name ∷ "\"; waiting (Prepare.OnMissing=Wait)"
            ∷ []))
          "WaitingForImage")
        held [],
  )
]
