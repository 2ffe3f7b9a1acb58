-- ===== src/Cloning/Reconcile.antt =====
-- internal/controller/vmclone_controller.go: Reconcile.
use virtrigaud.Prelude.{
  ◌*◌, Bool, false, ◌&&◌, ◌||◌, not, String, List, [], ◌∷◌, ◌++◌, none, some, str_eq, contains,
  sprintf, if◌then◌else◌,
}
use virtrigaud.Migration.Types.{Outcome, done, requeue, requeue_after, error}
use virtrigaud.Migration.Machines.{found, missing, fetch_failed, provider_key}
use virtrigaud.Migration.Exporting.{second}
use virtrigaud.Migration.Deletion.{without}
use virtrigaud.Machine.Types.{Machine}
use virtrigaud.Machine.Env.{Host}
use virtrigaud.Machine.Request.Source.{or_default}
use virtrigaud.Cloning.Types.{VmClone, CloneEnv, write_clone_finalizers, Cloned}
use virtrigaud.Cloning.Target.{mark_failed, mark_pending}
use virtrigaud.Cloning.Binding.{bind_target_vm, poll_clone_task, start_clone}

abbrev pub clone_finalizer : String
clone_finalizer = "clone.infra.virtrigaud.io/finalizer"

abbrev pub target_namespace : VmClone → String
target_namespace c = or_default c.spec.target.namespace c.namespace

-- requestedCloneType, and whether it is a linked clone
unfoldable pub is_linked : VmClone → Bool
is_linked c = elim c.spec.clone_type [
  | none ↦ false
  | some t ↦ str_eq (or_default t "FullClone") "LinkedClone"
]

module _ (x : CloneEnv) where
  -- gateLinkedClone: only a provider that reports that it has no linked clones is refused.
  unfoldable pub linked_is_blocked : VmClone → Bool
  unfolding is_linked
  linked_is_blocked c = elim x.linked_clones [
    | none ↦ false
    | some supported ↦ is_linked c && not supported
  ]

  -- No clone was issued yet: a VM of the target's name must not exist.
  unfoldable pub first_clone : Machine → VmClone → Cloned
  unfolding mark_failed start_clone is_linked
  first_clone source c =
      elim (x.get_vm (record { name = c.spec.target.name; namespace = target_namespace c })) [
        | found _ ↦
            mark_failed x "ProviderError"
              (sprintf (
                "target VM \"" ∷ c.spec.target.name
                ∷ "\" already exists and was not created by this clone" ∷ []))
              c []
        | fetch_failed err ↦ (requeue_after (30 * second), c, [])
        | missing ↦ start_clone x source (target_namespace c) (is_linked c) c []
      ]

  -- The provider is resolved: a task that runs comes first, then an ID that was given.
  unfoldable pub continue_clone : Machine → VmClone → Cloned
  unfolding mark_failed linked_is_blocked poll_clone_task bind_target_vm first_clone
  continue_clone source c =
      if linked_is_blocked c
      then mark_failed x "LinkedCloneUnsupported" "provider does not support linked clones" c []
      else if not (str_eq c.status.task_ref "")
      then poll_clone_task x source (target_namespace c) c []
      else if not (str_eq c.status.target_vm_id "")
      then bind_target_vm x source (target_namespace c) c.status.target_vm_id c []
      else first_clone source c

  unfoldable pub with_provider : Machine → String → Host → VmClone → Cloned
  unfolding mark_pending continue_clone
  with_provider source provider_name p c = elim (x.resolve p) [
    | some err ↦
        mark_pending x "ProviderError"
          (sprintf ("failed to resolve provider \"" ∷ provider_name ∷ "\": " ∷ err ∷ [])) c []
    | none ↦ continue_clone source c
  ]

  unfoldable pub with_source : Machine → VmClone → Cloned
  unfolding mark_pending with_provider
  with_source source c =
      if str_eq source.status.id ""
      then mark_pending x "Cloning" "waiting for source VM to be provisioned" c []
      else (elim (x.get_provider (provider_key source.namespace source.spec.provider_ref)) [
        | found p ↦ with_provider source source.spec.provider_ref.name p c
        | missing ↦
            mark_pending x "ProviderError"
              (sprintf ("provider \"" ∷ source.spec.provider_ref.name ∷ "\" not found" ∷ [])) c []
        | fetch_failed err ↦
            mark_pending x "ProviderError"
              (sprintf ("provider \"" ∷ source.spec.provider_ref.name ∷ "\" not found" ∷ [])) c []
      ])

  unfoldable pub from_source : String → VmClone → Cloned
  unfolding mark_pending with_source
  from_source name c = elim (x.get_vm (record { name = name; namespace = c.namespace })) [
    | missing ↦
        mark_pending x "SourceNotFound" (sprintf ("source VM \"" ∷ name ∷ "\" not found" ∷ [])) c []
    | fetch_failed err ↦ (requeue_after (30 * second), c, [])
    | found source ↦ with_source source c
  ]

  unfoldable pub run_named : String → VmClone → Cloned
  unfolding mark_failed from_source
  run_named name c =
      if str_eq name ""
      then mark_failed x "UnsupportedSource" "clone source type not yet supported; use source.vmRef"
          c []
      else from_source name c

  -- A clone that is not over
  unfoldable pub run_clone : VmClone → Cloned
  unfolding run_named
  run_clone c =
      run_named (elim c.spec.source_vm [ none ↦ "" | some n ↦ n ])
        (record c { status = record (c.status) { observed_generation = c.generation } })

  -- A write of the finalizers, and what it leads to
  unfoldable pub put_finalizers : Outcome → List String → VmClone → Cloned
  put_finalizers next finalizers c = (
    (elim x.update [ none ↦ next | some err ↦ error err ]),
    record c { finalizers = finalizers },
    write_clone_finalizers finalizers ∷ [],
  )

  unfoldable pub is_over : VmClone → Bool
  is_over c = str_eq c.status.phase "Ready" || str_eq c.status.phase "Failed"

  -- Reconcile, of a clone that was found
  unfoldable pub reconcile_clone : VmClone → Cloned
  unfolding put_finalizers is_over run_clone
  reconcile_clone c = elim c.deletion_timestamp [
    | some _ ↦ put_finalizers done (without clone_finalizer c.finalizers) c
    | none ↦
        if not (contains c.finalizers clone_finalizer)
        then put_finalizers requeue (c.finalizers ++ clone_finalizer ∷ []) c
        else if is_over c
        then (done, c, [])
        else run_clone c
  ]
