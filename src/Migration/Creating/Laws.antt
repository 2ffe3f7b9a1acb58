-- ===== src/Migration/Creating/Laws.antt =====
-- The annotations of the target VM that vmmigration_controller.go creates.
use virtrigaud.Prelude.{◌≡◌, refl, String, [], ◌∷◌, none, some, arith, eq_iff, sprintf}
use virtrigaud.Prelude.Dict.{Dict, insert, lookup, lookup-insert}
use virtrigaud.Migration.Types.{Migration, DiskInfo}
use virtrigaud.Migration.Machines.{VirtualMachine}
use virtrigaud.Migration.Creating.{merge, migration_annotations, new_target_vm, mark_completed}

-- What the user does not annotate stays as it was.
lookup-merge :
    (k : String) (entries into : Dict String)
    → lookup k entries ≡ none
    → lookup k (merge entries into) ≡ lookup k into
unfolding merge lookup
lookup-merge k [] into n = refl
lookup-merge k ((j, v) ∷ entries) into n =
    ground (arith, eq_iff j k, lookup-insert j k v into, lookup-merge k entries (insert j v into))

pub created_refers :
    (m : Migration) (d : DiskInfo)
    → lookup "virtrigaud.io/migration" m.spec.target.annotations ≡ none
    → lookup "virtrigaud.io/migration" (new_target_vm m d).annotations
      ≡ some (sprintf (m.namespace ∷ "/" ∷ m.name ∷ []))
unfolding new_target_vm migration_annotations lookup
created_refers m d n =
    lookup-merge "virtrigaud.io/migration" m.spec.target.annotations (migration_annotations m d) n

pub created_incomplete :
    (m : Migration) (d : DiskInfo)
    → lookup "virtrigaud.io/migration-completed" m.spec.target.annotations ≡ none
    → lookup "virtrigaud.io/migration-completed" (new_target_vm m d).annotations ≡ none
unfolding new_target_vm migration_annotations lookup
created_incomplete m d n =
    lookup-merge "virtrigaud.io/migration-completed" m.spec.target.annotations
      (migration_annotations m d) n

pub marked_completed :
    (at : String) (vm : VirtualMachine)
    → lookup "virtrigaud.io/migration-completed" (mark_completed at vm).annotations ≡ some "true"
unfolding mark_completed
marked_completed at vm =
    rw
      (lookup-insert "virtrigaud.io/migration-completed-at" "virtrigaud.io/migration-completed" at
        (insert "virtrigaud.io/migration-completed" "true" vm.annotations))
      (lookup-insert "virtrigaud.io/migration-completed" "virtrigaud.io/migration-completed" "true"
        vm.annotations)
