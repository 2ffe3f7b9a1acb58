-- ===== src/Migration/Phases.antt =====
-- The phases of a migration in vmmigration_controller.go and the moves between them.
use virtrigaud.Prelude.{◌≡◌, Bool, true, false, ◌⊎◌}
use virtrigaud.Migration.Types.{
  Phase, unset, pending, validating, snapshotting, exporting, transferring, converting, importing,
  creating, validating_target, ready, failed,
}

-- The phases that may follow a phase, other than itself
abbrev pub may_follow : Phase → Phase → Bool
may_follow unset pending = true
may_follow pending validating = true
may_follow validating snapshotting = true
may_follow validating exporting = true
may_follow snapshotting exporting = true
may_follow exporting importing = true
may_follow transferring importing = true
may_follow converting importing = true
may_follow importing creating = true
may_follow creating validating_target = true
may_follow validating_target ready = true
may_follow failed pending = true
may_follow validating failed = true
may_follow snapshotting failed = true
may_follow exporting failed = true
may_follow importing failed = true
may_follow creating failed = true
may_follow validating_target failed = true
may_follow _ _ = false

-- The phase stays or moves along the graph.
abbrev pub Moves : Phase → Phase → Type 0
Moves p q = (q ≡ p) ⊎ (may_follow p q ≡ true)
