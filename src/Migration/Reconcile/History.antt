-- ===== src/Migration/Reconcile/History.antt =====
-- The life of a migration under vmmigration_controller.go: a run of reconciles, each of which meets what
-- the one before it has stored.
use virtrigaud.Prelude.{
  ◌≡◌, refl, ℕ, Bool, true, false, ◌||◌, List, [], ◌∷◌, inl, inr, arith, ltb, ltb→lt, Bool-cases,
  All, ◌<◌, ◌≤◌, ◌==◌,
}
use virtrigaud.Migration.Types.{
  Migration, Phase, unset, pending, validating, snapshotting, exporting, transferring, converting,
  importing, creating, validating_target, ready, failed, unknown_phase, Outcome, error,
}
use virtrigaud.Migration.Phases.{Moves}
use virtrigaud.Migration.Reconcile.{World, Process, reconcile_migration}
use virtrigaud.Migration.Reconcile.Graph.{reconcile-Moves}

-- The migration that the next reconcile meets: the one in memory, unless an error ended the reconcile
-- before it was written.
abbrev pub stored : Migration → Outcome → Migration → Migration
stored m (error err) m' = m
stored m _ m' = m'

-- The phases that the reconciles of a run begin with and end with, the first one first
unfoldable pub phases : List World → Migration → Process → List Phase
phases [] m p = m.status.phase ∷ []
phases (w ∷ ws) m p =
    let (o, m', p') = reconcile_migration w m p in m.status.phase ∷ phases ws (stored m o m') p'

-- Each phase is the one before it or may follow it.
abbrev pub IsPath : List Phase → Type 0
IsPath [] = Unit
IsPath (p ∷ []) = Unit
IsPath (p ∷ q ∷ rest) = Moves p q × IsPath (q ∷ rest)

-- The phases in the order in which a migration can first reach them
abbrev pub rank : Phase → ℕ
rank unset = 0
rank pending = 1
rank failed = 2
rank (unknown_phase text) = 3
rank validating = 4
rank snapshotting = 5
rank exporting = 6
rank transferring = 7
rank converting = 8
rank importing = 9
rank creating = 10
rank validating_target = 11
rank ready = 12

abbrev pub visits : ℕ → List Phase → Bool
visits r [] = false
visits r (p ∷ ps) = rank p == r || visits r ps

abbrev pub last_of : Phase → List Phase → Phase
last_of p [] = p
last_of p (q ∷ qs) = last_of q qs

-- No move jumps over the rank.
abbrev Unskipped : ℕ → Type 0
Unskipped r = (p q : Phase) → Moves p q → r < rank q → r ≤ rank p

-- No move between two phases jumps over the rank of a phase that cannot be left out.
validating-Unskipped : Unskipped 4
validating-Unskipped p q m h = ground arith

exporting-Unskipped : Unskipped 6
exporting-Unskipped p q m h = ground arith

importing-Unskipped : Unskipped 9
importing-Unskipped p q m h = ground arith

creating-Unskipped : Unskipped 10
creating-Unskipped p q m h = ground arith

validating_target-Unskipped : Unskipped 11
validating_target-Unskipped p q m h = ground arith

-- A path from below a rank that is not skipped to above it goes through it.
crosses :
    (r : ℕ)
    → Unskipped r
    → (p : Phase) (ps : List Phase) → IsPath (p ∷ ps)
    → rank p < r
    → r < rank (last_of p ps)
    → visits r (p ∷ ps) ≡ true
crosses r u p [] path l h = ground arith
crosses r u p (q ∷ qs) (m, path) l h = elim (Bool-cases (ltb (rank q) r)) [
  | inl b ↦ ground (arith, crosses r u q qs path (ltb→lt (rank q) r b) h)
  | inr b ↦ (elim (Bool-cases (rank q == r)) [
    | inl e ↦ rw e (ground arith)
    | inr e ↦ ground (arith, u p q m)
  ])
]

stored-Moves :
    (m m' : Migration) (o : Outcome)
    → Moves m.status.phase m'.status.phase
    → Moves m.status.phase (stored m o m').status.phase
stored-Moves m m' o h = ground arith

-- The first phase of a run, and the others
rest_of : List World → Migration → Process → List Phase
rest_of [] m p = []
rest_of (w ∷ ws) m p = let (o, m', p') = reconcile_migration w m p in phases ws (stored m o m') p'

starts :
    (ws : List World) (m : Migration) (p : Process)
    → phases ws m p ≡ m.status.phase ∷ rest_of ws m p
unfolding phases rest_of
starts [] m p = refl
starts (w ∷ ws) m p = refl

phases-IsPath : (ws : List World) (m : Migration) (p : Process) → IsPath (phases ws m p)
unfolding phases
phases-IsPath [] m p = tt
phases-IsPath (w ∷ ws) m p =
    let (o, m', p') = reconcile_migration w m p in
    rw (starts ws (stored m o m') p') (
      stored-Moves m m' o (reconcile-Moves w m p),
      rw (starts ws (stored m o m') p') at (phases-IsPath ws (stored m o m') p'),
    )

-- A migration is never Ready before its time. However the reconciles of a run are answered, whichever
-- fail, are retried or lose their status write: if the run begins with a migration that has no phase
-- and ends with one that is Ready, some of its reconciles have met it in the phases Validating,
-- Exporting, Importing, Creating and ValidatingTarget.
pub ready_through :
    (ws : List World) (m : Migration) (p : Process)
    → m.status.phase ≡ unset
    → last_of m.status.phase (phases ws m p) ≡ ready
    → (visits (rank validating) (phases ws m p) ≡ true)
      × (visits (rank exporting) (phases ws m p) ≡ true)
      × (visits (rank importing) (phases ws m p) ≡ true)
      × (visits (rank creating) (phases ws m p) ≡ true)
      × (visits (rank validating_target) (phases ws m p) ≡ true)
ready_through ws m p u r =
    let path = rw (starts ws m p) at (phases-IsPath ws m p) in
    let end = rw (starts ws m p) at r in
    rw (starts ws m p) (
      crosses 4 validating-Unskipped m.status.phase (rest_of ws m p) path (rw u (omega arith))
          (rw end (omega arith)),
      crosses 6 exporting-Unskipped m.status.phase (rest_of ws m p) path (rw u (omega arith))
          (rw end (omega arith)),
      crosses 9 importing-Unskipped m.status.phase (rest_of ws m p) path (rw u (omega arith))
          (rw end (omega arith)),
      crosses 10 creating-Unskipped m.status.phase (rest_of ws m p) path (rw u (omega arith))
          (rw end (omega arith)),
      crosses 11 validating_target-Unskipped m.status.phase (rest_of ws m p) path
          (rw u (omega arith)) (rw end (omega arith)),
    )

-- Ready is final: no reconcile takes a migration that is Ready to another phase.
pub ready_is_final :
    (ws : List World) (m : Migration) (p : Process)
    → m.status.phase ≡ ready
    → All (λ q. q ≡ ready) (phases ws m p)
unfolding phases
ready_is_final [] m p r = (r, tt)
ready_is_final (w ∷ ws) m p r =
    let (o, m', p') = reconcile_migration w m p in
    (
      r,
      ready_is_final ws (stored m o m') p'
          (ground (arith, stored-Moves m m' o (reconcile-Moves w m p))),
    )
