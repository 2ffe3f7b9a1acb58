-- ===== src/Migration/StatusUpdate/Tests.antt =====
-- updateStatus against an API server on which another writer comes first once.
use virtrigaud.Prelude.{ℕ, zero, suc, ◌+◌, ◌≡◌, refl, none, arith}
use virtrigaud.Migration.Types.{Migration, Status, Answer, returned}
use virtrigaud.Migration.StatusUpdate.{Write, written, conflict, update_status}
use virtrigaud.Migration.StatusUpdate.Laws.{update_status_persists}
use virtrigaud.Migration.Samples.{fresh}

-- The stored status, the writes so far, and how many of the next ones come too late.
record Server : Type 0 where
  stored : Status
  writes : ℕ
  late : ℕ

write_late : ℕ → Migration → Server → Write × Server
write_late zero m s = (written, record s { stored = m.status; writes = s.writes + 1 })
write_late (suc n) m s = (conflict "modified", record s { late = n; writes = s.writes + 1 })

abbrev write : Migration → Server → Write × Server
write m s = write_late s.late m s

abbrev read : Server → Answer Migration × Server
read s = (returned (record fresh { status = s.stored }), s)

abbrev rest : ℕ → Server → Server
rest delay s = s

abbrev busy : Server
busy = record { stored = fresh.status; writes = 0; late = 1 }

abbrev updated : Migration
updated = record fresh { status = record (fresh.status) { export_id = "e1" } }

write_late-stored :
    (n : ℕ) (m : Migration) (s : Server)
    → (write_late n m s).0 ≡ written
    → (write_late n m s).1.stored ≡ m.status
unfolding write_late
write_late-stored zero m s h = refl
write_late-stored (suc n) m s h = absurd (ground arith)

write_late-writes :
    (n : ℕ) (m : Migration) (s : Server) → (write_late n m s).1.writes ≡ s.writes + 1
unfolding write_late
write_late-writes zero m s = refl
write_late-writes (suc n) m s = refl

written_at_last : (update_status write read rest updated busy).0 ≡ none
unfolding update_status write_late
written_at_last = refl

update_status_persists_example :
    (update_status write read rest updated busy).2.stored ≡ updated.status
update_status_persists_example =
    update_status_persists write read rest (λ s. s.stored) (λ m s. write_late-stored s.late m s)
      updated busy written_at_last
