-- ===== src/World/Tests.antt =====
-- Tests of the state store.
use dokion.Base.{◌>>=◌, ◌≡◌, refl, ◌+◌, some, Result, ok, err, ErrorCode, dokion_error}
use dokion.Model.State.{RunStatus, DokionState}
use dokion.World.Interface.{World}
use dokion.World.Store.{update, load, write_validated}
use dokion.World.Revision.{update-once}
use dokion.World.Samples.{host, world, run_state}

abbrev unchanged : DokionState → Result DokionState
unchanged s = ok s

abbrev updated : DokionState
updated = record (run_state RunStatus.running) { revision = 5 }

abbrev updated_world : World
updated_world = record (world RunStatus.running) { stored = some updated }

updated_lem : update host 4 unchanged (world RunStatus.running) ≡ (ok updated, updated_world)
unfolding update load write_validated ◌>>=◌
updated_lem = refl

update-once_example :
    (updated_world.stored ≡ some updated)
    × (updated.revision ≡ 4 + 1)
    × (update host 4 unchanged updated_world
        ≡ (err (dokion_error ErrorCode.state_revision_conflict), updated_world))
update-once_example =
    update-once host 4 unchanged unchanged (world RunStatus.running) updated_world updated
      updated_lem
