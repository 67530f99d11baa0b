-- ===== src/Approvals/Tests.antt =====
-- A decision on a step of the sample run.
use dokion.Base.{String, some, ok, err, Fault, ◌≡◌, refl, ◌⊎◌, false, ◌==◌}
use dokion.Model.State.{RunStatus, DokionState, ApprovalStateRecord, Decision}
use dokion.World.{World}
use dokion.World.Samples.{host, world, run_state}
use dokion.Approvals.{ApprovalInput, is_approved, is_approved_decision, record_approval}
use dokion.Approvals.Recorded.{record_approval_lem}

abbrev decision : ApprovalInput
decision = record { subject = "step:scan"; decision = Decision.approved; by = "user" }

record_approval_example :
    ((f : Fault) × (w' : World) × (record_approval host decision (world RunStatus.running)
        ≡ (err f, w'))
      × (w'.stored ≡ some (run_state RunStatus.running)))
    ⊎ ((r : ApprovalStateRecord) × (w' : World) × (t : DokionState) × (record_approval host decision
            (world RunStatus.running)
          ≡ (ok r, w'))
        × (w'.stored ≡ some t)
        × (is_approved t "step:scan" ≡ is_approved_decision Decision.approved)
        × ((other : String)
            → ("step:scan" == other) ≡ false
            → is_approved t other ≡ is_approved (run_state RunStatus.running) other))
record_approval_example =
    record_approval_lem host decision (world RunStatus.running) (run_state RunStatus.running) refl
