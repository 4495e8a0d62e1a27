-- ===== src/Controllers/Lifecycle/Leaks.antt =====
-- No run of a reconciler loses a resource, however often and under whatever failures it runs.
use roks_vpc_cni.Base.{◌+◌, ◌≤◌, []}
use roks_vpc_cni.Controllers.Effects.{Env, Trace}
use roks_vpc_cni.Controllers.Trace.{stored, creations, deletions, lost_updates}
use roks_vpc_cni.Controllers.History
use roks_vpc_cni.Controllers.Lifecycle.{Kind, IsLawful, Mode, reconcile, object}
use roks_vpc_cni.Controllers.Lifecycle.Conservation.{recorded, GivesIds, run-Conserves}

module _ {O Q V D : Type 0} (k : Kind O Q V D) where
  -- The trace of some run on the object.
  pub data IsRun (o : O) : Trace O Q V D → Type 0 where
    run :
        (mode : Mode) (env : Env O Q V D)
        → GivesIds k env
        → IsRun o (reconcile k env mode (object o) []).1

  abbrev pub Tally : Type 0
  Tally = History.Tally (recorded k) IsRun

  abbrev pub RunHistory : O → Tally → Type 0
  RunHistory = History.History (recorded k) IsRun

  run_law :
      IsLawful k
      → (o : O) (t : Trace O Q V D) → IsRun o t
      → creations t + recorded k o ≤ deletions t + recorded k (stored o t) + lost_updates t
  run_law law o t (run mode env ids) = run-Conserves k law env o mode ids

  -- Over any number of runs on one object, in any modes and with any answers of the interfaces,
  -- and with edits by others that leave the recorded id and the finalizer alone: the resources
  -- created are at most those deleted, the status updates that failed, and the one that the object
  -- records, less the one that it recorded at first. The VPC interface gives every resource an id.
  pub none_lost :
      IsLawful k
      → {first : O} {s : Tally} → RunHistory first s
      → s.created + recorded k first ≤ s.deleted + recorded k s.object + s.lost
  none_lost law h = History.History-Conserves (recorded k) IsRun (run_law law) h
