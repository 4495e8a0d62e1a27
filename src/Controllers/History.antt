-- ===== src/Controllers/History.antt =====
-- Any number of runs of a reconciler on one object, with edits by others between them.
use roks_vpc_cni.Base.{ℕ, ◌+◌, ◌≤◌, ◌≡◌, arith}
use roks_vpc_cni.Controllers.Effects.{Trace}
use roks_vpc_cni.Controllers.Trace.{stored, creations, deletions, lost_updates}

-- `recorded` counts the VPC resources that an object accounts for, and `IsRun o t` says that `t`
-- is the trace of a run on the object `o`.
module _ {O Q V D : Type 0} (recorded : O → ℕ) (IsRun : O → Trace O Q V D → Type 0) where
  -- The object, and the creations, deletions and failed status updates so far.
  pub record Tally : Type 0 where
    pub object : O
    pub created : ℕ
    pub deleted : ℕ
    pub lost : ℕ

  abbrev pub after_run : Tally → Trace O Q V D → Tally
  after_run s t = record {
    object = stored s.object t;
    created = s.created + creations t;
    deleted = s.deleted + deletions t;
    lost = s.lost + lost_updates t;
  }

  -- Others may change what `recorded` does not read: the specification, the deletion mark.
  pub data History (first : O) : Tally → Type 0 where
    start : History first (record { object = first; created = 0; deleted = 0; lost = 0 })
    ran :
        {s : Tally} (t : Trace O Q V D)
        → IsRun s.object t
        → History first s
        → History first (after_run s t)
    edited :
        {s : Tally} (o : O)
        → recorded o ≡ recorded s.object
        → History first s
        → History first (record s { object = o })

  pub History-Conserves :
      ((o : O) (t : Trace O Q V D)
        → IsRun o t
        → creations t + recorded o ≤ deletions t + recorded (stored o t) + lost_updates t)
      → {first : O} {s : Tally} → History first s
      → s.created + recorded first ≤ s.deleted + recorded s.object + s.lost
  History-Conserves law start = omega arith
  History-Conserves law (ran {s} t run h) =
      omega (arith, law s.object t run, History-Conserves law h)
  History-Conserves law (edited o same h) = omega (arith, same, History-Conserves law h)
