-- ===== src/Gc/Collector/Sweep.antt =====
-- The loop that the collectors share: which deletions it calls, and what it counts.
use roks_vpc_cni.Base.{ℕ, ◌+◌, ◌≡◌, Bool, false, ◌&&◌, ◌||◌, List, [], ◌∷◌, arith, if◌then◌else◌}
use roks_vpc_cni.Text.{Str, str_eq}
use roks_vpc_cni.Gc.World.{Kind, same_kind, Resource, Log, Env, attempted}
use roks_vpc_cni.Gc.Collector.{sweep}

-- An orphan with this id is listed.
abbrev pub lists_orphan : (Resource → Bool) → Str → List Resource → Bool
lists_orphan p id [] = false
lists_orphan p id (r ∷ rs) = (p r && str_eq r.id id) || lists_orphan p id rs

-- The deletions of a log that succeeded.
unfoldable pub succeeded : Log → ℕ
succeeded [] = 0
succeeded (d ∷ log) = (if d.deleted then 1 else 0) + succeeded log

module _ (env : Env) (kind : Kind) (p : Resource → Bool) where
  -- The loop calls the deletion of the listed orphans, and of nothing else.
  pub attempted-sweep :
      (k : Kind) (id : Str) (rs : List Resource) (log : Log)
      → attempted k id (sweep env kind p rs log).1
        ≡ ((same_kind kind k && lists_orphan p id rs) || attempted k id log)
  unfolding sweep attempted
  attempted-sweep k id [] log = ground arith
  attempted-sweep k id (r ∷ rs) log = ground (
    arith,
    attempted-sweep k id rs log,
    attempted-sweep k id rs
        (record { kind = kind; id = r.id; deleted = env.delete_succeeds kind r.id log } ∷ log),
  )

  pub succeeded-sweep :
      (rs : List Resource) (log : Log)
      → succeeded (sweep env kind p rs log).1 ≡ (sweep env kind p rs log).0 + succeeded log
  unfolding sweep succeeded
  succeeded-sweep [] log = omega arith
  succeeded-sweep (r ∷ rs) log = ground (
    arith,
    succeeded-sweep rs log,
    succeeded-sweep rs
        (record { kind = kind; id = r.id; deleted = env.delete_succeeds kind r.id log } ∷ log),
  )
