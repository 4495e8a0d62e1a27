-- ===== src/Controllers/Trace.antt =====
-- What a trace of calls amounts to: the object that the API server holds afterwards, and how many
-- VPC resources were created and deleted.
use roks_vpc_cni.Base.{ℕ, ◌+◌, ◌≡◌, ◌⊎◌, none, some, List, [], ◌∷◌, ◌++◌, true, arith}
use roks_vpc_cni.Text.{Str, member, str_eq_refl}
use roks_vpc_cni.Controllers.Effects.{
  ok, err, update, status_update, create, delete, metric, event, Trace,
}

module _ {O Q V D : Type 0} where
  -- The object after the writes that succeeded.
  unfoldable pub stored : O → Trace O Q V D → O
  stored o [] = o
  stored o (update o' none ∷ t) = o'
  stored o (update o' (some e) ∷ t) = stored o t
  stored o (status_update o' none ∷ t) = o'
  stored o (status_update o' (some e) ∷ t) = stored o t
  stored o (create q r ∷ t) = stored o t
  stored o (delete d e ∷ t) = stored o t
  stored o (metric op b ∷ t) = stored o t
  stored o (event r ∷ t) = stored o t

  -- The creations that succeeded.
  unfoldable pub creations : Trace O Q V D → ℕ
  creations [] = 0
  creations (create q (ok v) ∷ t) = 1 + creations t
  creations (create q (err e) ∷ t) = creations t
  creations (update o e ∷ t) = creations t
  creations (status_update o e ∷ t) = creations t
  creations (delete d e ∷ t) = creations t
  creations (metric op b ∷ t) = creations t
  creations (event r ∷ t) = creations t

  -- The deletions that succeeded.
  unfoldable pub deletions : Trace O Q V D → ℕ
  deletions [] = 0
  deletions (delete d none ∷ t) = 1 + deletions t
  deletions (delete d (some e) ∷ t) = deletions t
  deletions (update o e ∷ t) = deletions t
  deletions (status_update o e ∷ t) = deletions t
  deletions (create q r ∷ t) = deletions t
  deletions (metric op b ∷ t) = deletions t
  deletions (event r ∷ t) = deletions t

  -- This was deleted: a deletion of it has succeeded.
  abbrev pub Deleted : D → Trace O Q V D → Type 0
  Deleted d [] = ⊥
  Deleted d (delete d' none ∷ t) = (d' ≡ d) ⊎ Deleted d t
  Deleted d (delete d' (some e) ∷ t) = Deleted d t
  Deleted d (update o e ∷ t) = Deleted d t
  Deleted d (status_update o e ∷ t) = Deleted d t
  Deleted d (create q r ∷ t) = Deleted d t
  Deleted d (metric op b ∷ t) = Deleted d t
  Deleted d (event r ∷ t) = Deleted d t

  -- The status updates that failed.
  unfoldable pub lost_updates : Trace O Q V D → ℕ
  lost_updates [] = 0
  lost_updates (status_update o none ∷ t) = lost_updates t
  lost_updates (status_update o (some e) ∷ t) = 1 + lost_updates t
  lost_updates (update o e ∷ t) = lost_updates t
  lost_updates (create q r ∷ t) = lost_updates t
  lost_updates (delete d e ∷ t) = lost_updates t
  lost_updates (metric op b ∷ t) = lost_updates t
  lost_updates (event r ∷ t) = lost_updates t

pub member_last : (f : Str) (fs : List Str) → member f (fs ++ f ∷ []) ≡ true
unfolding member
member_last f [] = ground (arith, str_eq_refl f)
member_last f (g ∷ fs) = ground (arith, member_last f fs)
