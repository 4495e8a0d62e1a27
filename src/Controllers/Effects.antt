-- ===== src/Controllers/Effects.antt =====
-- What a reconciler does to the outside: calls of the Kubernetes and VPC interfaces, metrics and
-- events, in order. The answers of the two interfaces are parameters: each may depend on all that
-- was called before.
use roks_vpc_cni.Base.{ℕ, Bool, Option, none, some, List, [], ◌∷◌, if◌then◌else◌}
use roks_vpc_cni.Text.{Str, str_eq}
pub use roks_vpc_cni.Controllers.Logged.{Logged, pure, ◌>>=◌, ◌>>◌, branch, branch_rule, on_error}

-- A Go function's value or its error's message.
pub data Result (A : Type 0) : Type 0 where
  ok : A → Result A
  err : Str → Result A

pub data SyncStatus : Type 0 where
  unset synced pending failed : SyncStatus

-- The condition of type Ready.
pub record Condition : Type 0 where
  pub status : Bool
  pub reason : Str
  pub message : Str

-- ctrl.Result in seconds, and the error.
pub record Outcome : Type 0 where
  pub requeue_after : ℕ
  pub error : Option Str

abbrev pub finished : Outcome
finished = record { requeue_after = 0; error = none }

abbrev pub failing : Str → Outcome
failing e = record { requeue_after = 0; error = some e }

abbrev pub requeue : ℕ → Outcome
requeue seconds = record { requeue_after = seconds; error = none }

-- `O` is the custom resource, `Q` the options of a creation, `V` the VPC resource, `D` what names
-- one for its deletion. A call that can fail is logged with its answer.
module _ (O Q V D : Type 0) where
  pub data Call : Type 0 where
    update : O → Option Str → Call
    status_update : O → Option Str → Call
    create : Q → Result V → Call
    delete : D → Option Str → Call
    metric : Str → Bool → Call
    event : Str → Call

  -- The calls so far, the latest first.
  abbrev pub Trace : Type 0
  Trace = List Call

  pub record Env : Type 0 where
    pub on_update : O → Trace → Option Str
    pub on_status_update : O → Trace → Option Str
    pub on_create : Q → Trace → Result V
    pub on_delete : D → Trace → Option Str
    pub now : Trace → ℕ
    pub has_recorder : Bool

-- An action of a reconciler.
abbrev pub M : (O Q V D : Type 0) → Type 0 → Type 0
M O Q V D A = Logged (Call O Q V D) A

module _ {O Q V D : Type 0} where
  -- r.Update
  abbrev pub call_update : Env O Q V D → O → M O Q V D (Option Str)
  call_update env o t = let e = env.on_update o t in (e, update o e ∷ t)

  -- r.Status().Update
  abbrev pub call_status_update : Env O Q V D → O → M O Q V D (Option Str)
  call_status_update env o t = let e = env.on_status_update o t in (e, status_update o e ∷ t)

  abbrev pub call_create : Env O Q V D → Q → M O Q V D (Result V)
  call_create env q t = let r = env.on_create q t in (r, create q r ∷ t)

  abbrev pub call_delete : Env O Q V D → D → M O Q V D (Option Str)
  call_delete env d t = let e = env.on_delete d t in (e, delete d e ∷ t)

  -- operatormetrics.ReconcileOpsTotal.WithLabelValues(kind, op, result).Inc()
  abbrev pub count_op : Str → Bool → M O Q V D (Unit {0})
  count_op op success t = (tt, metric op success ∷ t)

  -- emitEvent
  abbrev pub emit_event : Env O Q V D → Str → M O Q V D (Unit {0})
  emit_event env reason t = (tt, if env.has_recorder then event reason ∷ t else t)

  -- metav1.Now()
  abbrev pub read_clock : Env O Q V D → M O Q V D ℕ
  read_clock env t = (env.now t, t)

-- The list that controllerutil.RemoveFinalizer leaves.
unfoldable pub remove_finalizer : Str → List Str → List Str
remove_finalizer f [] = []
remove_finalizer f (g ∷ gs) =
    let rest = remove_finalizer f gs in if str_eq g f then rest else g ∷ rest
